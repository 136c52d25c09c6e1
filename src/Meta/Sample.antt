-- ===== src/Meta/Sample.antt =====
-- A tree of a root, a directory "a" in it and a file "b" in that, with its index.
use native.Mathlib.Decide.{ℕ_discrete}
use catfs.Common.{
  ℕ, ◌≡◌, refl, none, some, [], ◌∷◌, Text, bytes, text_discrete, arith, lookup, text_key,
  number_key, ◌==◌, if◌then◌else◌,
}
use catfs.Stor.{Timespec}
use catfs.Meta.Heap.{Inode, Dentry, Heap, fresh_dentry, fresh_inode, at}
use catfs.Meta.Dentry.{s_ifdir}
use catfs.Meta.Dentry.FullPath.{Chain, root, below}
use catfs.Meta.Local.{MetaOpt, LocalMemMeta}
use catfs.Meta.Local.Index.{indexed}
use catfs.Meta.Local.Tree.{IsParent, IsChild}

abbrev pub name_a : Text
name_a = bytes "a"

abbrev pub name_b : Text
name_b = bytes "b"

abbrev pub root_inode : Inode
root_inode = record fresh_inode { ino = 1; mode = s_ifdir }

abbrev pub dir_inode : Inode
dir_inode = record fresh_inode { ino = 2; mode = s_ifdir }

abbrev pub file_inode : Inode
file_inode = record fresh_inode { ino = 3 }

abbrev pub root_dentry : Dentry
root_dentry = record (fresh_dentry [] 1) { children = (name_a, 4) ∷ [] }

abbrev pub dir_dentry : Dentry
dir_dentry = record (fresh_dentry name_a 3) { parent = 2; children = (name_b, 6) ∷ [] }

abbrev pub file_dentry : Dentry
file_dentry = record (fresh_dentry name_b 5) { parent = 4 }

abbrev pub heap : Heap
heap = record {
  dentries = at (at (at (λ _. none) 2 (some root_dentry)) 4 (some dir_dentry)) 6 (some file_dentry);
  inodes = at (at (at (λ _. none) 1 (some root_inode)) 3 (some dir_inode)) 5 (some file_inode);
  next_ptr = 7;
  clock_reads = 0;
}

abbrev pub opt : MetaOpt
opt = record { gid = 0; uid = 0; dcache_timeout = 30; bucket = []; bucket_prefix = [] }

abbrev pub local : LocalMemMeta
local = record {
  opt = opt;
  next_inode_id = 4;
  root_dentry = 2;
  dentry_index = λ j.
      if j == 1
      then (1, 2) ∷ []
      else if j == 2
      then (2, 4) ∷ []
      else if j == 3
      then (3, 6) ∷ []
      else [];
  heap = heap;
}

-- The n-th reading is n seconds.
abbrev pub clock : ℕ → Timespec
clock n = record { tv_sec = n; tv_nsec = 0 }

pub root-Chain : Chain heap 2 []
root-Chain = root root_dentry root_inode refl refl refl

pub dir-Chain : Chain heap 4 (name_a ∷ [])
dir-Chain =
    below dir_dentry dir_inode name_a 2 refl refl (omega arith) refl refl (omega arith) root-Chain

pub root-IsParent : IsParent local 1 2 root_dentry
unfolding lookup ℕ_discrete
root-IsParent = record { entry = refl; not_null = omega arith; holds = refl }

pub dir-IsParent : IsParent local 2 4 dir_dentry
unfolding lookup ℕ_discrete
dir-IsParent = record { entry = refl; not_null = omega arith; holds = refl }

pub file-IsChild : IsChild local dir_dentry name_b 6 file_dentry file_inode
unfolding lookup text_discrete ℕ_discrete
file-IsChild = record { linked = refl; not_null = omega arith; holds = refl; inode = refl }

pub file_indexed : indexed local 3 ≡ some 6
unfolding lookup ℕ_discrete
file_indexed = refl

pub dir-IsChild : IsChild local root_dentry name_a 4 dir_dentry dir_inode
unfolding lookup text_discrete ℕ_discrete
dir-IsChild = record { linked = refl; not_null = omega arith; holds = refl; inode = refl }

pub dir_indexed : indexed local 2 ≡ some 4
unfolding lookup ℕ_discrete
dir_indexed = refl
