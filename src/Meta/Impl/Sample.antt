-- ===== src/Meta/Impl/Sample.antt =====
-- The small tree with a backend in memory, and its entries as find_dentry sees them.
use catfs.Common.{
  ℕ, suc, refl, true, false, ◌≡◌, ok, lookup, text_key, text_discrete, bytes, [], ◌∷◌, arith,
}
use native.Mathlib.Decide.{ℕ_discrete}
use catfs.Stor.S3.{head_file}
use catfs.Writer.Sample.{backend, junk}
use catfs.Stor.{Timespec, HeadFileResp}
use catfs.Stor.S3.Memory.{Memory, blank}
use catfs.Meta.Impl.{MetaImpl}
use catfs.Meta.Impl.Lookup.{IsCached}
use catfs.Meta.Dentry
use catfs.Meta.Dentry.FullPath.{root, below}
use catfs.Meta.Sample.{
  opt, local, clock, name_a, name_b, root_dentry, root_inode, dir_dentry, dir_inode, file_dentry,
  file_inode, root-IsParent, dir-IsParent, dir-IsChild, file-IsChild,
}

abbrev pub state : MetaImpl Memory
state = record { opt = opt; local = local; backend = blank }

-- The same readings, one second later.
abbrev pub late : ℕ → Timespec
late n = clock (suc n)

pub file-IsCached :
    IsCached clock state 2 name_b (name_a ∷ []) 4 6 dir_dentry file_dentry file_inode false
unfolding Dentry.expired_at
file-IsCached = record {
  is_parent = dir-IsParent;
  is_child = file-IsChild;
  expiry = refl;
  not_root = omega arith;
  up = refl;
  chain =
      below dir_dentry dir_inode name_a 2 refl refl (omega arith) refl refl (omega arith)
        (root root_dentry root_inode refl refl refl);
  short = omega arith;
}

pub dir-IsCached : IsCached clock state 1 name_a [] 2 4 root_dentry dir_dentry dir_inode false
unfolding Dentry.expired_at
dir-IsCached = record {
  is_parent = root-IsParent;
  is_child = dir-IsChild;
  expiry = refl;
  not_root = omega arith;
  up = refl;
  chain = root root_dentry root_inode refl refl refl;
  short = omega arith;
}

-- The same over S3 with an object of the file "b" in the directory "a".
abbrev pub has_b : Memory
has_b = record blank { objects = (bytes "a/b", 1 ∷ 2 ∷ []) ∷ [] }

abbrev pub with_b : MetaImpl Memory
with_b = record state { backend = has_b }

pub file_expired-IsCached :
    IsCached late with_b 2 name_b (name_a ∷ []) 4 6 dir_dentry file_dentry file_inode true
unfolding Dentry.expired_at
file_expired-IsCached = record {
  is_parent = dir-IsParent;
  is_child = file-IsChild;
  expiry = refl;
  not_root = omega arith;
  up = refl;
  chain =
      below dir_dentry dir_inode name_a 2 refl refl (omega arith) refl refl (omega arith)
        (root root_dentry root_inode refl refl refl);
  short = omega arith;
}

-- The object as S3Stor::head_file gives it: without an owner and a mode.
abbrev pub b_found : HeadFileResp
b_found = record { exist = true; obj = record junk { size = 2 } }

pub b-found :
    backend.head_file
      (record { obj_key = bytes "a/b" })
      (record { exist = false; obj = junk })
      has_b
    ≡ ok b_found has_b
unfolding head_file lookup text_discrete ℕ_discrete
b-found = refl
