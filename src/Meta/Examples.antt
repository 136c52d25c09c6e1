-- ===== src/Meta/Examples.antt =====
-- The theorems about the dentries and the tree, on a small tree.
use catfs.Common.{
  ℕ, ◌+◌, ◌*◌, ◌≡◌, ◌≢◌, refl, none, some, [], ◌∷◌, ◌++◌, Text, arith, ok, fault, lookup, text_key,
  number_key, ltb, ◌>>◌,
}
use catfs.Meta.Heap.{null, Heap}
use catfs.Meta.Dentry
use catfs.Meta.Dentry.{s_ifdir}
use catfs.Meta.Dentry.Expiry.{nanos, is_expired-inc_ttl}
use catfs.Meta.Dentry.FullPath.{key_prefix, get_full_path-Chain, get_full_path_with_slash-Chain}
use catfs.Meta.Local.{
  LocalMemMeta, create_dentry, find_dentry, get_inode, remove_dentry, rename, obj_mode,
}
use catfs.Meta.Local.Index.{indexed}
use catfs.Stor.{ObjInfo}
use Prim.Native.Nat.{bit_and}
use mathlib.Core.Bool.{true}
use catfs.Meta.Local.Modes.{s_ifmt, obj_mode_bits}
use catfs.Meta.Local.Tree.{remove_dentry_dangling, rename-fault}
use catfs.Meta.Local.Create.{create_dentry-find_dentry}
use catfs.Meta.Local.Merge.{clear_unsync_dentry}
use catfs.Meta.Local.Merge.Clear.{IsUnsynced, clear_unsync_dentry_fault}
use catfs.Meta.Sample.{
  name_a, name_b, file_inode, root_dentry, dir_dentry, file_dentry, heap, local, clock, dir-Chain,
  root-IsParent, dir-IsParent, file-IsChild, file_indexed,
}

get_full_path-Chain_example :
    Dentry.get_full_path 6 heap ≡ ok (key_prefix (name_a ∷ []) ++ name_b) heap
get_full_path-Chain_example =
    get_full_path-Chain 6 file_dentry file_inode refl refl (omega arith) refl (omega arith)
      dir-Chain (omega arith)

get_full_path_with_slash-Chain_example :
    Dentry.get_full_path_with_slash 4 heap ≡ ok (key_prefix (name_a ∷ [])) heap
get_full_path_with_slash-Chain_example = get_full_path_with_slash-Chain dir-Chain (omega arith)

is_expired-inc_ttl_example :
    (h : Heap) × ((Dentry.inc_ttl clock 6 30 >> Dentry.is_expired clock 6) heap
      ≡ ok (ltb (nanos (clock 0) + 30 * 1_000_000_000) (nanos (clock 1))) h)
is_expired-inc_ttl_example =
    is_expired-inc_ttl clock heap 6 file_dentry 30 refl (omega arith) (omega arith)

create_dentry-find_dentry_example :
    (s : LocalMemMeta) × (create_dentry 1 name_b 5 local ≡ ok 7 s)
    × (find_dentry 1 name_b s ≡ ok 7 s)
    × (get_inode 3 s ≡ ok 5 s)
    × ((other : Text)
        → other ≢ name_b
        → find_dentry 1 other s ≡ ok (Dentry.or_null (lookup other root_dentry.children)) s)
    × ((ino : ℕ) → ino ≢ 3 → indexed s ino ≡ indexed local ino)
create_dentry-find_dentry_example =
    create_dentry-find_dentry local 1 name_b 2 5 root_dentry file_inode root-IsParent refl
      (omega arith) (omega arith)

remove_dentry_dangling_example :
    (s : LocalMemMeta) × (remove_dentry 2 name_b local ≡ ok tt s)
    × (find_dentry 2 name_b s ≡ ok null s)
    × (indexed s 3 ≡ some 6)
    × (get_inode 3 s ≡ fault)
remove_dentry_dangling_example =
    remove_dentry_dangling local 2 name_b 4 6 dir_dentry file_dentry file_inode dir-IsParent
      file-IsChild (omega arith) file_indexed

rename-fault_example : rename 2 name_b 1 name_b local ≡ fault
rename-fault_example =
    rename-fault local 2 1 name_b name_b 4 2 6 dir_dentry root_dentry file_dentry file_inode
      dir-IsParent root-IsParent file-IsChild (omega arith)

file-IsUnsynced : IsUnsynced local 6
file-IsUnsynced = record { dentry = file_dentry; holds = refl; unsynced = refl }

clear_unsync_dentry_fault_example : clear_unsync_dentry clock 4 local ≡ fault
clear_unsync_dentry_fault_example =
    clear_unsync_dentry_fault clock local 4 6 dir_dentry name_b [] [] refl refl (omega arith)
      file-IsUnsynced

abbrev shared : ObjInfo
shared = record {
  name = name_b;
  size = 0;
  ctime = clock 0;
  mtime = clock 0;
  uid = none;
  gid = none;
  mode = some 0o102750;
}

obj_mode_bits_example :
    (bit_and (obj_mode shared true) s_ifmt ≡ s_ifdir)
    × (bit_and (obj_mode shared true) 0o777 ≡ bit_and 0o102750 0o777)
obj_mode_bits_example = obj_mode_bits shared true
