-- ===== src/Meta/Impl/Examples.antt =====
-- The theorems about the metadata operations, on the small tree and a backend in memory.
use mathlib.Core.List.{map}
use catfs.Common.{
  List, Text, text_key, ◌≡◌, ◌≢◌, refl, true, false, some, [], ◌∷◌, ◌++◌, bytes, arith, ok, throw,
  enotempty, erase,
}
use catfs.Stor.{ObjInfo}
use catfs.Stor.S3.{delete_file}
use catfs.Stor.S3.Memory.{memory, Memory, blank}
use catfs.Stor.Aws.{S3Client, ListObjectsResult, success}
use catfs.Meta.Impl.{is_remote_dir_exist}
use catfs.Meta.Impl.Remote.{is_remote_dir_exist_nested}
use catfs.Stor.S3.{s3_stor}
use catfs.Writer.Sample.{opt as bucket_opt, backend, junk}
use catfs.Meta.Local.Fresh.{next_inode, IsFrom}
use catfs.Meta.Heap
use catfs.Meta.Impl.Located.{find_dentry_located}
use catfs.Meta.Impl.{create_dentry}
use catfs.Meta.Impl.Absent.{create_dentry_new}
use catfs.Meta.Heap.{Ptr, Inode, null, read_dentry, read_inode}
use catfs.Meta.Dentry
use catfs.Meta.Dentry.FullPath.{key_prefix}
use catfs.Meta.Local
use catfs.Meta.Local.{FTreeNodes}
use catfs.Meta.Sample.{
  clock, name_a, name_b, root_dentry, dir_dentry, dir_inode, file_dentry, file_inode, file_indexed,
  local,
}
use catfs.Meta.Impl.{MetaImpl, find_dentry, remove_dentry, build_ftree_from_listobjects}
use catfs.Meta.Impl.Lookup.{ticked, find_dentry_cached}
use catfs.Meta.Impl.Remove.{remove_dentry_not_empty, remove_dentry_deletes}
use catfs.Meta.Impl.Refresh.{find_dentry_refreshed}
use catfs.Meta.Impl.Listing.{
  DirNames, FileNames, dir_key, file_obj, find_node, last_of, has_name, expected, build_ftree-names,
}
use catfs.Meta.Impl.Stranger.{
  name_c, with_dir, c-put, c-IsAbsent, c-IsUnknown, c_object, has_c, with_c, with_c-IsAbsent,
  c-IsLocated,
}
use catfs.Meta.Impl.Sample.{
  state, late, has_b, with_b, b_found, b-found, file-IsCached, dir-IsCached, file_expired-IsCached,
}

find_dentry_cached_example :
    find_dentry backend clock junk 2 name_b false state ≡ ok 6 (ticked state)
find_dentry_cached_example =
    find_dentry_cached backend clock junk state 2 name_b false 4 6 dir_dentry file_dentry file_inode
      file-IsCached.is_parent file-IsCached.is_child file-IsCached.expiry

dir_is_dir : Dentry.is_dir 4 local.heap ≡ ok true local.heap
unfolding Dentry.is_dir read_dentry read_inode
dir_is_dir = refl

file_is_dir : Dentry.is_dir 6 local.heap ≡ ok false local.heap
unfolding Dentry.is_dir read_dentry read_inode
file_is_dir = refl

remove_dentry_not_empty_example :
    remove_dentry backend clock junk 1 name_a state ≡ throw enotempty (ticked state)
remove_dentry_not_empty_example =
    remove_dentry_not_empty backend clock junk state 1 name_a [] 2 4 root_dentry dir_dentry
      dir_inode dir-IsCached dir_is_dir (omega arith)

delete_blank :
    backend.delete_file (record { obj_key = key_prefix (name_a ∷ []) ++ name_b }) blank
    ≡ ok tt blank
unfolding delete_file erase
delete_blank = refl

remove_dentry_deletes_example :
    (s : MetaImpl Memory) × (remove_dentry backend clock junk 2 name_b state ≡ ok tt s)
    × (s.backend ≡ blank)
    × (Local.find_dentry 2 name_b s.local ≡ ok null s.local)
remove_dentry_deletes_example =
    remove_dentry_deletes backend clock junk state 2 name_b (name_a ∷ []) 4 6 dir_dentry file_dentry
      file_inode false blank file-IsCached file_is_dir (λ e. refl) delete_blank (omega arith)
      file_indexed

find_dentry_refreshed_example :
    (s : MetaImpl Memory) × (find_dentry backend late junk 2 name_b false with_b ≡ ok 6 s)
    × (s.backend ≡ has_b)
    × (s.local.heap.inodes 5 ≡ some (record file_inode { size = 2; mode = 0o644 }))
unfolding key_prefix
find_dentry_refreshed_example =
    find_dentry_refreshed backend late junk with_b 2 name_b (name_a ∷ []) 4 6 dir_dentry file_dentry
      file_inode false b_found has_b file_expired-IsCached file_is_dir file_indexed (omega arith)
      b-found refl refl

-- A listing with the directory "a" and the object "b" in the directory "a".
abbrev dirs : List Text
dirs = name_a ∷ []

abbrev files : List (Text × ObjInfo)
files = (name_b, junk) ∷ []

one_dir : DirNames (bytes "a/") dirs
unfolding DirNames
one_dir = (λ e. cc, omega arith, tt)

one_file : FileNames (bytes "a/") files
unfolding FileNames
one_file = (omega arith, tt)

build_ftree-names_example :
    (children : FTreeNodes) × (build_ftree_from_listobjects
        (bytes "a/")
        (record {
          is_trunc = false;
          next_marker = [];
          objs = map (file_obj (bytes "a/")) files;
          common_prefixes = map (dir_key (bytes "a/")) dirs;
        })
        state
      ≡ ok children state)
    × ((name : Text)
        → find_node name children
          ≡ expected (bytes "a/") name (last_of name files) (has_name name dirs))
build_ftree-names_example =
    build_ftree-names state (bytes "a/") dirs files false [] one_dir one_file

abbrev nested : ListObjectsResult
nested = record {
  is_truncated = false;
  next_marker = [];
  common_prefixes = bytes "a/c/" ∷ [];
  contents = [];
}

-- A client with a directory in the directory "a".
abbrev nesting : S3Client
nesting = record memory { list_objects = λ req s. (success nested, s) }

is_remote_dir_exist_nested_example :
    is_remote_dir_exist (s3_stor nesting bucket_opt junk) clock junk (bytes "a/") state
    ≡ ok false state
is_remote_dir_exist_nested_example =
    is_remote_dir_exist_nested nesting bucket_opt junk clock state blank (bytes "a/") nested refl
      refl

create_dentry_new_example :
    (s : MetaImpl Memory) × (q : Ptr) × (qd : Heap.Dentry) × (create_dentry backend clock junk 2
        name_c 0o40755 state
      ≡ ok q s)
    × (q ≢ null)
    × (s.backend ≡ with_dir)
    × (Local.find_dentry 2 name_c s.local ≡ ok q s.local)
    × (s.local.heap.dentries q ≡ some qd)
    × (s.local.heap.inodes qd.inode ≡ some (next_inode clock 0o40755 0 0 local))
    × (Local.get_inode 4 s.local ≡ ok qd.inode s.local)
    × (qd.inode ≢ null)
create_dentry_new_example =
    create_dentry_new backend clock junk state 2 name_c 0o40755 (name_a ∷ []) 4 dir_dentry dir_inode
      true blank with_dir c-IsAbsent c-IsUnknown refl refl (omega arith) (omega arith) c-put

find_dentry_located_example :
    (s : MetaImpl Memory) × (q : Ptr) × (qd : Heap.Dentry) × (i : Inode) × (find_dentry backend
        clock junk 2 name_c false with_c
      ≡ ok q s)
    × (q ≢ null)
    × (s.backend ≡ has_c)
    × (Local.find_dentry 2 name_c s.local ≡ ok q s.local)
    × (s.local.heap.dentries q ≡ some qd)
    × (s.local.heap.inodes qd.inode ≡ some i)
    × IsFrom local c_object true i
find_dentry_located_example =
    find_dentry_located backend clock junk with_c 2 name_c (name_a ∷ []) 4 dir_dentry true c_object
      has_c with_c-IsAbsent c-IsLocated (omega arith) (omega arith)
