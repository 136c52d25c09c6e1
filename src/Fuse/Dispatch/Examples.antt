-- ===== src/Fuse/Dispatch/Examples.antt =====
-- The theorems about all requests, on the file system as it is mounted, over a backend in memory.
use native.Mathlib.Decide.{ℕ_discrete}
use catfs.Common
use catfs.Common.{ℕ, ◌+◌, some, ◌≡◌, refl, List, [], ◌∷◌, Text, length, ok, bytes, Ends, Finishes}
use catfs.Stor.S3.{list_objects}
use catfs.Stor.S3.Memory.{Memory, blank, memory}
use catfs.Stor.S3.Ending.{s3_stor-IsEnding, s3_stor-IsParted}
use catfs.Stor.Ending.{Listed}
use catfs.Writer.Sample
use catfs.Writer.Sample.{backend, zeroed, junk}
use catfs.Meta.Heap.{read_dentry, read_inode}
use catfs.Meta.Sample.{opt, clock}
use catfs.Meta.Local
use catfs.Meta.Local.Merge.Sample.{first, first_inode, new_local-first}
use catfs.Meta.Impl
use catfs.Meta.Impl.{new_meta}
use catfs.Fs
use catfs.Fs.{CatFs, new_catfs}
use catfs.Fs.Kept.{Mounted}
use catfs.Fuse
use catfs.Fuse.{attr, opened, try_catch, catch_run, fill_inode_attr, Stat}
use catfs.Fuse.Dispatch.{getattr, mkdir, opendir, readdirplus, answer}
use catfs.Fuse.Dispatch.Replies.{Replied, answer-Replied}
use catfs.Fuse.Dispatch.Reach.{Reach, mounted, served, Reach-Mounted}
use catfs.Meta.Dentry.{get_full_path}
use catfs.Fuse.Dispatch.Ending.{answer-Ends}
use catfs.Fuse.Dispatch.Paths.{get_full_path_ends}

abbrev entry_size : Text → ℕ
entry_size name = length name + 24

abbrev plus_size : Text → ℕ
plus_size name = length name + 152

abbrev start : CatFs Memory
start = new_catfs (new_meta opt first blank)

start-Reach : Reach backend zeroed clock junk entry_size plus_size 5 opt start
start-Reach = mounted first blank new_local-first

getattr_root :
    answer backend zeroed clock junk entry_size plus_size 5 (getattr 1) start
    ≡ ok (attr (fill_inode_attr first_inode) ∷ []) start
unfolding answer Fuse.getattr try_catch catch_run Fs.lookup_inode Impl.get_inode Local.get_inode
    Common.lookup Common.insert ℕ_discrete new_catfs new_meta read_dentry read_inode
getattr_root = refl

later : Reach backend zeroed clock junk entry_size plus_size 5 opt start
later = served (getattr 1) start-Reach getattr_root

Reach-Mounted_example : Mounted start
Reach-Mounted_example =
    Reach-Mounted backend zeroed clock junk entry_size plus_size 5 opt start later

answer-Replied_example :
    Ends
      (Unit {0})
      (Replied backend zeroed clock junk entry_size plus_size 5 (mkdir 1 (bytes "a") 0o755))
      Mounted
      (answer backend zeroed clock junk entry_size plus_size 5 (mkdir 1 (bytes "a") 0o755) start)
answer-Replied_example =
    answer-Replied backend zeroed clock junk entry_size plus_size 5 (mkdir 1 (bytes "a") 0o755)
      start (Reach-Mounted backend zeroed clock junk entry_size plus_size 5 opt start later)

abbrev with_root : CatFs Memory
with_root = record start {
  next_handle_id = 1;
  open_dirs = (0, some (record { ino = 1; hno = 0; dentries = [] })) ∷ [];
}

opendir_root :
    answer backend zeroed clock junk entry_size plus_size 5 (opendir 1) start
    ≡ ok (opened 0 ∷ []) with_root
unfolding answer Fuse.opendir try_catch catch_run Fs.opendir Fs.get_next_handle_id Impl.get_dentry
    Local.get_dentry Common.lookup Common.insert ℕ_discrete new_catfs new_meta read_dentry
    read_inode
opendir_root = refl

-- The client in memory lists no objects.
with_root-Listed : Listed ⊥ backend 5 with_root.meta.backend
unfolding list_objects new_catfs new_meta
with_root-Listed prefix resp t e more = cc

answer-Ends_example :
    Ends ⊥
      (Replied backend zeroed clock junk entry_size plus_size 5 (readdirplus 0 4096 0))
      Mounted
      (answer backend zeroed clock junk entry_size plus_size 5 (readdirplus 0 4096 0) with_root)
answer-Ends_example =
    answer-Ends backend zeroed clock junk entry_size plus_size 5 opt
      (s3_stor-IsParted memory Sample.opt junk) (s3_stor-IsEnding memory Sample.opt junk)
      (readdirplus 0 4096 0) with_root (served (opendir 1) start-Reach opendir_root) tt
      with_root-Listed

get_full_path_ends_example : Finishes (get_full_path 2 start.meta.local.heap)
get_full_path_ends_example =
    get_full_path_ends backend zeroed clock junk entry_size plus_size 5 opt start 2 later
