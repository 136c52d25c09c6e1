-- ===== src/Fuse/Examples.antt =====
-- The theorems about the handlers, on the small tree and a backend in memory.
use native.Mathlib.Decide.{ℕ_discrete}
use catfs.Common.{
  ℕ, ◌+◌, ◌≡◌, refl, true, none, some, List, [], ◌∷◌, ◌++◌, Text, arith, ok, throw, number, insert,
  number_key, length, bytes, text_discrete,
}
use catfs.Common
use catfs.Writer.Sample.{backend, zeroed, junk}
use catfs.Meta.Heap.{Dirent, Inode, read_dentry, read_inode}
use catfs.Meta.Dentry
use catfs.Meta.Sample.{clock, local, name_a, name_b, root_dentry, dir_dentry, dir_inode, file_inode}
use catfs.Meta.Impl.Lookup.{ticked}
use catfs.Meta.Impl.Sample.{state, dir-IsCached}
use catfs.Fs.{errno_enoent}
use catfs.Fs.Sample.{mounted, one_open}
use catfs.Stor.S3.Memory.{Memory, blank}
use Prim.Native.Nat.{bit_and}
use catfs.Meta.Local.Modes.{s_ifmt}
use catfs.Meta.Impl.Stranger.{
  name_c, with_dir, c-put, c-IsAbsent, c-IsUnknown, c_object, has_c, with_c, with_c-IsAbsent,
  c-IsLocated,
}
use catfs.Fs.{CatFs}
use catfs.Fuse.Names.{mkdir_new, lookup_located}
use catfs.Fuse.{
  Stat, entry, attr, mkdir, lookup, getattr, err, eio, enotempty_no, rmdir, unlink, read, write,
  release,
}
use catfs.Fuse.Errors.{unknown_handle_uncaught, not_empty_replies}
use catfs.Fuse.Readdir.{plus_loop, readdir_loop}
use catfs.Fuse.Readdir.Cookies.{
  Inodes, done, next, fitting, plain, full, left_over, undotted, plus_loop-fitting,
  readdir_loop-fitting,
}

no_handle : Common.lookup 7 one_open.open_files ≡ none
unfolding Common.lookup ℕ_discrete
no_handle = refl

unknown_handle_uncaught_example :
    (read backend zeroed clock junk 7 0 4 one_open
      ≡ throw
          (number errno_enoent)
          (record one_open { open_files = insert 7 none one_open.open_files }))
    × (write backend zeroed clock junk 7 0 (1 ∷ []) 4 one_open
        ≡ throw
            (number errno_enoent)
            (record one_open { open_files = insert 7 none one_open.open_files }))
    × (release backend zeroed clock junk 7 one_open
        ≡ throw
            (number errno_enoent)
            (record one_open { open_files = insert 7 none one_open.open_files }))
unknown_handle_uncaught_example =
    unknown_handle_uncaught backend zeroed clock junk one_open 7 0 4 (1 ∷ []) no_handle

dir_is_dir : Dentry.is_dir 4 local.heap ≡ ok true local.heap
unfolding Dentry.is_dir read_dentry read_inode
dir_is_dir = refl

not_empty_replies_example :
    (rmdir backend zeroed clock junk 1 name_a mounted
      ≡ ok (err enotempty_no ∷ []) (record mounted { meta = ticked state }))
    × (unlink backend zeroed clock junk 1 name_a mounted
        ≡ ok (err eio ∷ []) (record mounted { meta = ticked state }))
not_empty_replies_example =
    not_empty_replies backend zeroed clock junk mounted 1 name_a [] 2 4 root_dentry dir_dentry
      dir_inode dir-IsCached dir_is_dir (omega arith)

-- The entries of the directory "a", as load_sub_dentries lists them.
abbrev entries : List Dirent
entries =
    record { name = bytes "."; inode = 3 }
    ∷ record { name = bytes ".."; inode = 3 }
    ∷ record { name = name_b; inode = 5 }
    ∷ []

abbrev inodes : List Inode
inodes = dir_inode ∷ dir_inode ∷ file_inode ∷ []

entries-Inodes : Inodes mounted entries inodes
entries-Inodes = next refl (next refl (next refl done))

-- An entry takes its name and 24 bytes, or 152 with the attributes.
abbrev entry_size : Text → ℕ
entry_size name = length name + 24

abbrev plus_size : Text → ℕ
plus_size name = length name + 152

plus_loop-fitting_example :
    plus_loop backend zeroed clock junk plus_size 0 0 400 [] entries mounted
    ≡ ok
        ([] ++ fitting full plus_size 1 400 entries inodes, left_over plus_size 400 entries)
        mounted
plus_loop-fitting_example =
    plus_loop-fitting backend zeroed clock junk plus_size 0 0 400 [] entries inodes mounted
      entries-Inodes

entries-undotted : undotted entries ≡ record { name = name_b; inode = 5 } ∷ []
unfolding undotted text_discrete ℕ_discrete
entries-undotted = refl

undotted-Inodes : Inodes mounted (undotted entries) (file_inode ∷ [])
undotted-Inodes = rw entries-undotted (next refl done)

readdir_loop-fitting_example :
    readdir_loop backend zeroed clock junk entry_size 0 0 60 [] entries mounted
    ≡ ok
        (
          [] ++ fitting plain entry_size 1 60 (undotted entries) (file_inode ∷ []),
          left_over entry_size 60 (undotted entries),
        )
        mounted
readdir_loop-fitting_example =
    readdir_loop-fitting backend zeroed clock junk entry_size 0 0 60 [] entries (file_inode ∷ [])
      mounted undotted-Inodes

abbrev made : Stat
made = record {
  st_ino = 4;
  st_mode = 0o40755;
  st_gid = 0;
  st_uid = 0;
  st_size = 0;
  st_ctim = clock 0;
  st_mtim = clock 1;
}

mkdir_new_example :
    (s : CatFs Memory) × (mkdir backend zeroed clock junk 2 name_c 0o755 mounted
      ≡ ok (entry made ∷ []) s)
    × (s.meta.backend ≡ with_dir)
    × (getattr backend zeroed clock junk 4 s ≡ ok (attr made ∷ []) s)
mkdir_new_example =
    mkdir_new backend zeroed clock junk mounted 2 name_c 0o755 (name_a ∷ []) 4 dir_dentry dir_inode
      blank with_dir c-IsAbsent c-IsUnknown refl (omega arith) (omega arith) c-put

lookup_located_example :
    (s : CatFs Memory) × (st : Stat) × (lookup backend zeroed clock junk 2 name_c
        (record mounted { meta = with_c })
      ≡ ok (entry st ∷ []) s)
    × (s.meta.backend ≡ has_c)
    × (st.st_ino ≡ 4)
    × (st.st_size ≡ 3)
    × (bit_and st.st_mode s_ifmt ≡ 0o40000)
    × (bit_and st.st_mode 0o777 ≡ 0o766)
    × (st.st_uid ≡ 0)
    × (st.st_gid ≡ 0)
lookup_located_example =
    lookup_located backend zeroed clock junk (record mounted { meta = with_c }) 2 name_c
      (name_a ∷ []) 4 dir_dentry true c_object has_c with_c-IsAbsent c-IsLocated (omega arith)
      (omega arith)
