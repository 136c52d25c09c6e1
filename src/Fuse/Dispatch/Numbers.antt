-- ===== src/Fuse/Dispatch/Numbers.antt =====
-- src/fs/fsa.cpp: whose attributes getattr answers with.
use catfs.Common.{ℕ, ◌≡◌, ◌⊎◌, none, some, List, [], ◌∷◌, Run, ok, fault}
use catfs.Stor.{Stor}
use catfs.Meta.Heap.{Ptr, null, Dentry, Inode}
use catfs.Meta.Local
use catfs.Meta.Local.{LocalMemMeta}
use catfs.Meta.Local.Index.{indexed}
use catfs.Meta.Impl
use catfs.Fs
use catfs.Fs.{CatFs}
use catfs.Fuse.{Reply, err, attr, enoent_no}
use catfs.Fuse.Dispatch.Reach.{Reach}

-- The tree has no inode for this number.
abbrev IsMissing : LocalMemMeta → ℕ → Type 0
IsMissing s ino =
    (indexed s ino ≡ none)
    ⊎ ((p : Ptr) × (indexed s ino ≡ some p)
        × ((p ≡ null) ⊎ ((d : Dentry) × (s.heap.dentries p ≡ some d) × (d.inode ≡ null))))

-- What the index has for this number was freed.
abbrev IsFreed : LocalMemMeta → ℕ → Type 0
IsFreed s ino =
    (p : Ptr) × (indexed s ino ≡ some p)
    × ((s.heap.dentries p ≡ none)
        ⊎ ((d : Dentry) × (s.heap.dentries p ≡ some d) × (s.heap.inodes d.inode ≡ none)))

-- How getattr answers for a number.
pub data Answers {W : Type 0} (s : CatFs W) (ino : ℕ) (run : Run (CatFs W) (List Reply))
    : Type 0 where
  attributes :
      (p : Ptr) (d : Dentry) (i : Inode)
      → indexed s.meta.local ino ≡ some p
      → s.meta.local.heap.dentries p ≡ some d
      → s.meta.local.heap.inodes d.inode ≡ some i
      → run
        ≡ ok
            (attr (record {
              st_ino = ino;
              st_mode = i.mode;
              st_gid = i.gid;
              st_uid = i.uid;
              st_size = i.size;
              st_ctim = i.ctime;
              st_mtim = i.mtime;
            })
              ∷ [])
            s
      → Answers s ino run
  missing :
      (u : CatFs W)
      → IsMissing s.meta.local ino
      → run ≡ ok (err enoent_no ∷ []) u
      → Answers s ino run
  freed : IsFreed s.meta.local ino → run ≡ fault → Answers s ino run
