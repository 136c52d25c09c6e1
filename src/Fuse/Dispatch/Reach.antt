-- ===== src/Fuse/Dispatch/Reach.antt =====
-- src/fs/fsa.h: the states that requests lead to, from the file system that main.cpp makes.
use catfs.Common.{ℕ, ◌≡◌, List, Text, ok, Ends_value}
use catfs.Stor.{Stor, Timespec, ObjInfo}
use catfs.Meta.Local.{MetaOpt, LocalMemMeta}
use catfs.Meta.Local.Merge.{new_local}
use catfs.Meta.Local.Merge.Kept.{new_local-Sound}
use catfs.Meta.Impl.{new_meta}
use catfs.Fs.{CatFs, new_catfs}
use catfs.Fs.Kept.{Mounted}
use catfs.Fuse.{Reply}
use catfs.Fuse.Dispatch.{Request, answer}
use catfs.Fuse.Dispatch.Replies.{answer-Replied}

module _ (stor : Stor) (malloc : ℕ → List ℕ) (clock : ℕ → Timespec) (junk : ObjInfo)
    (entry_size plus_size : Text → ℕ) (fuel : ℕ) (opt : MetaOpt) where
  -- Between two requests that the process survives, anyone may change the backend.
  pub data Reach : CatFs stor.State → Type 0 where
    mounted :
        (local : LocalMemMeta) (backend : stor.State)
        → new_local clock opt ≡ ok tt local
        → Reach (new_catfs (new_meta opt local backend))
    served :
        {s u : CatFs stor.State} {replies : List Reply} (r : Request)
        → Reach s
        → answer stor malloc clock junk entry_size plus_size fuel r s ≡ ok replies u
        → Reach u
    changed :
        {s : CatFs stor.State} (backend : stor.State)
        → Reach s
        → Reach (record s { meta = record s.meta { backend = backend } })

  -- In every state that requests lead to from the file system that main makes, whatever the backend
  -- answers and however it is changed in between, the tree is sound (IsSound): each live entry of a
  -- live directory has the name that it is found by and the directory as its parent, what the index
  -- has for an inode number is, while it is live, the dentry of an inode of this number, no chain of
  -- parents has a cycle, and no address is held that was not given out.
  pub Reach-Mounted : (s : CatFs stor.State) → Reach s → Mounted s
  unfolding new_catfs new_meta
  Reach-Mounted _ (mounted local backend e) =
      Ends_value {F = Unit {0}} (new_local-Sound clock opt) e
  Reach-Mounted _ (served {s = s} r reach e) =
      (Ends_value {F = Unit {0}}
        (answer-Replied stor malloc clock junk entry_size plus_size fuel r s
          (Reach-Mounted s reach))
        e).1
  Reach-Mounted _ (changed {s = s} backend reach) = Reach-Mounted s reach
