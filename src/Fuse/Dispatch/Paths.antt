-- ===== src/Fuse/Dispatch/Paths.antt =====
-- src/types/dentry.h: the paths of the tree, in the states that requests lead to.
use catfs.Common.{ℕ, List, Text, Finishes}
use catfs.Stor.{Stor, Timespec, ObjInfo}
use catfs.Meta.Heap.{Ptr}
use catfs.Meta.Dentry.{get_full_path}
use catfs.Meta.Local.{MetaOpt}
use catfs.Meta.Local.Invariant.Paths.{get_full_path-Finishes}
use catfs.Fs.{CatFs}
use catfs.Fuse.Dispatch.Reach.{Reach, Reach-Mounted}

module _ (stor : Stor) (malloc : ℕ → List ℕ) (clock : ℕ → Timespec) (junk : ObjInfo)
    (entry_size plus_size : Text → ℕ) (fuel : ℕ) (opt : MetaOpt) where
  -- In each state that requests lead to, the loop of get_full_path over the parents of any dentry
  -- ends.
  pub get_full_path_ends :
      (s : CatFs stor.State) (p : Ptr)
      → Reach stor malloc clock junk entry_size plus_size fuel opt s
      → Finishes (get_full_path p s.meta.local.heap)
  get_full_path_ends s p reach =
      get_full_path-Finishes s.meta.local.heap
        (Reach-Mounted stor malloc clock junk entry_size plus_size fuel opt s reach) p
