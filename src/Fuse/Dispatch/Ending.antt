-- ===== src/Fuse/Dispatch/Ending.antt =====
-- src/fs/fsa.h: the loops that a request goes through end, over a backend whose calls end.
use catfs.Common.{ℕ, List, [], Text, Ends, Ends-map, Ends_value, lookup, number_key}
use catfs.Stor.{Stor, Timespec, ObjInfo}
use catfs.Stor.Ending.{IsEnding, IsParted, Listed, any-IsEnding, any-Pages}
use catfs.Fs.{CatFs, new_catfs}
use catfs.Fs.Kept.{Mounted, Ready}
use catfs.Meta.Local.{MetaOpt}
use catfs.Fuse.Dispatch.{Request, answer}
use catfs.Fuse.Dispatch.Replies.{Replied, Fits, any-Fits, answer-Ready}
use catfs.Fuse.Dispatch.Reach.{Reach, mounted, served, changed, Reach-Mounted}

module _ (stor : Stor) (malloc : ℕ → List ℕ) (clock : ℕ → Timespec) (junk : ObjInfo)
    (entry_size plus_size : Text → ℕ) (fuel : ℕ) (opt : MetaOpt) (parted : IsParted ⊥ stor) where
  -- The parts of the open files' writers have the size that they were made with.
  Reach-Ready :
      (s : CatFs stor.State)
      → Reach stor malloc clock junk entry_size plus_size fuel opt s
      → Ready ⊥ s
  unfolding new_catfs lookup
  Reach-Ready _ (mounted local backend e) = (
    Reach-Mounted stor malloc clock junk entry_size plus_size fuel opt _ (mounted local backend e),
    λ hno f e. cc,
  )
  Reach-Ready _ (served {s = s} r reach e) =
      (Ends_value {F = Unit {0}}
        (answer-Ready stor malloc clock junk entry_size plus_size fuel ⦃ending = any-IsEnding stor⦄
          ⦃parted = parted⦄ (λ _. tt) r s (Reach-Ready s reach) (any-Fits r)
          (λ prefix. any-Pages stor fuel prefix [] s.meta.backend))
        e).1
  Reach-Ready _ (changed {s = s} backend reach) = Reach-Ready s reach

  -- Over a backend whose calls end and whose uploads have parts of at least one byte, in each
  -- state that requests lead to from which a listing of the backend has at most `fuel` pages: each
  -- request whose writes are of less than 2 GiB ends, in the sense that no loop of its handler runs out of
  -- its fuel, with the replies that the kernel waits for or by a throw, on a sound tree, unless the
  -- behaviour is undefined.
  pub answer-Ends :
      (ending : IsEnding ⊥ stor) (r : Request) (s : CatFs stor.State)
      → Reach stor malloc clock junk entry_size plus_size fuel opt s
      → Fits ⊥ r
      → Listed ⊥ stor fuel s.meta.backend
      → Ends ⊥
          (Replied stor malloc clock junk entry_size plus_size fuel r)
          Mounted
          (answer stor malloc clock junk entry_size plus_size fuel r s)
  answer-Ends ending r s reach fits pages =
      Ends-map
        (answer-Ready stor malloc clock junk entry_size plus_size fuel ⦃ending = ending⦄
          ⦃parted = parted⦄ (λ x. x) r s (Reach-Ready s reach) fits pages)
        (λ rs s (sent, ready). (sent, ready.0)) (λ s ready. ready.0)
