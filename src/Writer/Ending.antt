-- ===== src/Writer/Ending.antt =====
-- src/fs/fwriter/fwriter_seq.cpp: the loops of a writer end, on any writer that openfile made and
-- calls of write and release led to.
pub mod Kept
mod Fresh
mod Loops
mod Finish
use catfs.Common.{ℕ, List, ◌^◌, ◌≤◌, Ends-fuel, Keeps}
use catfs.Stor.{Stor}
use catfs.Stor.Ending.{IsEnding, IsParted}
use catfs.Writer.{write, release}
use Kept.{Made, write-Made, release-Made}
use Loops.{write-Stops}
use Finish.{release-Stops}

module _ {F G : Type 0} (stor : Stor) ⦃ending : IsEnding F stor⦄ where
  pub release-Ends : Keeps F (Made G) (release stor)
  release-Ends s made = Ends-fuel (release-Made stor s made) (release-Stops stor s)

  module _ (malloc : ℕ → List ℕ) ⦃parted : IsParted G stor⦄ (grant : G → F) where
    -- A write of less than 2 GiB ends.
    pub write-Ends :
        (off size : ℕ) (bytes : List ℕ)
        → (2 ^ 31 ≤ size → F)
        → Keeps F (Made G) (write stor malloc off size bytes)
    write-Ends off size bytes large s made =
        Ends-fuel (write-Made stor malloc off size bytes s made)
          (write-Stops stor malloc grant off size bytes s large made)
