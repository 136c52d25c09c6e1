-- ===== src/Common/Finishing.antt =====
-- Runs that do not use up their fuel.
use mathlib.Core.Path.{◌≡◌, refl}
use mathlib.Core.Bool.{Bool, true, false}
use catfs.Common.Tests.{if◌then◌else◌}
use catfs.Common.Commands.{Exn, Run, ok, throw, fault, Cmd, and_then}

pub data Finishes {S A : Type 0} : Run S A → Type 0 where
  finishes_ok : {a : A} {s : S} → Finishes (ok a s)
  finishes_throw : {e : Exn} {s : S} → Finishes (throw e s)
  finishes_fault : Finishes fault

module _ {S A B : Type 0} where
  pub Finishes-then :
      {r : Run S A} {k : A → Cmd S B}
      → Finishes r
      → ((a : A) (s : S) → r ≡ ok a s → Finishes (k a s))
      → Finishes (and_then r k)
  Finishes-then finishes_ok h = h _ _ refl
  Finishes-then finishes_throw h = finishes_throw
  Finishes-then finishes_fault h = finishes_fault

module _ {S A : Type 0} where
  pub Finishes-if :
      (b : Bool) (m n : Cmd S A) (s : S)
      → Finishes (m s)
      → Finishes (n s)
      → Finishes ((if b then m else n) s)
  Finishes-if true m n s h k = h
  Finishes-if false m n s h k = k
