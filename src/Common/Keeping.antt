-- ===== src/Common/Keeping.antt =====
-- What holds of a run where it ends, and of commands that keep an invariant of the state, also
-- when they throw.
use mathlib.Core.Path.{◌≡◌, refl, sym, subst}
use mathlib.Core.Logic.{◌⊎◌, inr}
use mathlib.Core.Option.{Option, none, some}
use mathlib.Core.Bool.{Bool, true, false}
use catfs.Common.Tests.{if◌then◌else◌}
use catfs.Common.Commands.{Exn, Run, ok, throw, fault, out_of_fuel, Cmd, and_then, zoom_back}

-- A value with its state satisfies `P`, and the state that a `throw` leaves satisfies `Q`. After
-- undefined behaviour nothing is promised. `F` holds if the fuel runs out: `⊥` says that it does
-- not, and `Unit` leaves it open.
pub data Ends (F : Type 0) {S A : Type 0} (P : A → S → Type 0) (Q : S → Type 0)
    : Run S A → Type 0 where
  ends_ok : {a : A} {s : S} → P a s → Ends F P Q (ok a s)
  ends_throw : {e : Exn} {s : S} → Q s → Ends F P Q (throw e s)
  ends_fault : Ends F P Q fault
  ends_out_of_fuel : F → Ends F P Q out_of_fuel

abbrev pub Keeps : Type 0 → {S A : Type 0} → (S → Type 0) → Cmd S A → Type 0
Keeps F {S} I m = (s : S) → I s → Ends F (λ _. I) I (m s)

module _ {F : Type 0} {S A : Type 0} {P : A → S → Type 0} {Q : S → Type 0} where
  pub Ends-if :
      (b : Bool) (m n : Cmd S A) (s : S)
      → Ends F P Q (m s)
      → Ends F P Q (n s)
      → Ends F P Q ((if b then m else n) s)
  Ends-if true m n s p q = p
  Ends-if false m n s p q = q

  pub Ends-test :
      (b : Bool) (m n : Run S A) → Ends F P Q m → Ends F P Q n → Ends F P Q (if b then m else n)
  Ends-test true m n p q = p
  Ends-test false m n p q = q

  pub Ends-option :
      {X : Type 0} (o : Option X) (n : Run S A) (k : X → Run S A)
      → Ends F P Q n
      → ((x : X) → Ends F P Q (k x))
      → Ends F P Q (elim o [ none ↦ n | some x ↦ k x ])
  Ends-option none n k p q = p
  Ends-option (some x) n k p q = q x

  pub Ends-option_at :
      {X : Type 0} (o : Option X) (n : Cmd S A) (k : X → Cmd S A) (s : S)
      → Ends F P Q (n s)
      → ((x : X) → Ends F P Q (k x s))
      → Ends F P Q ((elim o as (λ _. Cmd S A) [ none ↦ n | some x ↦ k x ]) s)
  Ends-option_at none n k s p q = p
  Ends-option_at (some x) n k s p q = q x

  -- A run that is known.
  pub Ends-as : {r r' : Run S A} → r ≡ r' → Ends F P Q r' → Ends F P Q r
  Ends-as e h = subst (Ends F P Q) (sym e) h

  pub Ends-map :
      {P' : A → S → Type 0} {Q' : S → Type 0} {r : Run S A}
      → Ends F P' Q' r
      → ((a : A) (s : S) → P' a s → P a s)
      → ((s : S) → Q' s → Q s)
      → Ends F P Q r
  Ends-map (ends_ok p) f g = ends_ok (f _ _ p)
  Ends-map (ends_throw q) f g = ends_throw (g _ q)
  Ends-map ends_fault f g = ends_fault
  Ends-map (ends_out_of_fuel x) f g = ends_out_of_fuel x

module _ {F : Type 0} {S A : Type 0} {P : A → S → Type 0} {Q : S → Type 0} where
  -- What a run gives that ends with a value.
  pub Ends_value : {r : Run S A} {a : A} {s : S} → Ends F P Q r → r ≡ ok a s → P a s
  Ends_value {a = a} {s = s} h e = at_ok (subst (Ends F P Q) e h)
    where
      at_ok : Ends F P Q (ok a s) → P a s
      at_ok (ends_ok p) = p

-- A run that does not use up its fuel, unless `F` holds.
abbrev pub Stops : Type 0 → {S A : Type 0} → Run S A → Type 0
Stops F r = Ends F (λ _ _. Unit {0}) (λ _. Unit {0}) r

-- If `F` holds, nothing is to be shown.
pub granted :
    {F S A : Type 0} {X : A → S → Type 0} (r : Run S A)
    → F
    → Ends F (λ a s. X a s ⊎ F) (λ _. Unit {0}) r
granted (ok a s) x = ends_ok (inr x)
granted (throw e s) x = ends_throw tt
granted fault x = ends_fault
granted out_of_fuel x = ends_out_of_fuel x

pub granted-Stops : {F S A : Type 0} (r : Run S A) → F → Stops F r
granted-Stops (ok a s) x = ends_ok tt
granted-Stops (throw e s) x = ends_throw tt
granted-Stops fault x = ends_fault
granted-Stops out_of_fuel x = ends_out_of_fuel x

run_out : {F S A : Type 0} {P : A → S → Type 0} {Q : S → Type 0} → Ends F P Q out_of_fuel → F
run_out (ends_out_of_fuel x) = x

-- What holds of a run, with what is known of the end of its fuel.
pub Ends-fuel :
    {F G S A : Type 0} {P P' : A → S → Type 0} {Q Q' : S → Type 0} {r : Run S A}
    → Ends G P Q r
    → Ends F P' Q' r
    → Ends F P Q r
Ends-fuel (ends_ok p) h = ends_ok p
Ends-fuel (ends_throw q) h = ends_throw q
Ends-fuel ends_fault h = ends_fault
Ends-fuel (ends_out_of_fuel x) h = ends_out_of_fuel (run_out h)

module _ {F : Type 0} {S A B : Type 0} {P : B → S → Type 0} {Q : S → Type 0} where
  pub Ends-then :
      {P' : A → S → Type 0} {r : Run S A} {k : A → Cmd S B}
      → Ends F P' Q r
      → ((a : A) (s : S) → P' a s → Ends F P Q (k a s))
      → Ends F P Q (and_then r k)
  Ends-then (ends_ok p) h = h _ _ p
  Ends-then (ends_throw q) h = ends_throw q
  Ends-then ends_fault h = ends_fault
  Ends-then (ends_out_of_fuel x) h = ends_out_of_fuel x

module _ {F : Type 0} {S T A : Type 0} (part : S → T) (put : T → S → S) {P : A → S → Type 0}
    {Q : S → Type 0} (s : S) where
  pub Ends-back :
      {r : Run T A}
      → Ends F (λ a t. P a (put t s)) (λ t. Q (put t s)) r
      → Ends F P Q (zoom_back part put s r)
  Ends-back (ends_ok p) = ends_ok p
  Ends-back (ends_throw q) = ends_throw q
  Ends-back ends_fault = ends_fault
  Ends-back (ends_out_of_fuel x) = ends_out_of_fuel x

  pub any_end :
      (r : Run T A)
      → (r ≡ out_of_fuel → F)
      → ((a : A) (t : T) → r ≡ ok a t → P a (put t s))
      → ((t : T) → Q (put t s))
      → Ends F P Q (zoom_back part put s r)
  any_end (ok a t) f p q = ends_ok (p a t refl)
  any_end (throw e t) f p q = ends_throw (q t)
  any_end fault f p q = ends_fault
  any_end out_of_fuel f p q = ends_out_of_fuel (f refl)
