-- ===== src/Common/Maps.antt =====
-- std::string as a list of bytes, and std::map and std::unordered_map as association lists.
use Prim.Native.Nat.{ℕ}
use Prim.Native.Char.{code}
use Prim.Native.String.{String}
use mathlib.Core.Path.{◌≡◌, refl, ap₂}
use mathlib.Core.Logic.{ite, dite, ◌⊎◌, inl, inr}
use mathlib.Core.List.{List, [], ◌∷◌, nil≢cons, cons≢nil, head-eq_of_cons-eq, tail-eq_of_cons-eq}
use mathlib.Core.Option.{Option, none, some}
use native.Mathlib.Omega.{arith}
use native.Mathlib.Decide.{ℕ_discrete}

abbrev pub Text : Type 0
Text = List ℕ

-- The bytes of an ASCII literal.
abbrev pub bytes : String → Text
bytes String.[] = []
bytes (String.◌∷◌ c s) = code c ∷ bytes s

unfoldable pub text_discrete : Discrete Text
text_discrete [] [] = yes refl
text_discrete [] (y ∷ ys) = no nil≢cons
text_discrete (x ∷ xs) [] = no cons≢nil
text_discrete (x ∷ xs) (y ∷ ys) =
    dite (ℕ_discrete x y)
      (λ p.
        dite (text_discrete xs ys) (λ q. yes (ap₂ ◌∷◌ p q))
          (λ n. no (λ e. n (tail-eq_of_cons-eq e))))
      (λ n. no (λ e. n (head-eq_of_cons-eq e)))

pub record Key (K : Type 0) : Type 0 where
  pub dec : Discrete K

instance abbrev pub number_key : Key ℕ
number_key = record { dec = ℕ_discrete }

instance abbrev pub text_key : Key Text
text_key = record { dec = text_discrete }

pub Option-cases : {A : Type 0} (o : Option A) → (o ≡ none) ⊎ ((a : A) × (o ≡ some a))
Option-cases none = inl refl
Option-cases (some a) = inr (a, refl)

module _ {K V : Type 0} ⦃k : Key K⦄ where
  unfoldable pub lookup : K → List (K × V) → Option V
  lookup j [] = none
  lookup j ((i, v) ∷ m) = ite (k.dec i j) (some v) (lookup j m)

  -- m[j] = v
  unfoldable pub insert : K → V → List (K × V) → List (K × V)
  insert j v [] = (j, v) ∷ []
  insert j v ((i, w) ∷ m) = ite (k.dec i j) ((i, v) ∷ m) ((i, w) ∷ insert j v m)

  unfoldable pub erase : K → List (K × V) → List (K × V)
  erase j [] = []
  erase j ((i, w) ∷ m) = let rest = erase j m in ite (k.dec i j) rest ((i, w) ∷ rest)

  pub lookup-insert :
      (i j : K) (v : V) (m : List (K × V))
      → lookup i (insert j v m) ≡ ite (k.dec j i) (some v) (lookup i m)
  unfolding lookup insert
  lookup-insert i j v [] = refl
  lookup-insert i j v (_ ∷ m) = ground (arith, lookup-insert i j v m)

  pub lookup-erase :
      (i j : K) (m : List (K × V)) → lookup i (erase j m) ≡ ite (k.dec j i) none (lookup i m)
  unfolding lookup erase
  lookup-erase i j [] = ground arith
  lookup-erase i j (_ ∷ m) = ground (arith, lookup-erase i j m)

  -- Each key stands once.
  abbrev pub Once : List (K × V) → Type 0
  Once [] = Unit {0}
  Once ((j, _) ∷ m) = (lookup j m ≡ none) × Once m

  pub insert-Once : (j : K) (v : V) (m : List (K × V)) → Once m → Once (insert j v m)
  unfolding insert lookup
  insert-Once j v [] h = (refl, tt)
  insert-Once j v ((i, w) ∷ m) (absent, h) =
      ground (arith, lookup-insert i j v m, insert-Once j v m h)

  pub erase-Once : (j : K) (m : List (K × V)) → Once m → Once (erase j m)
  unfolding erase
  erase-Once j [] h = h
  erase-Once j ((i, w) ∷ m) (absent, h) = ground (arith, lookup-erase i j m, erase-Once j m h)

text_lookup : lookup {V = ℕ} (bytes "b") (insert (bytes "a") 1 (insert (bytes "b") 2 [])) ≡ some 2
unfolding lookup insert text_discrete ℕ_discrete
text_lookup = refl
