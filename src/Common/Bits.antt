-- ===== src/Common/Bits.antt =====
-- Bits of a file's mode: bounds of `bit_and`, and tables of its values.
use Prim.Native.Nat.{
  ℕ, zero, suc, ◌*◌, ◌/◌, ◌%◌, ◌≤◌, ◌<◌, min, max, digits, bit_and, bit_or, bit_and-bitwise,
  bit_or-bitwise,
}
use mathlib.Core.Path.{◌≡◌, ap, subst}
use mathlib.Core.Bool.{Bool, true, ◌&&◌}
use mathlib.Core.Logic.{◌≢◌}
use native.Mathlib.Omega.{arith}

abbrev digits_and : ℕ → ℕ → ℕ → ℕ
digits_and n a b = digits (λ b. zero) min n a b

digits_and_le : (n a b : ℕ) → digits_and n a b ≤ b
digits_and_le zero a b = omega arith
digits_and_le (suc n) zero b = omega arith
digits_and_le (suc n) (suc a) b = omega (arith, digits_and_le n (suc a / 2) (b / 2))

pub bit_and_le : (a b : ℕ) → bit_and a b ≤ b
bit_and_le a b = omega (arith, bit_and-bitwise a b, digits_and_le a a b)

-- The test `p` on every number below n.
unfoldable pub every_below : ℕ → (ℕ → Bool) → Bool
every_below zero p = true
every_below (suc n) p = p n && every_below n p

pub every_below-at : (n : ℕ) (p : ℕ → Bool) (x : ℕ) → every_below n p ≡ true → x < n → p x ≡ true
unfolding every_below
every_below-at zero p x h lt = absurd (omega arith)
every_below-at (suc n) p x h lt = ground (arith, every_below-at n p x)

-- The number that has the one digit `k`, and that a number has it.
abbrev pub digit : ℕ → ℕ
digit zero = 1
digit (suc k) = digit k * 2

abbrev Has : ℕ → ℕ → Type 0
Has zero x = x % 2 ≡ 1
Has (suc k) x = Has k (x / 2)

digit-Has : (k : ℕ) → Has k (digit k)
digit-Has zero = omega arith
digit-Has (suc k) = subst (Has k) (omega arith) (digit-Has k)

zero_lacks : (k : ℕ) → Has k 0 → ⊥
zero_lacks zero h = absurd (omega (arith, h))
zero_lacks (suc k) h = zero_lacks k h

digits_or-Has : (k n a : ℕ) → Has k (digits (λ b. b) max n a (digit k))
digits_or-Has k zero a = digit-Has k
digits_or-Has k (suc n) zero = digit-Has k
digits_or-Has zero (suc n) (suc a) = omega arith
digits_or-Has (suc k) (suc n) (suc a) =
    let half : digit k * 2 / 2 ≡ digit k = omega arith in
    subst (Has k) (rw half (omega arith)) (digits_or-Has k n (suc a / 2))

digits_and-Has : (k n a : ℕ) → a ≤ n → Has k a → digits (λ b. zero) min n a (digit k) ≢ 0
digits_and-Has k zero zero le h = absurd (zero_lacks k h)
digits_and-Has k zero (suc a) le h = absurd (omega arith)
digits_and-Has k (suc n) zero le h = absurd (zero_lacks k h)
digits_and-Has zero (suc n) (suc a) le h = λ e. absurd (omega (arith, e, h))
digits_and-Has (suc k) (suc n) (suc a) le h =
    let half : digit k * 2 / 2 ≡ digit k = omega arith in
    let rest = digits_and-Has k n (suc a / 2) (omega arith) h in
    let same = ap (λ b. digits (λ b. zero) min n (suc a / 2) b) half in
    λ e. rest (omega (arith, same, e))

-- A digit that was put in is found.
pub bit_or-Has : (k a : ℕ) → bit_and (bit_or a (digit k)) (digit k) ≢ 0
bit_or-Has k a e =
    let b = bit_or a (digit k) in
    let has : Has k b =
      subst (Has k) (omega (arith, bit_or-bitwise a (digit k))) (digits_or-Has k a a) in
    digits_and-Has k b b (omega arith) has (omega (arith, bit_and-bitwise b (digit k), e))
