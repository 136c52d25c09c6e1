-- ===== src/Common/Commands.antt =====
-- types/errors.h, and commands that run on a state: a value, an exception, or undefined behaviour.
use Prim.Native.Nat.{ℕ}
use catfs.Common.Maps.{Text}

-- What the code throws. Those up to yaml_error derive from std::exception, with out_of_range that
-- std::string::substr throws and yaml_error of the library that reads the configuration; a thrown number, text literal
-- or std::string does not, so that no `catch (std::exception &)` sees it.
pub data Exn : Type 0 where
  invalid_inode_id : ℕ → Exn
  server_error : Text → Exn
  enotempty enoent enotdir : Exn
  out_of_range : Exn
  yaml_error : Exn
  number : ℕ → Exn
  literal : Text → Exn
  text : Text → Exn

-- `fault` is undefined behaviour: a write past an allocation, a use of a null or freed pointer or
-- of an invalidated iterator. `out_of_fuel` stands for a loop that the fuel did not finish.
pub data Run (S A : Type 0) : Type 0 where
  ok : A → S → Run S A
  throw : Exn → S → Run S A
  fault : Run S A
  out_of_fuel : Run S A

abbrev pub Cmd : Type 0 → Type 0 → Type 0
Cmd S A = S → Run S A

module _ {S A : Type 0} where
  abbrev pub pure : A → Cmd S A
  pure = ok

module _ {S : Type 0} where
  abbrev pub modify : (S → S) → Cmd S (Unit {0})
  modify f s = ok tt (f s)

  -- a value computed from the state
  abbrev pub reads : {A : Type 0} → (S → A) → Cmd S A
  reads f s = ok (f s) s

module _ {S A B : Type 0} where
  abbrev pub and_then : Run S A → (A → Cmd S B) → Run S B
  and_then (ok a s) k = k a s
  and_then (throw e s) k = throw e s
  and_then fault k = fault
  and_then out_of_fuel k = out_of_fuel

  infixl 5 ◌>>=◌ ◌>>◌
  abbrev pub ◌>>=◌ : Cmd S A → (A → Cmd S B) → Cmd S B
  m >>= k = λ s. and_then (m s) k

  abbrev pub ◌>>◌ : Cmd S A → Cmd S B → Cmd S B
  m >> n = m >>= λ _. n

-- A command on a part of the state.
module _ {S T A : Type 0} (part : S → T) (put : T → S → S) where
  abbrev pub zoom_back : S → Run T A → Run S A
  zoom_back s (ok a t) = ok a (put t s)
  zoom_back s (throw e t) = throw e (put t s)
  zoom_back s fault = fault
  zoom_back s out_of_fuel = out_of_fuel

  abbrev pub zoom : Cmd T A → Cmd S A
  zoom m s = zoom_back s (m (part s))
