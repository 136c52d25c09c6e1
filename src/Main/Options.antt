-- ===== src/Main/Options.antt =====
-- src/main.cpp: the options that set_cmdline declares, with their defaults.
use Prim.Native.Nat.{ℕ}
use native.Mathlib.Decide.{ℕ_discrete}
use catfs.Common.{
  ◌≡◌, refl, ◌*◌, Bool, true, false, none, some, List, [], ◌∷◌, Text, bytes, text_discrete, lookup,
  text_key,
}
use catfs.Main.{Parser}

pub data Default : Type 0 where
  text : Text → Default
  number : ℕ → Default
  flag : Default

-- An option: its short name, 0 if it has none, whether it must be given, and its default.
pub record Spec : Type 0 where
  pub short : Text
  pub need : Bool
  pub def : Default

abbrev spec : Text → Bool → Default → Spec
spec short need def = record { short = short; need = need; def = def }

unfoldable pub set_cmdline : List (Text × Spec)
set_cmdline =
    (bytes "bucket", spec (bytes "b") true (text []))
    ∷ (bytes "mount", spec (bytes "m") true (text []))
    ∷ (bytes "bucket_prefix", spec [] false (text []))
    ∷ (bytes "public_key", spec [] false (text []))
    ∷ (bytes "private_key", spec [] false (text []))
    ∷ (bytes "endpoint", spec [] false (text []))
    ∷ (bytes "stor_backend", spec [] false (text (bytes "s3")))
    ∷ (bytes "passwd", spec [] false (text (bytes "/etc/catfs/catfs.yaml")))
    ∷ (bytes "gid", spec [] false (number 0))
    ∷ (bytes "uid", spec [] false (number 0))
    ∷ (bytes "dcache_timeout", spec [] false (number (60 * 5)))
    ∷ (bytes "retry", spec [] false (number 3))
    ∷ (bytes "parallel", spec [] false (number 32))
    ∷ (bytes "level", spec [] false (text (bytes "info")))
    ∷ (bytes "log_dir", spec [] false (text []))
    ∷ (bytes "foreground", spec (bytes "f") false flag)
    ∷ (bytes "singlethread", spec [] false flag)
    ∷ (bytes "max_idle_threads", spec [] false (number 4))
    ∷ []

-- What the parser reads where an option is not given: `given` are the values on the command line.
pub record IsParsed (given : List (Text × Default)) (parm : Parser) : Type 0 where
  pub given_text :
      (name value : Text) → lookup name given ≡ some (text value) → parm.get_text name ≡ value
  pub default_text :
      (name value : Text) (o : Spec)
      → lookup name given ≡ none
      → lookup name set_cmdline ≡ some o
      → o.def ≡ text value
      → parm.get_text name ≡ value

module _ (given : List (Text × Default)) (parm : Parser) (parsed : IsParsed given parm) where
  pub default_backend :
      lookup (bytes "stor_backend") given ≡ none → parm.get_text (bytes "stor_backend") ≡ bytes "s3"
  unfolding lookup set_cmdline text_discrete ℕ_discrete
  default_backend h = parsed.default_text (bytes "stor_backend") _ _ h refl refl
