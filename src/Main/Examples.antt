-- ===== src/Main/Examples.antt =====
-- The theorems about main, on a command line and configurations.
use native.Mathlib.Decide.{ℕ_discrete}
use catfs.Common.{
  ◌≡◌, ◌≢◌, refl, inr, none, some, arith, [], ok, throw, literal, Text, Option, bytes, false,
  lookup, text_key, text_discrete,
}
use catfs.Meta.Local.{LocalMemMeta}
use catfs.Meta.Local.Merge.{new_local}
use catfs.Meta.Impl.{new_meta}
use catfs.Fs.{new_catfs}
use catfs.Fuse.{is_std}
use catfs.Meta.Sample.{clock}
use catfs.Main.{Process, main}
use catfs.Main.Session.{IsIdle, served, replay}
use catfs.Main.Options.{set_cmdline}
use catfs.Main.Startup.{unknown_backend, IsConfigured, no_file, meta_opt, stor_opt, chosen, refusal}
use catfs.Main.Ending.{logged, main_unreadable, main_refused, main_started, main_defaults}
use catfs.Main.Sample.{given, parser, parser-IsParsed, content, process, outcomes}

-- The configuration with every key set to this text.
abbrev configuration : (value : Text) → Text → Option (Text → Option Text)
configuration value path = some (content value)

abbrev filled : (value : Text) → IsConfigured (configuration value) parser
filled value = record {
  content = content value;
  public_key = value;
  private_key = value;
  endpoint = value;
  loaded = refl;
  has_public = refl;
  has_private = refl;
  has_endpoint = refl;
}

process-IsIdle : IsIdle outcomes process
unfolding replay
process-IsIdle = refl

main_unreadable_example :
    main (λ _. none) clock outcomes (inr parser) process ≡ ok 0 (logged parser process)
main_unreadable_example = main_unreadable (λ _. none) clock outcomes parser process (no_file refl)

abbrev public_missing : Text
public_missing = bytes "invalid passwd, public_key is required"

refused : refusal [] [] [] (parser.get_text (bytes "stor_backend")) ≡ some (literal public_missing)
unfolding refusal
refused = refl

main_refused_example :
    (main (configuration []) clock outcomes (inr parser) process
      ≡ throw (literal public_missing) (logged parser process))
    × (is_std (literal public_missing) ≡ false)
main_refused_example =
    main_refused (configuration []) clock outcomes parser process (filled [])
      (literal public_missing) refused

accepted :
    refusal (bytes "k") (bytes "k") (bytes "k") (parser.get_text (bytes "stor_backend")) ≡ none
unfolding refusal unknown_backend lookup set_cmdline text_discrete ℕ_discrete
accepted = refl

main_started_example :
    (t : LocalMemMeta) × (new_local clock (meta_opt parser) ≡ ok tt t)
    × (u : Process) × (main (configuration (bytes "k")) clock outcomes (inr parser) process
        ≡ ok (served outcomes) u)
    × (u.catfs
        ≡ some (
            new_catfs (
              new_meta (meta_opt parser) t (
                chosen
                  (parser.get_text (bytes "stor_backend"))
                  (stor_opt parser (filled (bytes "k")))))))
    × IsIdle outcomes u
main_started_example =
    main_started (configuration (bytes "k")) clock outcomes parser process (filled (bytes "k"))
      accepted process-IsIdle

not_empty : bytes "k" ≢ []
not_empty e = ground arith

not_given : lookup (bytes "stor_backend") given ≡ none
unfolding lookup text_discrete ℕ_discrete
not_given = refl

main_defaults_example :
    (t : LocalMemMeta) × (new_local clock (meta_opt parser) ≡ ok tt t)
    × (u : Process) × (main (configuration (bytes "k")) clock outcomes (inr parser) process
        ≡ ok (served outcomes) u)
    × (u.catfs
        ≡ some (
            new_catfs (new_meta (meta_opt parser) t (some (stor_opt parser (filled (bytes "k")))))))
    × IsIdle outcomes u
main_defaults_example =
    main_defaults (configuration (bytes "k")) clock outcomes parser process given
      (filled (bytes "k")) parser-IsParsed not_given not_empty not_empty not_empty process-IsIdle
