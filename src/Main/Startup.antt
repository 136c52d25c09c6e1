-- ===== src/Main/Startup.antt =====
-- src/main.cpp: what init_catfs makes of a configuration, and which it refuses.
use mathlib.Core.Logic.{ite}
use native.Mathlib.Decide.{ℕ_discrete}
use catfs.Common.{
  ◌≢◌, ℕ, ◌≡◌, refl, false, Option, none, some, [], ◌∷◌, ◌++◌, Text, bytes, text_discrete, arith,
  ok, throw, Run, Exn, literal, text, yaml_error, ◌⊎◌, inl, inr, Option-cases,
}
use catfs.Stor.{StorOpt, Timespec}
use catfs.Meta.Local.{MetaOpt, LocalMemMeta}
use catfs.Meta.Local.Merge.{new_local}
use catfs.Meta.Local.Merge.Kept.{new_local_returns}
use catfs.Meta.Impl.{new_meta}
use catfs.Fs.{new_catfs}
use catfs.Fuse.{is_std}
use catfs.Main.{Parser, Process, load, as_string, required, choose_stor, made, init_catfs}

-- The configuration can be read and has the three keys.
pub record IsConfigured (load_file : Text → Option (Text → Option Text)) (parm : Parser)
    : Type 0 where
  pub content : Text → Option Text
  pub public_key : Text
  pub private_key : Text
  pub endpoint : Text
  pub loaded : load_file (parm.get_text (bytes "passwd")) ≡ some content
  pub has_public : content (bytes "public_key") ≡ some public_key
  pub has_private : content (bytes "private_key") ≡ some private_key
  pub has_endpoint : content (bytes "endpoint") ≡ some endpoint

-- The configuration cannot be read, or lacks one of the keys.
pub data IsUnreadable (load_file : Text → Option (Text → Option Text)) (parm : Parser)
    : Type 0 where
  no_file : load_file (parm.get_text (bytes "passwd")) ≡ none → IsUnreadable load_file parm
  no_key :
      (content : Text → Option Text)
      → load_file (parm.get_text (bytes "passwd")) ≡ some content
      → (content (bytes "public_key") ≡ none)
        ⊎ ((content (bytes "private_key") ≡ none) ⊎ (content (bytes "endpoint") ≡ none))
      → IsUnreadable load_file parm

unfoldable pub unknown_backend : (stor_backend : Text) → Option Exn
unknown_backend stor_backend = ite (text_discrete stor_backend (bytes "s3")) none (
    ite (text_discrete stor_backend (bytes "us3")) none
      (some (text (bytes "not support storage backend: " ++ stor_backend))))

-- The first thing that is wrong with the values.
unfoldable pub refusal : (public_key private_key endpoint stor_backend : Text) → Option Exn
refusal [] _ _ _ = some (literal (bytes "invalid passwd, public_key is required"))
refusal (_ ∷ _) [] _ _ = some (literal (bytes "invalid passwd, private_key is required"))
refusal (_ ∷ _) (_ ∷ _) [] _ = some (literal (bytes "invalid passwd, endpoint is required"))
refusal (_ ∷ _) (_ ∷ _) (_ ∷ _) stor_backend = unknown_backend stor_backend

abbrev pub meta_opt : Parser → MetaOpt
meta_opt parm = record {
  gid = parm.get_number (bytes "gid");
  uid = parm.get_number (bytes "uid");
  dcache_timeout = parm.get_number (bytes "dcache_timeout");
  bucket = parm.get_text (bytes "bucket");
  bucket_prefix = parm.get_text (bytes "bucket_prefix");
}

-- What the S3Stor is made from.
abbrev pub stor_opt :
    {load_file : Text → Option (Text → Option Text)}
    → (parm : Parser) → IsConfigured load_file parm
    → StorOpt
stor_opt parm c = record {
  bucket = parm.get_text (bytes "bucket");
  public_key = c.public_key;
  private_key = c.private_key;
  endpoint = c.endpoint;
}

required-cons :
    (v : Text) (x : ℕ) (xs : Text) (message : Text) (s : Process)
    → v ≡ x ∷ xs
    → required v message s ≡ ok tt s
unfolding required text_discrete
required-cons v x xs message s e = rw e refl

required-nil :
    (v message : Text) (s : Process) → v ≡ [] → required v message s ≡ throw (literal message) s
unfolding required text_discrete
required-nil v message s e = rw e refl

-- The pointer to the backend: null for "us3".
abbrev pub chosen : (stor_backend : Text) → StorOpt → Option StorOpt
chosen stor_backend opt = ite (text_discrete stor_backend (bytes "s3")) (some opt) none

choose_stor-none :
    (b : Text) (opt : StorOpt) (s : Process)
    → unknown_backend b ≡ none
    → choose_stor b opt s ≡ ok (chosen b opt) s
unfolding choose_stor unknown_backend
choose_stor-none b opt s h = ground arith

choose_stor-some :
    (b : Text) (opt : StorOpt) (s : Process) (e : Exn)
    → unknown_backend b ≡ some e
    → choose_stor b opt s ≡ throw e s
unfolding choose_stor unknown_backend
choose_stor-some b opt s e h = ground arith

module _ (load_file : Text → Option (Text → Option Text)) (clock : ℕ → Timespec)
    (parm : Parser) where
  module _ (s : Process) (c : IsConfigured load_file parm) (t : LocalMemMeta) where
    -- What init_catfs does with a configuration that has this to be said against it.
    abbrev pub outcome : Option Exn → Run Process (Unit {0})
    outcome (some e) = throw e s
    outcome none = ok tt (record s {
      catfs = some (
          new_catfs (
            new_meta (meta_opt parm) t
              (chosen (parm.get_text (bytes "stor_backend")) (stor_opt parm c))));
    })

    init_catfs_values :
        (pk sk ep : Text)
        → new_local clock (meta_opt parm) ≡ ok tt t
        → c.public_key ≡ pk
        → c.private_key ≡ sk
        → c.endpoint ≡ ep
        → init_catfs load_file clock parm s
          ≡ outcome (refusal pk sk ep (parm.get_text (bytes "stor_backend")))
    unfolding init_catfs load as_string made refusal
    init_catfs_values [] sk ep made_t e f g = ground (
      arith,
      c.loaded,
      c.has_public,
      c.has_private,
      c.has_endpoint,
      required-nil c.public_key (bytes "invalid passwd, public_key is required") s e,
    )
    init_catfs_values (x ∷ pk) [] ep made_t e f g = ground (
      arith,
      c.loaded,
      c.has_public,
      c.has_private,
      c.has_endpoint,
      required-cons c.public_key x pk (bytes "invalid passwd, public_key is required") s e,
      required-nil c.private_key (bytes "invalid passwd, private_key is required") s f,
    )
    init_catfs_values (x ∷ pk) (y ∷ sk) [] made_t e f g = ground (
      arith,
      c.loaded,
      c.has_public,
      c.has_private,
      c.has_endpoint,
      required-cons c.public_key x pk (bytes "invalid passwd, public_key is required") s e,
      required-cons c.private_key y sk (bytes "invalid passwd, private_key is required") s f,
      required-nil c.endpoint (bytes "invalid passwd, endpoint is required") s g,
    )
    init_catfs_values (x ∷ pk) (y ∷ sk) (z ∷ ep) made_t e f g =
        let p1 =
          required-cons c.public_key x pk (bytes "invalid passwd, public_key is required") s e in
        let p2 =
          required-cons c.private_key y sk (bytes "invalid passwd, private_key is required") s f in
        let p3 = required-cons c.endpoint z ep (bytes "invalid passwd, endpoint is required") s g in
        elim (Option-cases (unknown_backend (parm.get_text (bytes "stor_backend")))) [
          | inl h ↦ ground (
            arith,
            c.loaded,
            c.has_public,
            c.has_private,
            c.has_endpoint,
            p1,
            p2,
            p3,
            made_t,
            choose_stor-none (parm.get_text (bytes "stor_backend")) (stor_opt parm c) s h,
          )
          | inr (u, h) ↦ ground (
            arith,
            c.loaded,
            c.has_public,
            c.has_private,
            c.has_endpoint,
            p1,
            p2,
            p3,
            choose_stor-some (parm.get_text (bytes "stor_backend")) (stor_opt parm c) s u h,
          )
        ]

  -- A configuration that can be read makes the file system over a new tree, or is refused for the
  -- first thing that is wrong with it, and then nothing was made.
  pub init_catfs_configured :
      (s : Process) (c : IsConfigured load_file parm)
      → (t : LocalMemMeta) × (new_local clock (meta_opt parm) ≡ ok tt t)
        × (init_catfs load_file clock parm s
            ≡ outcome s c t (
                refusal c.public_key c.private_key c.endpoint
                  (parm.get_text (bytes "stor_backend"))))
  init_catfs_configured s c =
      let (t, made_t) = new_local_returns clock (meta_opt parm) in
      (t, made_t, init_catfs_values s c t _ _ _ made_t refl refl refl)

  pub init_catfs_unreadable :
      (s : Process)
      → IsUnreadable load_file parm
      → init_catfs load_file clock parm s ≡ throw yaml_error s
  unfolding init_catfs load as_string
  init_catfs_unreadable s (no_file h) = ground (arith, h)
  init_catfs_unreadable s (no_key content h (inl p)) = ground (arith, h, p)
  init_catfs_unreadable s (no_key content h (inr (inl p))) = ground (arith, h, p)
  init_catfs_unreadable s (no_key content h (inr (inr p))) = ground (arith, h, p)

-- With the keys filled in, and the default backend, there is nothing against a configuration.
pub refusal_s3 :
    (pk sk ep backend : Text)
    → pk ≢ []
    → sk ≢ []
    → ep ≢ []
    → backend ≡ bytes "s3"
    → (refusal pk sk ep backend ≡ none) × ((opt : StorOpt) → chosen backend opt ≡ some opt)
unfolding refusal unknown_backend text_discrete ℕ_discrete
refusal_s3 [] sk ep backend p q r e = absurd (p refl)
refusal_s3 (x ∷ pk) [] ep backend p q r e = absurd (q refl)
refusal_s3 (x ∷ pk) (y ∷ sk) [] backend p q r e = absurd (r refl)
refusal_s3 (x ∷ pk) (y ∷ sk) (z ∷ ep) backend p q r e = rw e (refl, λ opt. refl)

-- No handler of main sees what init_catfs refuses a configuration with.
pub refusal-uncaught :
    (pk sk ep backend : Text) (e : Exn) → refusal pk sk ep backend ≡ some e → is_std e ≡ false
unfolding refusal unknown_backend is_std
refusal-uncaught [] sk ep backend e h = ground arith
refusal-uncaught (x ∷ pk) [] ep backend e h = ground arith
refusal-uncaught (x ∷ pk) (y ∷ sk) [] backend e h = ground arith
refusal-uncaught (x ∷ pk) (y ∷ sk) (z ∷ ep) backend e h = ground arith
