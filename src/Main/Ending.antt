-- ===== src/Main/Ending.antt =====
-- src/main.cpp: how main ends, and what the process holds then.
use mathlib.Core.Logic.{ite}
use catfs.Common.{
  ℕ, ◌≡◌, ◌≢◌, ap, lookup, text_key, ◌∙◌, and_then, refl, false, Option, inr, none, some, List, [],
  ◌∷◌, ◌++◌, Text, bytes, text_discrete, arith, ok, throw, Exn,
}
use catfs.Stor.{Timespec}
use catfs.Meta.Local.{LocalMemMeta}
use catfs.Meta.Local.Merge.{new_local}
use catfs.Meta.Impl.{new_meta}
use catfs.Fs.{new_catfs}
use catfs.Fuse.{try_catch, catch_run, is_std}
use catfs.Main.{
  Parser, Process, Outcomes, system, append_file, set_log_file, call, create_log_dir, init_catfs,
  run_session, main,
}
use catfs.Main.Startup.{
  IsConfigured, IsUnreadable, init_catfs_unreadable, refusal, chosen, stor_opt, meta_opt,
  init_catfs_configured, refusal-uncaught, refusal_s3,
}
use catfs.Main.Options.{Default, IsParsed, default_backend}
use catfs.Main.Session.{IsIdle, served, run_session_ends, log-IsIdle}

-- The process with its log directory, if one is asked for.
abbrev pub logged : Parser → Process → Process
logged parm s =
    let dir = parm.get_text (bytes "log_dir") in
    ite (text_discrete dir []) s (record s {
      calls =
          set_log_file (dir ++ bytes "/catfs.log")
          ∷ append_file (dir ++ bytes "/catfs.log")
          ∷ system (bytes "mkdir -p " ++ dir)
          ∷ s.calls;
    })

ite_both : {X A : Type 0} (P : A → Type 0) (d : Dec X) (a b : A) → P a → P b → P (ite d a b)
ite_both P (yes _) a b h k = h
ite_both P (no _) a b h k = k

log_dir_made :
    (parm : Parser) (s : Process)
    → (ite
          (text_discrete (parm.get_text (bytes "log_dir")) [])
          (ok tt)
          (create_log_dir (parm.get_text (bytes "log_dir"))))
        s
      ≡ ok tt (logged parm s)
unfolding create_log_dir call
log_dir_made parm s = ground arith

module _ (load_file : Text → Option (Text → Option Text)) (clock : ℕ → Timespec) (o : Outcomes)
    (parm : Parser) (s : Process) where
  main_body :
      main load_file clock o (inr parm) s
      ≡ catch_run
          (and_then (init_catfs load_file clock parm (logged parm s)) (λ _. run_session o parm))
          (λ e. ok 0)
  unfolding main try_catch
  main_body = rw (log_dir_made parm s) refl

  logged-IsIdle : IsIdle o s → IsIdle o (logged parm s)
  logged-IsIdle h =
      ite_both (IsIdle o) (text_discrete (parm.get_text (bytes "log_dir")) []) s _ h
        (log-IsIdle o s _ _ _ h)

  -- The file of the configuration cannot be read or lacks a key: main ends with 0, as when all went
  -- well, and nothing was asked of libfuse.
  pub main_unreadable :
      IsUnreadable load_file parm → main load_file clock o (inr parm) s ≡ ok 0 (logged parm s)
  unfolding catch_run is_std
  main_unreadable h =
      main_body ∙ rw (init_catfs_unreadable load_file clock parm (logged parm s) h) refl

  module _ (c : IsConfigured load_file parm) where
    -- A configuration that can be read and is refused: what is thrown leaves main uncaught, before
    -- anything was asked of libfuse.
    pub main_refused :
        (e : Exn)
        → refusal c.public_key c.private_key c.endpoint (parm.get_text (bytes "stor_backend"))
          ≡ some e
        → (main load_file clock o (inr parm) s ≡ throw e (logged parm s)) × (is_std e ≡ false)
    unfolding catch_run
    main_refused e h =
        let (t, made_t, run) = init_catfs_configured load_file clock parm (logged parm s) c in
        let uncaught = refusal-uncaught _ _ _ _ e h in
        (main_body ∙ rw (run, h, uncaught) refl, uncaught)

    -- Any other configuration: main serves the file system over a new tree with the backend that was
    -- asked for, and gives back what it got of libfuse, whatever that answers. It ends with 0 if there
    -- is a session, its handlers are set, it is mounted and its loop answers 0, and with 1 otherwise,
    -- whatever fuse_daemonize answers.
    pub main_started :
        refusal c.public_key c.private_key c.endpoint (parm.get_text (bytes "stor_backend")) ≡ none
        → IsIdle o s
        → (t : LocalMemMeta) × (new_local clock (meta_opt parm) ≡ ok tt t)
          × (u : Process) × (main load_file clock o (inr parm) s ≡ ok (served o) u)
          × (u.catfs
              ≡ some (
                  new_catfs (
                    new_meta
                      (meta_opt parm)
                      t
                      (chosen (parm.get_text (bytes "stor_backend")) (stor_opt parm c)))))
          × IsIdle o u
    unfolding catch_run
    main_started h idle =
        let (t, made_t, run) = init_catfs_configured load_file clock parm (logged parm s) c in
        let fs = new_catfs (
          new_meta (meta_opt parm) t
            (chosen (parm.get_text (bytes "stor_backend")) (stor_opt parm c))) in
        let (u, ends, idle', same) =
          run_session_ends o parm (record (logged parm s) { catfs = some fs })
            (logged-IsIdle idle) in
        (t, made_t, u, main_body ∙ rw (run, h, ends) refl, same, idle')

  -- When no backend is named on the command line, and the configuration has the three keys, none of
  -- them empty, main serves the file system over S3 with them, and ends with 0 if there is a session,
  -- its handlers are set, it is mounted and its loop answers 0, and with 1 otherwise.
  pub main_defaults :
      (given : List (Text × Default)) (c : IsConfigured load_file parm)
      → IsParsed given parm
      → lookup (bytes "stor_backend") given ≡ none
      → c.public_key ≢ []
      → c.private_key ≢ []
      → c.endpoint ≢ []
      → IsIdle o s
      → (t : LocalMemMeta) × (new_local clock (meta_opt parm) ≡ ok tt t)
        × (u : Process) × (main load_file clock o (inr parm) s ≡ ok (served o) u)
        × (u.catfs ≡ some (new_catfs (new_meta (meta_opt parm) t (some (stor_opt parm c)))))
        × IsIdle o u
  main_defaults given c parsed no_backend pk sk ep idle =
      let (fine, is_s3) =
        refusal_s3 c.public_key c.private_key c.endpoint (parm.get_text (bytes "stor_backend")) pk
          sk ep (default_backend given parm parsed no_backend) in
      let (t, made_t, u, ends, fs, idle') = main_started c fine idle in
      (
        t,
        made_t,
        u,
        ends,
        fs ∙ ap (λ b. some (new_catfs (new_meta (meta_opt parm) t b))) (is_s3 (stor_opt parm c)),
        idle',
      )
