-- ===== src/Main.antt =====
-- src/main.cpp: the command line, the configuration, and the session with libfuse. The libraries
-- for these are parameters: what the command line has, what the file of the configuration holds,
-- and what each call of libfuse answers.
mod Examples
pub mod Ending
pub mod Options
pub mod Sample
pub mod Session
pub mod Startup
use catfs.Common.{
  ℕ, ◌-◌, ◌^◌, ◌%◌, Bool, true, false, ◌⊎◌, inl, inr, Option, none, some, List, [], ◌∷◌, ◌++◌, Text,
  bytes, text_discrete, Cmd, Run, ok, throw, fault, out_of_fuel, literal, text, yaml_error, pure,
  modify, ◌>>=◌, ◌>>◌, ◌==◌, if◌then◌else◌, not,
}
use mathlib.Core.Logic.{ite}
use catfs.Stor.{StorOpt, Timespec}
use catfs.Meta.Local.{MetaOpt, LocalMemMeta}
use catfs.Meta.Local.Merge.{new_local}
use catfs.Meta.Impl.{new_meta}
use catfs.Fs.{CatFs, new_catfs}
use catfs.Fuse.{try_catch}

-- The values of the command line, by the names of the options.
pub record Parser : Type 0 where
  pub get_text : Text → Text
  pub get_number : Text → ℕ
  pub exist : Text → Bool

-- What the calls of libfuse answer: whether there is a session, and the int of each other call. The
-- int of fuse_daemonize is not looked at.
pub record Outcomes : Type 0 where
  pub has_session : Bool
  pub handlers : ℕ
  pub mount : ℕ
  pub detached : ℕ
  pub loop : ℕ

-- What the process asks of the system and of libfuse.
pub data Call : Type 0 where
  system append_file set_log_file : Text → Call
  args_init : (argv : List Text) → Call
  session_new set_signal_handlers : Call
  session_mount : Text → Call
  daemonize : (foreground : Bool) → Call
  session_loop : Call
  session_loop_mt : (max_idle_threads : ℕ) → Call
  session_unmount remove_signal_handlers session_destroy opt_free_args : Call

-- The process: its calls, the last one first, and the file system as init_catfs hands it to the
-- adapter. What the loop makes of it, request by request, is Fuse/Dispatch/Reach.antt. The pointer
-- to the backend is what the CatFs has as its backend: null for "us3".
pub record Process : Type 0 where
  pub calls : List Call
  pub catfs : Option (CatFs (Option StorOpt))

pub call : Call → Cmd Process (Unit {0})
call c = modify (λ s. record s { calls = c ∷ s.calls })

pub create_log_dir : (log_dir : Text) → Cmd Process (Unit {0})
unfolding call
create_log_dir log_dir = do
  call (system (bytes "mkdir -p " ++ log_dir))
  call (append_file (log_dir ++ bytes "/catfs.log"))
  call (set_log_file (log_dir ++ bytes "/catfs.log"))

-- content[key].as<string>()
pub as_string : (content : Text → Option Text) → (key : Text) → Cmd Process Text
as_string content key = elim (content key) [ none ↦ throw yaml_error | some v ↦ pure v ]

pub required : (value : Text) → (message : Text) → Cmd Process (Unit {0})
required value message = ite (text_discrete value []) (throw (literal message)) (pure tt)

-- The object that a constructor makes.
made : Run LocalMemMeta (Unit {0}) → Cmd Process LocalMemMeta
made (ok _ t) s = ok t s
made (throw e _) s = throw e s
made fault s = fault
made out_of_fuel s = out_of_fuel

-- The backend by its name.
pub choose_stor : (stor_backend : Text) → StorOpt → Cmd Process (Option StorOpt)
choose_stor stor_backend stor_opt =
    ite (text_discrete stor_backend (bytes "s3")) (pure (some stor_opt)) (
      ite (text_discrete stor_backend (bytes "us3")) (pure none)
        (throw (text (bytes "not support storage backend: " ++ stor_backend))))

-- YAML::LoadFile, `none` if it throws, and the scalars of the file by key.
module _ (load_file : Text → Option (Text → Option Text)) (clock : ℕ → Timespec) where
  pub load : (path : Text) → Cmd Process (Text → Option Text)
  load path = elim (load_file path) [ none ↦ throw yaml_error | some content ↦ pure content ]

  pub init_catfs : Parser → Cmd Process (Unit {0})
  unfolding load as_string required choose_stor made
  init_catfs parm = do
    content ← load (parm.get_text (bytes "passwd"))
    public_key ← as_string content (bytes "public_key")
    private_key ← as_string content (bytes "private_key")
    endpoint ← as_string content (bytes "endpoint")
    required public_key (bytes "invalid passwd, public_key is required")
    required private_key (bytes "invalid passwd, private_key is required")
    required endpoint (bytes "invalid passwd, endpoint is required")
    stor ← choose_stor (parm.get_text (bytes "stor_backend")) (record {
      bucket = parm.get_text (bytes "bucket");
      public_key = public_key;
      private_key = private_key;
      endpoint = endpoint;
    })
    let meta_opt : MetaOpt = record {
      gid = parm.get_number (bytes "gid");
      uid = parm.get_number (bytes "uid");
      dcache_timeout = parm.get_number (bytes "dcache_timeout");
      bucket = parm.get_text (bytes "bucket");
      bucket_prefix = parm.get_text (bytes "bucket_prefix");
    } in
        do
          lmeta ← made (new_local clock meta_opt)
          modify (λ s. record s { catfs = some (new_catfs (new_meta meta_opt lmeta stor)) })

-- `ret` is -1 until the loop ends.
abbrev pub no_ret : ℕ
no_ret = 2 ^ 32 - 1

-- ret ? 1 : 0
abbrev pub status : ℕ → ℕ
status ret = if ret == 0 then 0 else 1

-- The labels of main, from the last to the first.
pub err_out1 : (ret : ℕ) → Cmd Process ℕ
unfolding call
err_out1 ret = do call opt_free_args; pure (status ret)

pub err_out2 : (ret : ℕ) → Cmd Process ℕ
unfolding call err_out1
err_out2 ret = do call session_destroy; err_out1 ret

pub err_out3 : (ret : ℕ) → Cmd Process ℕ
unfolding call err_out2
err_out3 ret = do call remove_signal_handlers; err_out2 ret

module _ (outcomes : Outcomes) where
  pub run_loop : Parser → Cmd Process ℕ
  unfolding call
  run_loop parm =
      if parm.exist (bytes "singlethread") then (do call session_loop; pure outcomes.loop) else (do
        call (session_loop_mt (parm.get_number (bytes "max_idle_threads")))
        pure outcomes.loop)

  pub run_session : Parser → Cmd Process ℕ
  unfolding call err_out1 err_out2 err_out3 run_loop
  run_session parm =
      let mp = parm.get_text (bytes "mount") in
      do
        call (args_init (mp ∷ bytes "-o" ∷ bytes "auto_unmount" ∷ []))
        call session_new
        if not outcomes.has_session then err_out1 no_ret else do
          call set_signal_handlers
          if not (outcomes.handlers == 0) then err_out2 no_ret else do
            call (session_mount mp)
            if not (outcomes.mount == 0) then err_out3 no_ret else do
              call (daemonize (parm.exist (bytes "foreground")))
              ret ← run_loop parm
              call session_unmount
              err_out3 ret

module _ (load_file : Text → Option (Text → Option Text)) (clock : ℕ → Timespec)
    (outcomes : Outcomes) where
  -- The status that the process ends with. The argument is what parse_check makes of the command
  -- line: `inl` where it ends the process itself, with this status, as it does for `--help` and for
  -- a command line that it cannot read, and `inr` the values of the options.
  pub main : ℕ ⊎ Parser → Cmd Process ℕ
  unfolding create_log_dir init_catfs run_session try_catch
  main parsed = elim parsed [
    | inl exit_status ↦ pure exit_status
    | inr parm ↦
        try_catch
          (do
            (ite (text_discrete (parm.get_text (bytes "log_dir")) []) (pure tt)
                (create_log_dir (parm.get_text (bytes "log_dir"))))
            init_catfs load_file clock parm
            run_session outcomes parm)
          (λ e. pure 0)
  ]
