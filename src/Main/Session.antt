-- ===== src/Main/Session.antt =====
-- src/main.cpp: what main holds of libfuse, and that it gives it all back.
use catfs.Common.{
  ℕ, ◌≡◌, refl, Bool, true, false, ◌&&◌, not, Option, none, some, List, [], ◌∷◌, Text, arith, ok,
  ◌==◌, if◌then◌else◌, bytes, Bool-cases, inl, inr,
}
use catfs.Main.{
  Parser, Outcomes, Call, system, append_file, set_log_file, args_init, session_new,
  set_signal_handlers, session_mount, daemonize, session_loop, session_loop_mt, session_unmount,
  remove_signal_handlers, session_destroy, opt_free_args, Process, call, run_loop, run_session,
  err_out1, err_out2, err_out3,
}

-- What the process holds: the arguments, a session, its signal handlers and its mount.
pub record Held : Type 0 where
  pub args : Bool
  pub session : Bool
  pub handlers : Bool
  pub mounted : Bool

abbrev pub idle : Held
idle = record { args = false; session = false; handlers = false; mounted = false }

abbrev allowed : Bool → Held → Option Held
allowed b h = if b then some h else none

-- What a call needs and what it changes, as libfuse documents it; `none` if it is made when it must
-- not be. A call that fails gives nothing.
after : Outcomes → Call → Held → Option Held
after o (args_init _) h = allowed (not h.args) (record h { args = true })
after o session_new h = allowed (h.args && not h.session) (record h { session = o.has_session })
after o set_signal_handlers h =
    allowed (h.session && not h.handlers) (record h { handlers = o.handlers == 0 })
after o (session_mount _) h =
    allowed (h.session && not h.mounted) (record h { mounted = o.mount == 0 })
after o (daemonize _) h = allowed h.session h
after o session_loop h = allowed (h.mounted && h.handlers) h
after o (session_loop_mt _) h = allowed (h.mounted && h.handlers) h
after o session_unmount h = allowed h.mounted (record h { mounted = false })
after o remove_signal_handlers h = allowed h.handlers (record h { handlers = false })
after o session_destroy h =
    allowed (h.session && (not h.mounted && not h.handlers)) (record h { session = false })
after o opt_free_args h = allowed (h.args && not h.session) (record h { args = false })
after o _ h = some h

-- What is held after these calls, the last one first.
unfoldable pub replay : Outcomes → List Call → Option Held
unfolding after
replay o [] = some idle
replay o (c ∷ cs) = elim (replay o cs) [ none ↦ none | some h ↦ after o c h ]

abbrev pub IsIdle : Outcomes → Process → Type 0
IsIdle o s = replay o s.calls ≡ some idle

-- The calls for the log do not count.
pub log-IsIdle :
    (o : Outcomes) (s : Process) (a b c : Text)
    → IsIdle o s
    → IsIdle o (record s { calls = set_log_file a ∷ append_file b ∷ system c ∷ s.calls })
unfolding replay after
log-IsIdle o s a b c h = ground arith

-- 0 if there is a session, its handlers are set, it is mounted and its loop answers 0, and 1 if not.
abbrev pub served : Outcomes → ℕ
served o =
    if o.has_session && ((o.handlers == 0) && ((o.mount == 0) && (o.loop == 0))) then 0 else 1

-- Whatever libfuse answers, the session ends: with 0 if there is a session, its handlers are
-- set, it is mounted and its loop answers 0, and with 1 otherwise; the answer of fuse_daemonize does
-- not count. No call is made before what it needs is there, and what was got
-- is given back, on each of the ways out.
pub run_session_ends :
    (o : Outcomes) (parm : Parser) (s : Process)
    → IsIdle o s
    → (u : Process) × (run_session o parm s ≡ ok (served o) u) × IsIdle o u × (u.catfs ≡ s.catfs)
unfolding run_session run_loop err_out1 err_out2 err_out3 call replay after
run_session_ends o parm s h = elim (Bool-cases o.has_session) [
  | inl e ↦ elim (Bool-cases (o.handlers == 0)) [
    | inl f ↦ elim (Bool-cases (o.mount == 0)) [
      | inl g ↦ elim (Bool-cases (parm.exist (bytes "singlethread"))) [
        | inl k ↦ rw (e, f, g, k) (_, refl, ground arith, refl)
        | inr k ↦ rw (e, f, g, k) (_, refl, ground arith, refl)
      ]
      | inr g ↦ rw (e, f, g) (_, refl, ground arith, refl)
    ]
    | inr f ↦ rw (e, f) (_, refl, ground arith, refl)
  ]
  | inr e ↦ rw e (_, refl, ground arith, refl)
]
