-- ===== src/JobControl.antt =====
-- src/jobcontrol.c, with the watches of SIGCHLD, SIGCONT and SIGTSTP of src/process.c: a client watches the
-- signals of its process by methods of its own. A method is known by a number. What sigaction() returns
-- is an argument.
pub mod Callbacks
pub mod Backed
pub mod Watched
mod Tests
use libert.Base.{
  ℕ, Bool, true, false, Option, none, some, List, [], ◌∷◌, ◌++◌, Errno, einval, Outcome, done,
  abort, ◌>>=◌, Result, ok, err,
}
use libert.Signals.{
  SigAction, plain_action, default_action, foreign, Watches, Signals, MethodId, change_sig_action,
  watch_signals, unwatch_signals,
}

abbrev pub eperm : Errno
eperm = 1

-- `struct Ert_JobControl`
pub record JobControl : Type 0 where
  pub raise_method : Option MethodId
  pub reap_method : Option MethodId
  pub pause_method : Option MethodId
  pub resume_method : Option MethodId
  pub continue_method : Option MethodId

-- What the process calls on a signal: `processWatchedSignalMethod_` is in `watches`, `processSigChldMethod_`
-- in `children`, and the methods of `processSigStop_` and `processSigCont_` in the other two.
pub record Process : Type 0 where
  pub watches : Watches
  pub children : Option MethodId
  pub stop : Option MethodId
  pub cont : Option MethodId

pub record Jobs : Type 0 where
  pub job : JobControl
  pub process : Process

abbrev pub Reply : Type 0
Reply = Result (Unit {0})

-- How a call ends.
abbrev pub Call : Type 0
Call = Outcome (Reply × Jobs)

-- The methods that job control gives to the process.
abbrev pub raise_job_signal : MethodId
raise_job_signal = 0

abbrev pub reap_job : MethodId
reap_job = 1

abbrev pub raise_job_stop : MethodId
raise_job_stop = 2

abbrev pub raise_job_cont : MethodId
raise_job_cont = 3

abbrev sigchld : ℕ
sigchld = 17

-- The handler `sigChld_()`.
abbrev sig_chld : SigAction
sig_chld = plain_action (foreign 17)

-- `ert_watchProcessChildren()`: on an error the former method is put back.
unfoldable pub watch_children : Reply → MethodId → Process → Reply × Process
unfolding change_sig_action
watch_children reply method p =
    let c = change_sig_action reply sigchld sig_chld p.watches.signals in
    elim c.0 [
      | err e ↦ (err e, p)
      | ok old ↦ (
        ok tt,
        record p { children = some method; watches = record (p.watches) { signals = c.1 } },
      )
    ]

-- `ert_unwatchProcessChildren()`
unfoldable pub unwatch_children : Reply → Process → Reply × Process
unfolding change_sig_action
unwatch_children reply p =
    let c = change_sig_action reply sigchld (plain_action default_action) p.watches.signals in
    elim c.0 [
      | err e ↦ (err e, p)
      | ok old ↦
          (ok tt, record p { children = none; watches = record (p.watches) { signals = c.1 } })
    ]

-- `ert_createJobControl()`
pub create_job_control : JobControl
create_job_control = record {
  raise_method = none;
  reap_method = none;
  pause_method = none;
  resume_method = none;
  continue_method = none;
}

-- `ert_watchJobControlSignals()` and `ert_unwatchJobControlSignals()`
unfoldable pub watch_job_signals : (ℕ → Reply) → (ℕ → Reply) → Option MethodId → Jobs → Call
unfolding watch_signals
watch_job_signals reply revert none s = done (err einval, s)
watch_job_signals reply revert (some m) s = elim s.job.raise_method [
  | some other ↦ done (err eperm, s)
  | none ↦ watch_signals reply revert raise_job_signal s.process.watches >>= λ r. done (
    r.0,
    record {
      job = record (s.job) { raise_method = elim r.0 [ ok _ ↦ some m | err e ↦ none ] };
      process = record (s.process) { watches = r.1 };
    },
  )
]

unfoldable pub unwatch_job_signals : (ℕ → Reply) → Jobs → Reply × Jobs
unfolding unwatch_signals
unwatch_job_signals reply s = elim s.job.raise_method [
  | none ↦ (err eperm, s)
  | some m ↦
      let r = unwatch_signals reply s.process.watches in
      (
        r.0,
        record {
          job = record (s.job) { raise_method = elim r.0 [ ok _ ↦ none | err e ↦ some m ] };
          process = record (s.process) { watches = r.1 };
        },
      )
]

-- `ert_watchJobControlDone()` and `ert_unwatchJobControlDone()`
unfoldable pub watch_job_done : Reply → Option MethodId → Jobs → Reply × Jobs
unfolding watch_children
watch_job_done reply none s = (err einval, s)
watch_job_done reply (some m) s = elim s.job.reap_method [
  | some other ↦ (err eperm, s)
  | none ↦
      let r = watch_children reply reap_job s.process in
      (
        r.0,
        record {
          job = record (s.job) { reap_method = elim r.0 [ ok _ ↦ some m | err e ↦ none ] };
          process = r.1;
        },
      )
]

unfoldable pub unwatch_job_done : Reply → Jobs → Reply × Jobs
unfolding unwatch_children
unwatch_job_done reply s = elim s.job.reap_method [
  | none ↦ (err eperm, s)
  | some m ↦
      let r = unwatch_children reply s.process in
      (
        r.0,
        record {
          job = record (s.job) { reap_method = elim r.0 [ ok _ ↦ none | err e ↦ some m ] };
          process = r.1;
        },
      )
]

-- Whether one of the two methods for a stop is there.
abbrev pub either : Option MethodId → Option MethodId → Bool
either none none = false
either none (some m) = true
either (some m) other = true

-- `ert_watchJobControlStop()` and `ert_unwatchJobControlStop()`; the watch of the process does not fail.
unfoldable pub watch_job_stop : Option MethodId → Option MethodId → Jobs → Reply × Jobs
watch_job_stop pause resume s = elim (either pause resume) [
  | false ↦ (err einval, s)
  | true ↦ elim (either s.job.pause_method s.job.resume_method) [
    | true ↦ (err eperm, s)
    | false ↦ (
      ok tt,
      record {
        job = record (s.job) { pause_method = pause; resume_method = resume };
        process = record (s.process) { stop = some raise_job_stop };
      },
    )
  ]
]

unfoldable pub unwatch_job_stop : Jobs → Reply × Jobs
unwatch_job_stop s = elim (either s.job.pause_method s.job.resume_method) [
  | false ↦ (err eperm, s)
  | true ↦ (
    ok tt,
    record {
      job = record (s.job) { pause_method = none; resume_method = none };
      process = record (s.process) { stop = none };
    },
  )
]

-- `ert_watchJobControlContinue()` and `ert_unwatchJobControlContinue()`
unfoldable pub watch_job_continue : Option MethodId → Jobs → Reply × Jobs
watch_job_continue none s = (err einval, s)
watch_job_continue (some m) s = elim s.job.continue_method [
  | some other ↦ (err eperm, s)
  | none ↦ (
    ok tt,
    record {
      job = record (s.job) { continue_method = some m };
      process = record (s.process) { cont = some raise_job_cont };
    },
  )
]

unfoldable pub unwatch_job_continue : Jobs → Reply × Jobs
unwatch_job_continue s = elim s.job.continue_method [
  | none ↦ (err eperm, s)
  | some m ↦ (
    ok tt,
    record {
      job = record (s.job) { continue_method = none };
      process = record (s.process) { cont = none };
    },
  )
]

-- `ert_closeJobControl()`: an unwatch that fails stops the process.
unfoldable pub close_job_control : (ℕ → Reply) → Reply → Jobs → Outcome Jobs
unfolding unwatch_signals unwatch_children
close_job_control reply chld s =
    let r = unwatch_signals reply s.process.watches in
    let c =
      unwatch_children chld (record (s.process) { watches = r.1; stop = none; cont = none }) in
    elim r.0 [
      | err e ↦ abort
      | ok _ ↦ elim c.0 [ err e ↦ abort | ok _ ↦ done (record s { process = c.1 }) ]
    ]
