-- ===== src/Signals.antt =====
-- src/process.c: the watch of the signals that end a process. The actions are those of one process; each
-- call of `changeSigAction_()` is one step, without its locks, and whether sigaction() succeeds for a
-- signal is an argument.
pub mod Restore
pub mod Rounds
pub mod Slots
pub mod Ends
mod Tests
use libert.Base.{
  ◌-◌, ◌^◌, not, ◌&&◌, ℕ, Bool, true, false, Option, none, some, List, [], ◌∷◌, ◌==◌, if◌then◌else◌,
  Errno, Outcome, done, abort, ◌>>=◌, Result, ok, err,
}

abbrev pub MethodId : Type 0
MethodId = ℕ

-- What a signal leads to: `caught` is `caughtSignal_()`, `dispatched` is the function of the library that
-- the system calls for any handler, `dispatchSigAction_()` with SA_SIGINFO or `dispatchSigHandler_()`.
pub data Handler : Type 0 where
  default_action ignored caught dispatched : Handler
  foreign : ℕ → Handler

-- `struct sigaction`: `sa_handler` or `sa_sigaction`, SA_SIGINFO, SA_RESTART and SA_NODEFER of `sa_flags`,
-- the rest of `sa_flags`, and `sa_mask`, the signals as bits.
pub record SigAction : Type 0 where
  pub handler : Handler
  pub siginfo : Bool
  pub restart : Bool
  pub nodefer : Bool
  pub flags : ℕ
  pub mask : ℕ

-- An action without flags and mask.
abbrev pub plain_action : Handler → SigAction
plain_action h = record {
  handler = h;
  siginfo = false;
  restart = false;
  nodefer = false;
  flags = 0;
  mask = 0;
}

-- All signals but SIGABRT.
abbrev pub filled_mask : ℕ
filled_mask = 2 ^ 64 - 1 - 2 ^ 5

-- The actions that the system has, and `mAction` of `processSignals_`.
pub record Signals : Type 0 where
  pub actions : ℕ → SigAction
  pub handlers : ℕ → SigAction

-- Neither SIG_DFL nor SIG_IGN.
unfoldable pub is_handler : Handler → Bool
is_handler default_action = false
is_handler ignored = false
is_handler caught = true
is_handler dispatched = true
is_handler (foreign h) = true

-- A handler with SA_RESTART is refused.
unfoldable pub is_allowed : SigAction → Bool
unfolding is_handler
is_allowed a = not (is_handler a.handler && a.restart)

-- `nextAction` of `changeSigAction_()`, where it is not refused.
unfoldable pub next_action : SigAction → SigAction
unfolding is_handler
next_action a =
    if is_handler a.handler
    then record a { handler = dispatched; nodefer = false; mask = filled_mask }
    else a

-- An assignment to an entry of a table of actions.
unfoldable pub set_action : ℕ → SigAction → (ℕ → SigAction) → ℕ → SigAction
set_action signal a table n = if n == signal then a else table n

-- The call of `sigaction()`, and what follows it.
unfoldable pub install_action :
    Result (Unit {0}) → ℕ → SigAction → Signals → Result SigAction × Signals
unfolding next_action set_action
install_action (err e) signal a s = (err e, s)
install_action (ok _) signal a s = (
  ok (s.actions signal),
  record {
    actions = set_action signal (next_action a) s.actions;
    handlers = set_action signal a s.handlers;
  },
)

-- `changeSigAction_()` of a signal below NSIG: the action that the system had. A refusal sets no errno,
-- and 0 stands for what is left in it; the reply is an error where sigfillset(), sigdelset() or
-- sigaction() fails.
unfoldable pub change_sig_action :
    Result (Unit {0}) → ℕ → SigAction → Signals → Result SigAction × Signals
unfolding is_allowed install_action
change_sig_action reply signal a s =
    if is_allowed a then install_action reply signal a s else (err 0, s)

-- `struct SignalWatch`
pub record SignalWatch : Type 0 where
  pub sig_num : ℕ
  pub sig_action : SigAction
  pub watched : Bool

-- `processWatchedSignals_[]` and `processWatchedSignalMethod_`, with the actions.
pub record Watches : Type 0 where
  pub method : Option MethodId
  pub slots : List SignalWatch
  pub signals : Signals

unwatched_signal : ℕ → SignalWatch
unwatched_signal signal = record {
  sig_num = signal;
  sig_action = plain_action default_action;
  watched = false;
}

unfoldable pub watched_signals : List SignalWatch
unfolding unwatched_signal
watched_signals =
    unwatched_signal 1 ∷ unwatched_signal 2 ∷ unwatched_signal 3 ∷ unwatched_signal 15 ∷ []

-- The action with `caughtSignal_()` and SA_SIGINFO.
abbrev pub catch_action : SigAction
catch_action = record (plain_action caught) { siginfo = true }

-- The loop of `ert_watchProcessSignals()`.
unfoldable pub watch_slots :
    (ℕ → Result (Unit {0}))
    → List SignalWatch
    → Signals
    → Result (Unit {0}) × List SignalWatch × Signals
unfolding change_sig_action
watch_slots reply [] s = (ok tt, [], s)
watch_slots reply (w ∷ ws) s =
    let changed = change_sig_action (reply w.sig_num) w.sig_num catch_action s in
    let rest = watch_slots reply ws changed.1 in
    elim changed.0 [
      | err e ↦ (err e, w ∷ ws, changed.1)
      | ok old ↦ (rest.0, record w { sig_action = old; watched = true } ∷ rest.1, rest.2)
    ]

-- What it does to the watched ones when it fails; an action that cannot be reverted stops the process.
unfoldable pub revert_slots :
    (ℕ → Result (Unit {0})) → List SignalWatch → Signals → Outcome (List SignalWatch × Signals)
unfolding change_sig_action
revert_slots reply [] s = done ([], s)
revert_slots reply (w ∷ ws) s =
    let changed = change_sig_action (reply w.sig_num) w.sig_num w.sig_action s in
    let kept = revert_slots reply ws s in
    let rest = revert_slots reply ws changed.1 in
    if w.watched
    then (elim changed.0 [
      | err e ↦ abort
      | ok old ↦ rest >>= λ r. done (record w { watched = false } ∷ r.0, r.1)
    ])
    else (kept >>= λ r. done (w ∷ r.0, r.1))

-- `ert_watchProcessSignals()`: whether sigaction() succeeds in the loop, and in the reverts.
unfoldable pub watch_signals :
    (ℕ → Result (Unit {0}))
    → (ℕ → Result (Unit {0}))
    → MethodId
    → Watches
    → Outcome (Result (Unit {0}) × Watches)
unfolding watch_slots revert_slots
watch_signals reply revert method p =
    let r = watch_slots reply p.slots p.signals in
    elim r.0 [
      | ok _ ↦ done (ok tt, record { method = some method; slots = r.1; signals = r.2 })
      | err e ↦ revert_slots revert r.1 r.2 >>= λ q.
          done (err e, record { method = none; slots = q.0; signals = q.1 })
    ]

-- The loop of `resetProcessSignalsWatch_()`, which goes on after an error and returns the first one.
pub first_error : Result (Unit {0}) → Result (Unit {0}) → Result (Unit {0})
first_error (ok _) r = r
first_error (err e) r = err e

-- A slot stays watched where its action is put back.
unfoldable pub reset_slots :
    (ℕ → Result (Unit {0}))
    → List SignalWatch
    → Signals
    → Result (Unit {0}) × List SignalWatch × Signals
unfolding change_sig_action first_error
reset_slots reply [] s = (ok tt, [], s)
reset_slots reply (w ∷ ws) s =
    let changed = change_sig_action (reply w.sig_num) w.sig_num w.sig_action s in
    let kept = reset_slots reply ws s in
    let rest = reset_slots reply ws changed.1 in
    if w.watched
    then (elim changed.0 [
      | err e ↦ (first_error (err e) rest.0, record w { watched = false } ∷ rest.1, rest.2)
      | ok old ↦ (rest.0, w ∷ rest.1, rest.2)
    ])
    else (kept.0, w ∷ kept.1, kept.2)

-- `ert_unwatchProcessSignals()`
unfoldable pub unwatch_signals : (ℕ → Result (Unit {0})) → Watches → Result (Unit {0}) × Watches
unfolding reset_slots
unwatch_signals reply p =
    let r = reset_slots reply p.slots p.signals in
    (r.0, record { method = none; slots = r.1; signals = r.2 })
