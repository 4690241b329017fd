-- ===== src/Deadline.antt =====
-- src/deadline.c, with the SIGCONT tracker of src/process.c: waiting for an event until a period has
-- passed, which starts again when the process was stopped and continued meanwhile.
-- The poll and wait methods are the caller's: what the one call of each returns is an argument, a
-- number that is not negative or the errno of a -1. So is the clock's reading.
pub mod Check
pub mod Replies
pub mod Restart
mod Tests
use libert.Base.{
  ℕ, ◌+◌, ◌*◌, ◌/◌, ◌%◌, ◌^◌, Bool, true, false, ◌||◌, not, Option, none, some, leb, nonzero,
  if◌then◌else◌, ◌==◌, Outcome, done, abort, ◌>>=◌, ◌>>◌, ensure, Errno, etimedout, Result, ok, err,
}
use libert.TimeScale.{Duration}
use libert.TimeKeeping.{EventClockTime, Expiry, deadline_time_expired}

-- `processSigCont_.mCount`, an `unsigned` that the handler `sigCont_()` steps by 2.
abbrev pub SigContCount : Type 0
SigContCount = ℕ

pub sigcont : SigContCount → SigContCount
sigcont count = (count + 2) % 2 ^ 32

-- `fetchProcessSigContTracker_()`: `1 | count`.
unfoldable pub fetch_sigcont_tracker : SigContCount → ℕ
fetch_sigcont_tracker count = count / 2 * 2 + 1

-- `ert_checkProcessSigContTracker()`: whether the count has moved, and the new tracker.
unfoldable pub check_sigcont_tracker : ℕ → SigContCount → Outcome (Bool × ℕ)
unfolding fetch_sigcont_tracker
check_sigcont_tracker tracker count = do
  ensure (nonzero tracker)
  done (not (tracker == fetch_sigcont_tracker count), fetch_sigcont_tracker count)

-- `struct Ert_Deadline`; `mDuration` points at `mDuration_` or nowhere.
pub record Deadline : Type 0 where
  pub since : EventClockTime
  pub time : EventClockTime
  pub remaining : Duration
  pub sigcont_tracker : ℕ
  pub duration : Option Duration
  pub expired : Bool

-- `ert_createDeadline()`
pub create_deadline : Option Duration → SigContCount → Deadline
unfolding fetch_sigcont_tracker
create_deadline duration count = record {
  since = 0;
  time = 0;
  remaining = 0;
  sigcont_tracker = fetch_sigcont_tracker count;
  duration = duration;
  expired = false;
}

-- What the methods return, and what a check returns with the deadline that it leaves.
abbrev pub Ready : Type 0
Ready = Result ℕ

abbrev pub Checked : Type 0
Checked = Ready × Deadline

-- The end of the loop's body: the wait, if the poll found nothing.
pub finish_check : Deadline → ℕ → Ready → Outcome Checked
finish_check d ready waited = elim (if nonzero ready then ok ready else waited) [
  | err e ↦ done (err e, d)
  | ok r ↦ ensure ((r == 1) || (r == 0)) >> done (ok r, d)
]

-- The deadline has passed: a process that was continued starts its period again.
pub expire_check : Deadline → SigContCount → Outcome Checked
unfolding check_sigcont_tracker
expire_check d count = do
  (continued, tracker) ← check_sigcont_tracker d.sigcont_tracker count
  done (
      if continued
      then (ok 0, record d { sigcont_tracker = tracker; since = 0 })
      else (err etimedout, record d { sigcont_tracker = tracker; expired = true }))

pub timed_check :
    Deadline → Duration → SigContCount → ℕ → (Option Duration → Ready) → Outcome Checked
unfolding finish_check expire_check
timed_check d period count ready wait = do
  e ← deadline_time_expired d.since period (some d.time) abort
  let d' = record d { since = e.since; remaining = e.remaining }
  if e.expired then expire_check d' count else finish_check d' ready (wait (some e.remaining))

-- What follows a poll that did not fail.
pub limited_check :
    Option Duration → Deadline → SigContCount → ℕ → (Option Duration → Ready) → Outcome Checked
unfolding timed_check finish_check
limited_check none d count ready wait = finish_check d ready (wait none)
limited_check (some period) d count ready wait = timed_check d period count ready wait

-- `ert_checkDeadlineExpired()`
pub check_deadline_expired :
    Deadline
    → Outcome EventClockTime
    → SigContCount
    → Ready
    → (Option Duration → Ready)
    → Outcome Checked
unfolding limited_check
check_deadline_expired self clock count poll wait = do
  time ← clock
  let d = record self { time = time }
  elim poll [ err e ↦ done (err e, d) | ok ready ↦ limited_check d.duration d count ready wait ]
