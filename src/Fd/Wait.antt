-- ===== src/Fd/Wait.antt =====
-- Waiting until a descriptor is ready. One turn of the loop has the reading of the clock, the replies
-- of the two calls of `poll()`, and the count of SIGCONT at the check. A reply is the `revents` of
-- the one slot, which is 0 exactly if `poll()` returns 0.
use Prim.Native.Nat.{bit_and}
use libert.Base.{
  ℕ, ◌+◌, Bool, false, not, Option, none, some, List, [], ◌∷◌, ◌==◌, nonzero, if◌then◌else◌, eintr,
  Outcome, abort, Result, ok, err, Ran, ran, failed, starved, then_run, within,
}
use libert.TimeScale.{Duration, scale_ns, msecs_of}
use libert.TimeKeeping.{EventClockTime, deadline_time_expired}
use libert.Deadline.{SigContCount, fetch_sigcont_tracker, check_sigcont_tracker}
use libert.PollFd.{clip_ms}

-- The bits of `events` and `revents`.
abbrev pub poll_in : ℕ
poll_in = 1

abbrev pub poll_pri : ℕ
poll_pri = 2

abbrev pub poll_out : ℕ
poll_out = 4

abbrev pub poll_hup : ℕ
poll_hup = 16

pub record WaitTurn : Type 0 where
  pub time : Outcome EventClockTime
  pub raced : Result ℕ
  pub count : SigContCount
  pub polled : Option ℕ → Result ℕ

-- The variables of the loop.
pub record Wait : Type 0 where
  pub since : EventClockTime
  pub tracker : ℕ
  pub revents : ℕ

-- The poll before the deadline is checked; an interruption leaves `revents`.
unfoldable pub race_poll : Result ℕ → Wait → Ran Wait (Unit {0})
race_poll (ok revents) w = ran (record w { revents = revents }) tt
race_poll (err e) w = if e == eintr then ran w tt else failed w e

-- The poll that waits, and whether it ends the loop.
unfoldable pub last_poll : Result ℕ → Wait → Ran Wait Bool
last_poll (ok revents) w = ran (record w { revents = revents }) (nonzero revents)
last_poll (err e) w = if e == eintr then ran w false else failed w e

-- A deadline that has passed: a process that was continued waits for the whole period again.
unfoldable pub end_wait : SigContCount → Wait → Ran Wait Bool
unfolding check_sigcont_tracker
end_wait count w = within (check_sigcont_tracker w.tracker count) (λ checked.
    ran (record w { tracker = checked.1; since = if checked.0 then 0 else w.since })
      (not checked.0))

-- What follows the first poll: whether the loop is left.
unfoldable pub timed_wait : Option Duration → EventClockTime → WaitTurn → Wait → Ran Wait Bool
unfolding last_poll end_wait
timed_wait none tm t w = last_poll (t.polled none) w
timed_wait (some period) tm t w =
    within (deadline_time_expired w.since period (some tm) abort) (λ e.
      let w' = record w { since = e.since } in
      if e.expired
      then end_wait t.count w'
      else within (msecs_of scale_ns e.remaining)
          (λ ms. last_poll (t.polled (some (clip_ms ms))) w'))

unfoldable pub wait_turn : Option Duration → WaitTurn → Wait → Ran Wait Bool
unfolding race_poll timed_wait
wait_turn timeout t w =
    within t.time (λ tm. then_run (race_poll t.raced w) (λ w' _. timed_wait timeout tm t w'))

unfoldable pub wait_loop : ℕ → Option Duration → List WaitTurn → Wait → Ran Wait ℕ
unfolding wait_turn
wait_loop mask timeout [] w = starved
wait_loop mask timeout (t ∷ turns) w = then_run (wait_turn timeout t w) (λ w' leaves.
    let more = wait_loop mask timeout turns w' in
    if leaves then ran w' (if nonzero (bit_and w'.revents mask) then 1 else 0) else more)

-- `waitFdReady_()`; the count of SIGCONT is that at its start.
unfoldable pub wait_fd_ready : ℕ → Option Duration → SigContCount → List WaitTurn → Ran Wait ℕ
unfolding wait_loop fetch_sigcont_tracker
wait_fd_ready mask timeout count turns =
    wait_loop mask timeout turns
      (record { since = 0; tracker = fetch_sigcont_tracker count; revents = 0 })

-- `ert_waitFdWriteReady()` and `ert_waitFdReadReady()`
unfoldable pub wait_fd_write_ready : Option Duration → SigContCount → List WaitTurn → Ran Wait ℕ
unfolding wait_fd_ready
wait_fd_write_ready timeout count turns = wait_fd_ready poll_out timeout count turns

unfoldable pub wait_fd_read_ready : Option Duration → SigContCount → List WaitTurn → Ran Wait ℕ
unfolding wait_fd_ready
wait_fd_read_ready timeout count turns = wait_fd_ready (poll_pri + poll_in) timeout count turns
