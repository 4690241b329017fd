-- ===== src/PollFd/Tests.antt =====
-- The poll loop at concrete times.
use libert.Base.{
  ℕ, ◌≡◌, refl, ◌<◌, inr, ◌>>=◌, ◌++◌, if◌then◌else◌, ◌==◌, Option, none, some, List, [], ◌∷◌,
  length, done, Errno, ran, arith,
}
use libert.PollFd.{PollSlot, Timer, Loop, choose_timers, wait_ms, poll_turn, serve}
use libert.PollFd.Marks.{lefts}
use libert.PollFd.Timeout.{least, round_ms, choose_timers-wait_ms}
use libert.PollFd.Recorded.{
  Call, Log, fd_call, timer_call, recorder, perform, ready, due, settled, serve-recorded,
}
use libert.PollFd.Progress.{quiet, succeed, poll_turn-progress}
use mathlib.Core.Option

-- Two timers that started at 1,000 ns, the one with 5 ms and the other with 2 ms, and one that is off.
abbrev timers : List Timer
timers =
    record { period = 5000000; since = 1000 }
    ∷ record { period = 2000000; since = 1000 }
    ∷ record { period = 0; since = 0 }
    ∷ []

-- One slot that waits for input, with what has come.
abbrev slots : ℕ → List PollSlot
slots revents = record { fd = 3; events = 1; revents = revents } ∷ []

abbrev loop : ℕ → Loop Log
loop revents = record { slots = slots revents; timers = timers; world = [] }

least_left : least none (lefts 2000 timers) ≡ some 1999000
least_left = refl

-- The second timer fails.
abbrev second_fails : Call → Option Errno
second_fails (fd_call ix) = none
second_fails (timer_call ix) = if ix == 1 then some 5 else none

choose_timers-wait_ms_example :
    (choose_timers 2000 0 timers (record { timeout = 0; chosen = 3; num_active = 0 }) >>= λ r.
    wait_ms r.1)
    ≡ done (Option.map round_ms (least none (lefts 2000 timers)))
choose_timers-wait_ms_example =
    choose_timers-wait_ms 2000 3 timers (omega arith) (omega arith) (omega arith)

serve-recorded_example :
    (done_slots : List PollSlot) × (marked : List Timer) × (serve
        (recorder second_fails 1 3)
        3000000
        1
        (loop 1)
      ≡ settled second_fails done_slots marked
          (perform second_fails [] (ready 0 (slots 1) ++ due 3000000 0 timers))
          tt)
serve-recorded_example =
    serve-recorded second_fails 3000000 1 (loop 1) (omega arith) (omega arith) (omega arith)
      (inr (omega arith))

poll_turn-progress_example :
    (l' : Loop Log) × (poll_turn (recorder succeed 1 3) (quiet 2000 2002000 [] []) (loop 0)
      ≡ ran l' tt)
    × (0 < length l'.world)
poll_turn-progress_example =
    poll_turn-progress 2000 2002000 1999000 [] [] (loop 0) (omega arith) (omega arith) (omega arith)
      refl (omega arith) (omega arith)
