-- ===== src/TimeKeeping/Tests.antt =====
-- The clocks, deadlines and lap times at concrete times.
use libert.Base.{◌+◌, ◌≡◌, refl, true, some, done, abort, ◌>>=◌, arith}
use libert.TimeScale.{TimeSpec, time_spec_to_nanoseconds}
use libert.TimeKeeping.{TimeKeepingModule, timekeeping_init, deadline_time_expired, lap_time_delay}
use libert.TimeKeeping.Lap.{lap_time_delay-expires_early}

abbrev fresh : TimeKeepingModule
fresh = record { module_init = 0; event_clock_time_base = 0 }

abbrev started : TimeKeepingModule
started = record { module_init = 1; event_clock_time_base = 2_000_000_004 }

abbrev first_reading : TimeSpec
first_reading = record { tv_sec = 2; tv_nsec = 5 }

abbrev second_reading : TimeSpec
second_reading = record { tv_sec = 3; tv_nsec = 0 }

init_started : timekeeping_init fresh (some first_reading) ≡ done started
unfolding timekeeping_init time_spec_to_nanoseconds
init_started = refl

lap_time_delay-expires_early_example :
    (lap_time_delay 10 100 >>= λ mark. deadline_time_expired mark 1_000 (some 20) abort)
    ≡ done (record { expired = true; remaining = 0; since = 10 + 100 })
lap_time_delay-expires_early_example =
    lap_time_delay-expires_early 10 100 1_000 20 abort (omega arith) (omega arith) (omega arith)
      (omega arith) (omega arith)
