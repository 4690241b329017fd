-- ===== src/TimeKeeping/Clock.antt =====
-- The event clock over the monotonic clock.
use libert.Base.{◌+◌, ◌-◌, ◌≤◌, ◌<◌, ◌≡◌, some, u64_mod, arith, done}
use libert.TimeScale.{TimeSpec, time_spec_to_nanoseconds}
use libert.TimeKeeping.{TimeKeepingModule, eventclock_time, timekeeping_init}

time_spec_to-lt : (t : TimeSpec) → time_spec_to_nanoseconds t < u64_mod
unfolding time_spec_to_nanoseconds
time_spec_to-lt t = omega arith

-- Once the first initialisation has read the clock, a later reading that has not gone back, and has
-- not moved on by 2^64 - 1 nanoseconds, succeeds and counts from that moment, starting at 1: it is
-- never the 0 of a time that is not set.
pub eventclock_time-init :
    (m : TimeKeepingModule) (start now : TimeSpec) {m' : TimeKeepingModule}
    → m.module_init ≡ 0
    → timekeeping_init m (some start) ≡ done m'
    → time_spec_to_nanoseconds start ≤ time_spec_to_nanoseconds now
    → time_spec_to_nanoseconds now - time_spec_to_nanoseconds start + 1 < u64_mod
    → eventclock_time m' (some now)
      ≡ done (time_spec_to_nanoseconds now - time_spec_to_nanoseconds start + 1)
unfolding timekeeping_init eventclock_time
eventclock_time-init m start now h e le fits =
    ground (arith, time_spec_to-lt start, time_spec_to-lt now)
