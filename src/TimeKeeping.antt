-- ===== src/TimeKeeping.antt =====
-- src/timekeeping.c: the clocks, and the expiry and lap functions over a mark time.
-- `clock_gettime()` is not the library's: what one call returns is an argument, `none` where it
-- fails. A function that takes the time as an optional pointer takes an `Option`, and beside it the
-- reading that `ert_eventclockTime()` or `ert_monotonicTime()` would give in its place.
pub mod Clock
pub mod Deadlines
pub mod Lap
mod Tests
use libert.Base.{
  ℕ, ◌+◌, ◌-◌, ◌%◌, ◌/◌, ◌^◌, Bool, true, false, ◌&&◌, Option, none, some, leb, nonzero,
  if◌then◌else◌, u64, sub64, Outcome, done, abort, ◌>>=◌, ◌>>◌, ensure, Errno, einval, ◌==◌, Result,
  ok, err, List, [], ◌∷◌, eintr,
}
use libert.TimeScale.{
  NanoSeconds, Duration, TimeSpec, scale_ns, time_spec_to_nanoseconds, time_spec_from_nanoseconds,
}

-- Readings of the clocks. An event clock time of 0 stands for one that is not set.
abbrev pub EventClockTime : Type 0
EventClockTime = NanoSeconds

abbrev pub MonotonicTime : Type 0
MonotonicTime = NanoSeconds

-- `ert_monotonicTime()`
unfoldable pub monotonic_time : Option TimeSpec → Outcome MonotonicTime
monotonic_time none = abort
monotonic_time (some ts) = done (time_spec_to_nanoseconds ts)

-- `ert_wallclockTime()`
pub wallclock_time : Option TimeSpec → Outcome NanoSeconds
wallclock_time none = abort
wallclock_time (some ts) = done (time_spec_to_nanoseconds ts)

-- `ert_bootclockTime()`: a kernel without the boot clock (`EINVAL`) has the time of /proc/uptime.
pub bootclock_time : Result TimeSpec → Result Duration → Outcome NanoSeconds
bootclock_time (ok ts) uptime = done (time_spec_to_nanoseconds ts)
bootclock_time (err e) (ok uptime) =
    if e == einval
    then done (
        time_spec_to_nanoseconds
          (record { tv_sec = uptime / scale_ns; tv_nsec = uptime % scale_ns }))
    else abort
bootclock_time (err e) (err _) = abort

-- The module's static variables: `moduleInit_` and `eventClockTimeBase_`.
pub record TimeKeepingModule : Type 0 where
  pub module_init : ℕ
  pub event_clock_time_base : MonotonicTime

-- `eventclockTime_init_()`
eventclock_time_init : TimeKeepingModule → Option TimeSpec → Outcome TimeKeepingModule
unfolding monotonic_time
eventclock_time_init m ts = do
  now ← monotonic_time ts
  done (record m { event_clock_time_base = sub64 now 1 })

-- `ert_eventclockTime()`
unfoldable pub eventclock_time : TimeKeepingModule → Option TimeSpec → Outcome EventClockTime
unfolding monotonic_time
eventclock_time m ts = do
  now ← monotonic_time ts
  ensure (nonzero (sub64 now m.event_clock_time_base))
  done (sub64 now m.event_clock_time_base)

-- `Ert_Timekeeping_init()` and `Ert_Timekeeping_exit()`; `moduleInit_` is an `unsigned`.
pub timekeeping_init : TimeKeepingModule → Option TimeSpec → Outcome TimeKeepingModule
unfolding eventclock_time_init
timekeeping_init m ts = do
  m' ← if nonzero m.module_init then done m else eventclock_time_init m ts
  done (record m' { module_init = (m'.module_init + 1) % 2 ^ 32 })

pub timekeeping_exit : TimeKeepingModule → TimeKeepingModule
timekeeping_exit m = record m { module_init = (m.module_init + 2 ^ 32 - 1) % 2 ^ 32 }

-- What an optional pointer to a time means: the time, or a reading of the clock.
abbrev pub time_or : Option NanoSeconds → Outcome NanoSeconds → Outcome NanoSeconds
time_or (some t) clock = done t
time_or none clock = clock

-- What an expiry test returns, with the mark time that it leaves.
pub record Expiry (Mark : Type 0) : Type 0 where
  pub expired : Bool
  pub remaining : Duration
  pub since : Mark

-- The comparison of a mark that is set with the time.
measure_expiry : {Mark : Type 0} → Mark → NanoSeconds → Duration → NanoSeconds → Expiry Mark
measure_expiry mark since period time =
    if leb period (sub64 time since)
    then record { expired = true; remaining = 0; since = mark }
    else record { expired = false; remaining = sub64 period (sub64 time since); since = mark }

-- `ert_deadlineTimeExpired()`
unfoldable pub deadline_time_expired :
    EventClockTime
    → Duration
    → Option EventClockTime
    → Outcome EventClockTime
    → Outcome (Expiry EventClockTime)
unfolding measure_expiry
deadline_time_expired since period a_time clock = do
  time ← time_or a_time clock
  if nonzero since then done (measure_expiry since since period time) else (do
    ensure (nonzero time)
    done (record { expired = false; remaining = period; since = time }))

-- `ert_monotonicDeadlineTimeExpired()`: whether the mark is set is a pointer of its own.
pub monotonic_deadline_time_expired :
    Option MonotonicTime
    → Duration
    → Option MonotonicTime
    → Outcome MonotonicTime
    → Outcome (Expiry (Option MonotonicTime))
unfolding measure_expiry
monotonic_deadline_time_expired (some since) period a_time clock = do
  time ← time_or a_time clock
  done (measure_expiry (some since) since period time)
monotonic_deadline_time_expired none period a_time clock = do
  time ← time_or a_time clock
  done (record { expired = false; remaining = period; since = some time })

-- `ert_lapTimeTrigger()`
pub lap_time_trigger :
    Duration → Option EventClockTime → Outcome EventClockTime → Outcome EventClockTime
lap_time_trigger period a_time clock = do time ← time_or a_time clock; done (sub64 time period)

-- `ert_lapTimeRestart()`
pub lap_time_restart :
    EventClockTime → Option EventClockTime → Outcome EventClockTime → Outcome EventClockTime
lap_time_restart since a_time clock = do ensure (nonzero since); time_or a_time clock

-- `ert_lapTimeDelay()`
pub lap_time_delay : EventClockTime → Duration → Outcome EventClockTime
lap_time_delay since delay = do ensure (nonzero since); done (u64 (since + delay))

-- `ert_lapTimeSince()`: the lap time, and the mark that it leaves.
unfoldable pub lap_time_since :
    EventClockTime
    → Duration
    → Option EventClockTime
    → Outcome EventClockTime
    → Outcome (Duration × EventClockTime)
lap_time_since since period a_time clock = do
  time ← time_or a_time clock
  let lap = sub64 time since
  if nonzero since
      then done
          (lap, (if nonzero period && leb period lap then sub64 time (lap % period) else since))
      else (do ensure (nonzero time); done (0, time))

-- `ert_monotonicSleep()`: `replies` are the returns of `clock_nanosleep()`, call by call, each for
-- the same wake time; `none` where they end before the loop does.
sleep_loop : List Errno → Option (Outcome ℕ)
sleep_loop [] = none
sleep_loop (rc ∷ replies) =
    let rest = sleep_loop replies in if rc == eintr then rest else some (ensure (rc == 0) >> done 0)

pub monotonic_sleep : MonotonicTime → Duration → List Errno → TimeSpec × Option (Outcome ℕ)
unfolding sleep_loop
monotonic_sleep now period replies =
    (time_spec_from_nanoseconds (u64 (now + period)), sleep_loop replies)
