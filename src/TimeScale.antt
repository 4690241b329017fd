-- ===== src/TimeScale.antt =====
-- src/timescale.c and src/ert/timescale.h: durations as 64-bit counts at a scale, and the
-- conversions between scales and the system's time structures. The one-field structs (NanoSeconds,
-- Duration, ...) are the number that they hold. A `time_t` that the code converts is not negative.
pub mod Scaling
pub mod Convert
pub mod Shorten
mod Tests
use libert.Base.{
  ℕ, ◌+◌, ◌-◌, ◌*◌, ◌/◌, ◌%◌, Bool, true, false, not, ◌&&◌, ltb, ◌==◌, nonzero, if◌then◌else◌, u64,
  sub64, Outcome, done, abort,
}

abbrev pub NanoSeconds : Type 0
NanoSeconds = ℕ

abbrev pub Duration : Type 0
Duration = ℕ

-- `enum Ert_TimeScale`
abbrev pub scale_ns : ℕ
scale_ns = 1000 * 1000 * 1000

abbrev pub scale_us : ℕ
scale_us = 1000 * 1000

abbrev pub scale_ms : ℕ
scale_ms = 1000

abbrev pub scale_s : ℕ
scale_s = 1

-- `!! n`
abbrev pub truth : ℕ → ℕ
truth n = if nonzero n then 1 else 0

-- The branch of `ert_changeTimeScale_()` towards more resolution: the overflow check ends the process.
scale_up : ℕ → ℕ → Outcome ℕ
scale_up src_time factor =
    let dst_time = u64 (src_time * factor) in
    if dst_time / factor == src_time then done dst_time else abort

-- `ert_changeTimeScale_()`; the scales are `size_t` of 64 bits.
unfoldable pub change_time_scale : ℕ → ℕ → ℕ → Outcome ℕ
unfolding scale_up
change_time_scale src_time src_scale dst_scale =
    if ltb src_scale dst_scale
    then scale_up src_time (dst_scale / src_scale)
    else if ltb dst_scale src_scale
    then done (src_time / (src_scale / dst_scale) + truth (src_time % (src_scale / dst_scale)))
    else done src_time

-- `ERT_NSECS`, `ERT_MSECS` and `ERT_SECS`
unfoldable pub nsecs_of : ℕ → ℕ → Outcome ℕ
nsecs_of scale t = change_time_scale t scale scale_ns

unfoldable pub msecs_of : ℕ → ℕ → Outcome ℕ
msecs_of scale t = change_time_scale t scale scale_ms

-- `struct timespec`, `struct timeval` and `struct itimerval`
pub record TimeSpec : Type 0 where
  pub tv_sec : ℕ
  pub tv_nsec : ℕ

pub record TimeVal : Type 0 where
  pub tv_sec : ℕ
  pub tv_usec : ℕ

pub record IntervalTimer : Type 0 where
  pub it_interval : TimeVal
  pub it_value : TimeVal

-- `ert_earliestTime()`
pub earliest_time : TimeSpec → TimeSpec → TimeSpec
earliest_time lhs rhs =
    if ltb lhs.tv_sec rhs.tv_sec
    then lhs
    else if lhs.tv_sec == rhs.tv_sec && ltb lhs.tv_nsec rhs.tv_nsec
    then lhs
    else rhs

-- `ert_timeValToNanoSeconds()`
pub time_val_to_nanoseconds : TimeVal → NanoSeconds
time_val_to_nanoseconds t = u64 (u64 (u64 (t.tv_sec * 1000 * 1000) + t.tv_usec) * 1000)

-- `ert_timeValFromNanoSeconds()`
pub time_val_from_nanoseconds : NanoSeconds → TimeVal
time_val_from_nanoseconds ns = record { tv_sec = ns / scale_ns; tv_usec = ns % scale_ns / 1000 }

-- `ert_timeSpecToNanoSeconds()`
unfoldable pub time_spec_to_nanoseconds : TimeSpec → NanoSeconds
time_spec_to_nanoseconds t = u64 (u64 (t.tv_sec * 1000 * 1000 * 1000) + t.tv_nsec)

-- `ert_timeSpecFromNanoSeconds()`
unfoldable pub time_spec_from_nanoseconds : NanoSeconds → TimeSpec
time_spec_from_nanoseconds ns = record { tv_sec = ns / scale_ns; tv_nsec = ns % scale_ns }

-- `ert_shortenIntervalTime()`: `it_value` by the time elapsed, or by the phase in the period.
pub shorten_interval_time : IntervalTimer → Duration → IntervalTimer
shorten_interval_time timer elapsed =
    let alarm_time = time_val_to_nanoseconds timer.it_value in
    let alarm_period = time_val_to_nanoseconds timer.it_interval in
    if ltb elapsed alarm_time
    then record timer { it_value = time_val_from_nanoseconds (sub64 alarm_time elapsed) }
    else if nonzero alarm_time
    then if not (nonzero alarm_period)
      then record timer { it_value = timer.it_interval }
      else record timer {
        it_value =
            time_val_from_nanoseconds
              (sub64 alarm_period (sub64 elapsed alarm_time % alarm_period));
      }
    else timer
