-- ===== src/TimeScale/Tests.antt =====
-- The conversions at concrete times.
use libert.Base.{◌*◌, ◌≡◌, refl, done, arith}
use libert.TimeScale.{
  TimeSpec, IntervalTimer, scale_ns, scale_ms, change_time_scale, time_val_to_nanoseconds,
  time_val_from_nanoseconds, shorten_interval_time,
}
use libert.TimeScale.Shorten.{shorten_interval_time-disarms}

rounds_up : change_time_scale 1_000_001 scale_ns scale_ms ≡ done 2
unfolding change_time_scale
rounds_up = refl

abbrev half_past : TimeSpec
half_past = record { tv_sec = 7; tv_nsec = 500_000_000 }

-- Due in 10 seconds, and then every 4.
abbrev timer : IntervalTimer
timer = record {
  it_interval = record { tv_sec = 4; tv_usec = 0 };
  it_value = record { tv_sec = 10; tv_usec = 0 };
}

shorten_in_period :
    (shorten_interval_time timer (11 * scale_ns)).it_value ≡ record { tv_sec = 3; tv_usec = 0 }
unfolding shorten_interval_time time_val_to_nanoseconds time_val_from_nanoseconds
shorten_in_period = refl

abbrev once : IntervalTimer
once = record timer { it_interval = record { tv_sec = 0; tv_usec = 0 } }

shorten_interval_time-disarms_example :
    (shorten_interval_time timer 9_999_999_500).it_value ≡ record { tv_sec = 0; tv_usec = 0 }
unfolding time_val_to_nanoseconds
shorten_interval_time-disarms_example =
    shorten_interval_time-disarms timer 9_999_999_500 (omega arith) (omega arith)
