-- ===== src/TimeScale/Convert.antt =====
-- The system's time structures against nanoseconds: both round trips.
use libert.Base.{ℕ, ◌+◌, ◌-◌, ◌*◌, ◌%◌, ◌<◌, ◌≡◌, u64_mod, arith}
use libert.TimeScale.{
  NanoSeconds, TimeSpec, scale_ns, time_spec_to_nanoseconds, time_spec_from_nanoseconds,
  time_val_to_nanoseconds, time_val_from_nanoseconds,
}

-- The nanoseconds that a normalised time stands for, if they fit in 64 bits.
pub record IsNormal (t : TimeSpec) : Type 0 where
  pub nsec_below : t.tv_nsec < scale_ns
  pub fits : t.tv_sec * scale_ns + t.tv_nsec < u64_mod

time_spec_to-exact :
    (t : TimeSpec) → IsNormal t → time_spec_to_nanoseconds t ≡ t.tv_sec * scale_ns + t.tv_nsec
unfolding time_spec_to_nanoseconds
time_spec_to-exact t v = omega arith

-- Nanoseconds of 64 bits survive the way through `struct timespec`, which comes out normalised, and
-- a normalised time that fits in 64 bits survives the way through nanoseconds.
pub time_spec_round_trip :
    (ns : NanoSeconds) (t : TimeSpec)
    → ns < u64_mod
    → IsNormal t
    → (time_spec_to_nanoseconds (time_spec_from_nanoseconds ns) ≡ ns)
      × IsNormal (time_spec_from_nanoseconds ns)
      × (time_spec_from_nanoseconds (time_spec_to_nanoseconds t) ≡ t)
unfolding time_spec_to_nanoseconds time_spec_from_nanoseconds
time_spec_round_trip ns t h v = (omega arith, omega arith, ground (arith, exact))
  where
    exact : time_spec_to_nanoseconds t ≡ t.tv_sec * scale_ns + t.tv_nsec
    exact = time_spec_to-exact t v

-- Nanoseconds of 64 bits through `struct timeval` lose what is below a microsecond, and no more.
pub time_val_round_trip :
    (ns : ℕ)
    → ns < u64_mod
    → time_val_to_nanoseconds (time_val_from_nanoseconds ns) ≡ ns - ns % 1000
unfolding time_val_to_nanoseconds time_val_from_nanoseconds
time_val_round_trip ns h = omega arith
