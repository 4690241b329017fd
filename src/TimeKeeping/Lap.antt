-- ===== src/TimeKeeping/Lap.antt =====
-- Lap times keep the phase of the mark that they started from.
use native.Mathlib.Nat.{div-add-mod', mod-lt, mod-le}
use native.Mathlib.Decide.{ℕ_discrete}
use libert.Base.{
  ℕ, ◌+◌, ◌-◌, ◌*◌, ◌/◌, ◌%◌, ◌≤◌, ◌<◌, ◌≡◌, ◌≢◌, ◌↔◌, true, false, some, leb, u64_mod, sub64,
  arith, Outcome, done, ◌>>=◌, Bool-cases, inl, inr, lt→ltb, leb→lt,
}
use libert.TimeKeeping.{
  EventClockTime, Expiry, deadline_time_expired, lap_time_since, lap_time_trigger, lap_time_delay,
}

-- A lap of a mark that is set and not ahead of the time, with a period: the whole time since the
-- mark is returned, and the mark moves on by whole periods until less than one period lies between
-- it and the time.
pub lap_time_since-phase :
    (since period time : ℕ) (clock : Outcome EventClockTime)
    → 0 < since
    → 0 < period
    → since ≤ time
    → time < u64_mod
    → (n mark : ℕ) × (lap_time_since since period (some time) clock ≡ done (time - since, mark))
      × (mark ≡ since + n * period)
      × (mark ≤ time)
      × (time < mark + period)
unfolding lap_time_since
lap_time_since-phase since period time clock pos hp le ht = elim (Bool-cases (leb period d)) [
  | inl over ↦ (
    d / period,
    time - d % period,
    rw (lt→ltb _ _ pos, lt→ltb _ _ hp, elapsed, over, back),
    omega (arith, div-add-mod' d period, mod-le d period),
    omega arith,
    omega (arith, mod-lt d hp, mod-le d period),
  )
  | inr under ↦ (
    0,
    since,
    rw (lt→ltb _ _ pos, lt→ltb _ _ hp, elapsed, under),
    omega arith,
    le,
    omega (arith, leb→lt period d under),
  )
]
  where
    d : ℕ
    d = time - since

    elapsed : sub64 time since ≡ d
    elapsed = omega arith

    back : sub64 time (d % period) ≡ time - d % period
    back = omega (arith, mod-le d period)

-- For a time that is set: a triggered deadline is expired when it is tested at the time of the
-- trigger, exactly unless that time is the period. Then the mark is 0, which stands for no mark,
-- and the deadline starts afresh.
pub lap_time_trigger-expired :
    (period time : ℕ) (clock : Outcome EventClockTime)
    → 0 < time
    → time < u64_mod
    → period < u64_mod
    → (e : Expiry EventClockTime) × ((lap_time_trigger period (some time) clock >>= λ since.
          deadline_time_expired since period (some time) clock)
        ≡ done e)
      × ((e.expired ≡ true) ↔ (time ≢ period))
unfolding lap_time_trigger deadline_time_expired
lap_time_trigger-expired period time clock pos ht hp = elim (ℕ_discrete time period) [
  | yes same ↦
      (record { expired = false; remaining = period; since = time }, ground arith, ground arith)
  | no other ↦ (
    record { expired = true; remaining = 0; since = sub64 time period },
    ground arith,
    ground arith,
  )
]

-- A delay that moves a mark, set and not ahead of the time, beyond the time makes the deadline
-- expired at once, for every period that does not reach round to the mark: the time elapsed is
-- taken modulo 2^64.
pub lap_time_delay-expires_early :
    (since delay period time : ℕ) (clock : Outcome EventClockTime)
    → 0 < since
    → since ≤ time
    → time < since + delay
    → since + delay < u64_mod
    → period + (since + delay - time) ≤ u64_mod
    → (lap_time_delay since delay >>= λ mark. deadline_time_expired mark period (some time) clock)
      ≡ done (record { expired = true; remaining = 0; since = since + delay })
unfolding lap_time_delay deadline_time_expired
lap_time_delay-expires_early since delay period time clock pos le late fits reach = ground arith
