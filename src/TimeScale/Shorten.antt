-- ===== src/TimeScale/Shorten.antt =====
-- `ert_shortenIntervalTime()`: when the shortened timer next expires.
use native.Mathlib.Nat.{div-add-mod', mod-lt}
use libert.Base.{
  ℕ, ◌+◌, ◌-◌, ◌*◌, ◌/◌, ◌%◌, ◌≤◌, ◌<◌, ◌≡◌, ◌⊎◌, inl, inr, false, refl, ltb, u64_mod, sub64,
  lt→ltb, ltb→lt, ltb→le, Bool-cases, tests, arith,
}
use libert.TimeScale.{
  NanoSeconds, Duration, TimeVal, IntervalTimer, time_val_to_nanoseconds, time_val_from_nanoseconds,
  shorten_interval_time,
}
use libert.TimeScale.Convert.{time_val_round_trip}

time_val_to-lt : (t : TimeVal) → time_val_to_nanoseconds t < u64_mod
unfolding time_val_to_nanoseconds
time_val_to-lt t = omega arith

-- When the timer is due, and how long its period is.
abbrev pub due : IntervalTimer → NanoSeconds
due timer = time_val_to_nanoseconds timer.it_value

abbrev pub period : IntervalTimer → NanoSeconds
period timer = time_val_to_nanoseconds timer.it_interval

-- The next expiry after `elapsed` of a timer first due at `alarm`, and then every `period`.
pub record NextExpiry (alarm period elapsed remaining : ℕ) : Type 0 where
  pub periods : ℕ
  pub on_schedule : elapsed + remaining ≡ alarm + periods * period
  pub later : 0 < remaining
  pub first : (periods ≡ 0) ⊎ (remaining ≤ period)

before_alarm : (a p e : ℕ) → a < u64_mod → e < a → NextExpiry a p e (sub64 a e)
before_alarm a p e ha h = record {
  periods = 0;
  on_schedule = omega arith;
  later = omega arith;
  first = inl refl;
}

step_back : (d p m q : ℕ) → q * p + m ≡ d → m < p → d + (p - m) ≡ (q + 1) * p
step_back d p m q e h = grind arith

in_period :
    (a p e : ℕ)
    → a < u64_mod
    → p < u64_mod
    → e < u64_mod
    → a ≤ e
    → 0 < p
    → NextExpiry a p e (sub64 p (sub64 e a % p))
in_period a p e ha hp he h pos =
    let d : ℕ = e - a in
    let same : sub64 e a ≡ d = omega arith in
    let below : d % p < p = mod-lt d pos in
    let rest : sub64 p (d % p) ≡ p - d % p = omega arith in
    let back = step_back d p (d % p) (d / p) (div-add-mod' d p) below in
    rw (same, rest)
      (record {
        periods = d / p + 1;
        on_schedule = omega (arith, back);
        later = omega arith;
        first = inr (omega arith);
      })

-- A timer that is set, and is periodic or not yet due, keeps its schedule when it is shortened: its
-- interval is unchanged, and it expires `r` after the time elapsed, where `r` leads to its first
-- expiry then outstanding; what `r` has below a microsecond is dropped.
pub shorten_interval_time-NextExpiry :
    (timer : IntervalTimer) (elapsed : Duration)
    → elapsed < u64_mod
    → 0 < due timer
    → (elapsed < due timer) ⊎ (0 < period timer)
    → (r : NanoSeconds) × NextExpiry (due timer) (period timer) elapsed r
      × (due (shorten_interval_time timer elapsed) ≡ r - r % 1000)
      × ((shorten_interval_time timer elapsed).it_interval ≡ timer.it_interval)
unfolding shorten_interval_time
shorten_interval_time-NextExpiry timer elapsed he pos live =
    elim (Bool-cases (ltb elapsed (due timer))) [
      | inl early ↦ rw early (
        sub64 (due timer) elapsed,
        before_alarm (due timer) (period timer) elapsed (time_val_to-lt _) (ltb→lt _ _ early),
        time_val_round_trip (sub64 (due timer) elapsed) (omega arith),
        refl,
      )
      | inr late ↦
          rw (late, lt→ltb _ _ pos, lt→ltb _ _ (periodic late))
            (
              sub64 (period timer) (sub64 elapsed (due timer) % period timer),
              in_period (due timer) (period timer) elapsed (time_val_to-lt _) (time_val_to-lt _) he
                  (ltb→le _ _ late) (periodic late),
              time_val_round_trip (sub64 (period timer) (sub64 elapsed (due timer) % period timer))
                  (omega arith),
              refl,
            )
    ]
  where
    periodic : ltb elapsed (due timer) ≡ false → 0 < period timer
    periodic late = omega (tests, live)

below_microsecond :
    (r : ℕ) → r < 1000 → time_val_from_nanoseconds r ≡ record { tv_sec = 0; tv_usec = 0 }
unfolding time_val_from_nanoseconds
below_microsecond r h = ground arith

-- A timer due in less than a microsecond comes out with the zero value, which means a timer that is
-- not set.
pub shorten_interval_time-disarms :
    (timer : IntervalTimer) (elapsed : Duration)
    → elapsed < due timer
    → due timer < elapsed + 1000
    → (shorten_interval_time timer elapsed).it_value ≡ record { tv_sec = 0; tv_usec = 0 }
unfolding shorten_interval_time
shorten_interval_time-disarms timer elapsed h near =
    rw (lt→ltb _ _ h) (below_microsecond _ (omega (arith, time_val_to-lt timer.it_value)))
