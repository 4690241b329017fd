-- ===== src/TimeKeeping/Deadlines.antt =====
-- When `ert_deadlineTimeExpired()` reports that a deadline has passed.
use libert.Base.{
  ℕ, ◌+◌, ◌-◌, ◌≤◌, ◌<◌, ◌≡◌, Bool, false, some, List, [], ◌∷◌, map, All, leb, u64_mod, arith,
  Outcome, done, abort, ◌>>=◌, refl,
}
use libert.TimeScale.{Duration}
use libert.TimeKeeping.{EventClockTime, deadline_time_expired}

-- With the mark set and the time not behind it, a deadline has expired exactly from `since + period`
-- on; before that the rest of the period remains, and after it nothing. The mark stays.
pub deadline_time_expired-set :
    (since period time : ℕ) (clock : Outcome EventClockTime)
    → 0 < since
    → since ≤ time
    → time < u64_mod
    → period < u64_mod
    → deadline_time_expired since period (some time) clock
      ≡ done (record {
        expired = leb (since + period) time;
        remaining = since + period - time;
        since = since;
      })
unfolding deadline_time_expired
deadline_time_expired-set since period time clock pos le ht hp = ground arith

-- A caller that tests one deadline again and again, at the times given.
abbrev pub poll_expiry : EventClockTime → Duration → List EventClockTime → Outcome (List Bool)
poll_expiry since period [] = done []
poll_expiry since period (t ∷ ts) = do
  e ← deadline_time_expired since period (some t) abort
  rest ← poll_expiry e.since period ts
  done (e.expired ∷ rest)

poll_expiry-set :
    (since period : ℕ) (ts : List EventClockTime)
    → 0 < since
    → period < u64_mod
    → All (λ t. (since ≤ t) × (t < u64_mod)) ts
    → poll_expiry since period ts ≡ done (map (λ t. leb (since + period) t) ts)
poll_expiry-set since period [] pos hp h = refl
poll_expiry-set since period (t ∷ ts) pos hp h = rw (
  deadline_time_expired-set since period t abort pos h.0.0 h.0.1 hp,
  poll_expiry-set since period ts pos hp h.1,
)

pub expired_unset :
    (time period : ℕ)
    → 0 < time
    → deadline_time_expired 0 period (some time) abort
      ≡ done (record { expired = false; remaining = period; since = time })
unfolding deadline_time_expired
expired_unset time period pos = ground arith

-- A deadline that starts with no mark lets the first test through, even with an empty period; at
-- later times of 64 bits it is expired exactly from a whole period after the first test on.
pub poll_expiry_lem :
    (first period : ℕ) (ts : List EventClockTime)
    → 0 < first
    → period < u64_mod
    → All (λ t. (first ≤ t) × (t < u64_mod)) ts
    → poll_expiry 0 period (first ∷ ts) ≡ done (false ∷ map (λ t. leb (first + period) t) ts)
poll_expiry_lem first period ts pos hp h = rw (first_test, poll_expiry-set first period ts pos hp h)
  where
    first_test :
        deadline_time_expired 0 period (some first) abort
        ≡ done (record { expired = false; remaining = period; since = first })
    first_test = expired_unset first period pos
