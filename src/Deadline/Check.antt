-- ===== src/Deadline/Check.antt =====
-- What one call of `ert_checkDeadlineExpired()` returns, and when it reports that time is out.
use libert.Base.{
  ℕ, ◌+◌, ◌≤◌, ◌<◌, ◌≡◌, ◌⊎◌, inl, inr, true, false, Option, none, some, u64_mod, done, etimedout,
  Errno, ok, err, arith, Bool-cases, Option-cases, sub64,
}
use libert.TimeScale.{Duration}
use libert.TimeKeeping.{EventClockTime, deadline_time_expired}
use libert.Deadline.{
  SigContCount, Deadline, Ready, fetch_sigcont_tracker, finish_check, expire_check, timed_check,
  check_deadline_expired,
}

-- The clock runs, and does not go behind the mark.
pub record IsTimely (d : Deadline) (time : EventClockTime) : Type 0 where
  pub set : 0 < time
  pub fits : time < u64_mod
  pub not_before : d.since ≤ time
  pub tracked : 0 < d.sigcont_tracker

-- Time is out: a period is set, the mark is set, a whole period lies behind, and the process has not
-- been continued since the tracker was read.
pub record IsOut (d : Deadline) (time : EventClockTime) (count : SigContCount) : Type 0 where
  pub period : Duration
  pub limited : d.duration ≡ some period
  pub marked : 0 < d.since
  pub passed : d.since + period ≤ time
  pub running : d.sigcont_tracker ≡ fetch_sigcont_tracker count

finish_check-deadline :
    (d : Deadline) (n : ℕ) (waited : Ready) {r : Ready} {d' : Deadline}
    → finish_check d n waited ≡ done (r, d')
    → (d' ≡ d) × ((x : Errno) → r ≡ err x → waited ≡ err x)
unfolding finish_check
finish_check-deadline d n waited e = ground arith

expire_check-marks :
    (d : Deadline) (count : SigContCount) {r : Ready} {d' : Deadline}
    → expire_check d count ≡ done (r, d')
    → d.expired ≡ false
    → d'.expired ≡ true
    → (d.sigcont_tracker ≡ fetch_sigcont_tracker count) × (r ≡ err etimedout)
unfolding expire_check
expire_check-marks d count e fresh marked = ground arith

timed_check-marks :
    (d : Deadline) (period : Duration) (count : SigContCount) (n : ℕ)
    (wait : Option Duration → Ready) {r : Ready} {d' : Deadline}
    → IsTimely d d.time
    → timed_check d period count n wait ≡ done (r, d')
    → d.expired ≡ false
    → d'.expired ≡ true
    → (0 < d.since)
      × (d.since + period ≤ d.time)
      × (d.sigcont_tracker ≡ fetch_sigcont_tracker count)
      × (r ≡ err etimedout)
unfolding timed_check deadline_time_expired
timed_check-marks d period count n wait v e fresh marked = ground (
  arith,
  finish_check-deadline (record d { since = d.time; remaining = period }) n (wait (some period)),
  finish_check-deadline (record d { remaining = sub64 period (sub64 d.time d.since) }) n
      (wait (some (sub64 period (sub64 d.time d.since)))),
  expire_check-marks (record d { remaining = 0 }) count,
)

-- Of a deadline that has not expired, a check whose clock reading is set and not before the mark,
-- and whose poll did not fail, either finds time out, marks the deadline expired and returns -1
-- with `ETIMEDOUT`, also where the poll found the event ready; or it does not find time out, and
-- does not mark the deadline.
pub check_deadline_expired-IsOut :
    (d : Deadline) (time : EventClockTime) (count : SigContCount) (n : ℕ)
    (wait : Option Duration → Ready) {r : Ready} {d' : Deadline}
    → IsTimely d time
    → d.expired ≡ false
    → check_deadline_expired d (done time) count (ok n) wait ≡ done (r, d')
    → (IsOut d time count × (d'.expired ≡ true) × (r ≡ err etimedout))
      ⊎ ((¬ IsOut d time count) × (d'.expired ≡ false))
unfolding check_deadline_expired deadline_time_expired expire_check
check_deadline_expired-IsOut d time count n wait {r} {d'} v fresh e = elim (Bool-cases d'.expired) [
  | inl m ↦ inl (marks m)
  | inr unmarked ↦ inr (λ out. ground arith, unmarked)
]
  where
    marks : d'.expired ≡ true → IsOut d time count × (d'.expired ≡ true) × (r ≡ err etimedout)
    marks m = elim (Option-cases d.duration) [
      | inl unlimited ↦
          ground (arith, finish_check-deadline (record d { time = time }) n (wait none))
      | inr (p, limited) ↦
          let f =
            timed_check-marks (record d { time = time }) p count n wait {r = r} {d' = d'}
              (omega arith) (ground arith) fresh m in
          (
            record { period = p; limited = limited; marked = f.0; passed = f.1; running = f.2 },
            m,
            f.3,
          )
    ]
