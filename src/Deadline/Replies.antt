-- ===== src/Deadline/Replies.antt =====
-- `ert_checkDeadlineExpired()` returns, with a reply of its contract.
use native.Mathlib.Decide.{ℕ_discrete, dec_lt}
use libert.Base.{
  ℕ, ◌+◌, ◌≤◌, ◌<◌, ◌≡◌, true, Option, none, some, u64_mod, done, etimedout, Errno, ok, err, arith,
  refl, sub64,
}
use libert.TimeScale.{Duration}
use libert.TimeKeeping.{EventClockTime, deadline_time_expired}
use libert.Deadline.{
  SigContCount, Deadline, Ready, Checked, fetch_sigcont_tracker, finish_check, expire_check,
  timed_check, limited_check, check_deadline_expired,
}
use libert.Deadline.Check.{IsTimely}

-- The replies that the contract of the poll and wait methods allows.
pub data IsReply : Ready → Type 0 where
  not_ready : IsReply (ok 0)
  ready : IsReply (ok 1)
  failed : (e : Errno) → IsReply (err e)

finish-IsReply :
    (d : Deadline) {poll waited : Ready} (n : ℕ)
    → IsReply poll
    → poll ≡ ok n
    → IsReply waited
    → (c : Checked) × (finish_check d n waited ≡ done c) × IsReply c.0
unfolding finish_check
finish-IsReply d n not_ready e not_ready = ((ok 0, d), ground arith, not_ready)
finish-IsReply d n not_ready e ready = ((ok 1, d), ground arith, ready)
finish-IsReply d n not_ready e (failed x) = ((err x, d), ground arith, failed x)
finish-IsReply d n ready e not_ready = ((ok 1, d), ground arith, ready)
finish-IsReply d n ready e _ = ((ok 1, d), ground arith, ready)
finish-IsReply d n (failed x) e _ = cc

-- The three ways of a timed check.
timed_check-unset :
    (d : Deadline) (period : Duration) (count : SigContCount) (n : ℕ)
    (wait : Option Duration → Ready)
    → d.since ≡ 0
    → 0 < d.time
    → timed_check d period count n wait
      ≡ finish_check (record d { since = d.time; remaining = period }) n (wait (some period))
unfolding timed_check deadline_time_expired
timed_check-unset d period count n wait unset pos = ground arith

timed_check-running :
    (d : Deadline) (period : Duration) (count : SigContCount) (n : ℕ)
    (wait : Option Duration → Ready)
    → 0 < d.since
    → d.since ≤ d.time
    → d.time < u64_mod
    → d.time < d.since + period
    → timed_check d period count n wait
      ≡ finish_check
          (record d { remaining = sub64 period (sub64 d.time d.since) })
          n
          (wait (some (sub64 period (sub64 d.time d.since))))
unfolding timed_check deadline_time_expired
timed_check-running d period count n wait pos le fits early = ground arith

timed_check-out :
    (d : Deadline) (period : Duration) (count : SigContCount) (n : ℕ)
    (wait : Option Duration → Ready)
    → 0 < d.since
    → d.since + period ≤ d.time
    → d.time < u64_mod
    → timed_check d period count n wait ≡ expire_check (record d { remaining = 0 }) count
unfolding timed_check deadline_time_expired
timed_check-out d period count n wait pos late fits = ground arith

expire-IsReply :
    (d : Deadline) (count : SigContCount)
    → 0 < d.sigcont_tracker
    → (c : Checked) × (expire_check d count ≡ done c) × IsReply c.0
unfolding expire_check
expire-IsReply d count pos = elim (ℕ_discrete d.sigcont_tracker (fetch_sigcont_tracker count)) [
  | yes same ↦ (
    (err etimedout, record d { sigcont_tracker = fetch_sigcont_tracker count; expired = true }),
    ground arith,
    failed etimedout,
  )
  | no moved ↦ (
    (ok 0, record d { sigcont_tracker = fetch_sigcont_tracker count; since = 0 }),
    ground arith,
    not_ready,
  )
]

timed-IsReply :
    (d : Deadline) (period : Duration) (count : SigContCount) {poll : Ready} (n : ℕ)
    (wait : Option Duration → Ready)
    → IsTimely d d.time
    → IsReply poll
    → poll ≡ ok n
    → ((t : Option Duration) → IsReply (wait t))
    → (c : Checked) × (timed_check d period count n wait ≡ done c) × IsReply c.0
timed-IsReply d period count n wait v p e w = elim (ℕ_discrete d.since 0) [
  | yes unset ↦
      rw (timed_check-unset d period count n wait unset v.set) (finish-IsReply _ n p e (w _))
  | no marked ↦ elim (dec_lt d.time (d.since + period)) [
    | yes early ↦
        rw (timed_check-running d period count n wait (omega arith) v.not_before v.fits early)
          (finish-IsReply _ n p e (w _))
    | no late ↦
        rw (timed_check-out d period count n wait (omega arith) (omega arith) v.fits)
          (expire-IsReply _ count v.tracked)
  ]
]

limited-IsReply :
    (limit : Option Duration) (d : Deadline) (count : SigContCount) {poll : Ready} (n : ℕ)
    (wait : Option Duration → Ready)
    → IsTimely d d.time
    → IsReply poll
    → poll ≡ ok n
    → ((t : Option Duration) → IsReply (wait t))
    → (c : Checked) × (limited_check limit d count n wait ≡ done c) × IsReply c.0
unfolding limited_check
limited-IsReply none d count n wait v p e w = finish-IsReply d n p e (w none)
limited-IsReply (some period) d count n wait v p e w = timed-IsReply d period count n wait v p e w

-- Where the clock reading is set and not before the mark, and the methods keep their contract (0,
-- 1 or -1), a check returns, with one of those replies: its assertions hold.
pub check_deadline_expired-IsReply :
    (d : Deadline) (time : EventClockTime) (count : SigContCount) {poll : Ready}
    (wait : Option Duration → Ready)
    → IsTimely d time
    → IsReply poll
    → ((t : Option Duration) → IsReply (wait t))
    → (c : Checked) × (check_deadline_expired d (done time) count poll wait ≡ done c) × IsReply c.0
unfolding check_deadline_expired
check_deadline_expired-IsReply d time count wait v (failed x) w =
    ((err x, record d { time = time }), refl, failed x)
check_deadline_expired-IsReply d time count wait v not_ready w =
    limited-IsReply d.duration (record d { time = time }) count 0 wait (omega arith) not_ready refl
      w
check_deadline_expired-IsReply d time count wait v ready w =
    limited-IsReply d.duration (record d { time = time }) count 1 wait (omega arith) ready refl w
