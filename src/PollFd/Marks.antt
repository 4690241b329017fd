-- ===== src/PollFd/Marks.antt =====
-- The marks of the timers and the time: what is left of a period, and when a timer is due.
use libert.Base.{
  ℕ, ◌+◌, ◌-◌, ◌≤◌, ◌<◌, ◌≡◌, Bool, true, false, not, ◌&&◌, ◌||◌, some, List, [], ◌∷◌, leb, nonzero,
  if◌then◌else◌, u64_mod, done, abort, arith, Bool-cases, ltb→lt, inl, inr,
}
use libert.TimeKeeping.{EventClockTime, deadline_time_expired}
use libert.PollFd.{Timer}

-- What is left of a timer's period; a timer with no mark starts at the time.
abbrev pub left : EventClockTime → Timer → ℕ
left time t = if nonzero t.since then t.since + t.period - time else t.period

-- The same of the timers that are on.
abbrev pub lefts : EventClockTime → List Timer → List ℕ
lefts time [] = []
lefts time (t ∷ ts) = if nonzero t.period then left time t ∷ lefts time ts else lefts time ts

-- A timer whose mark is not ahead of the time, in 64 bits.
abbrev pub IsTimely : EventClockTime → Timer → Type 0
IsTimely time t = (t.since ≤ time) × (t.period < u64_mod)

-- The timers that are on, set, and a whole period old.
abbrev pub is_due : EventClockTime → Timer → Bool
is_due time t = nonzero t.period && nonzero t.since && leb (t.since + t.period) time

abbrev pub any_due : EventClockTime → List Timer → Bool
any_due time [] = false
any_due time (t ∷ ts) = is_due time t || any_due time ts

-- The test of a timer that is on, and the mark that it leaves.
pub tested :
    (time : ℕ) (t : Timer)
    → 0 < time
    → time < u64_mod
    → IsTimely time t
    → 0 < t.period
    → (mark : ℕ) × (deadline_time_expired t.since t.period (some time) abort
        ≡ done (record {
          expired = not (nonzero (left time t));
          remaining = left time t;
          since = mark;
        }))
      × (0 < mark)
      × (mark ≤ time)
      × (mark + t.period ≤ time + left time t)
unfolding deadline_time_expired
tested time t pos ht h hp = elim (Bool-cases (nonzero t.since)) [
  | inl marked ↦
      (t.since, ground (arith, marked), ltb→lt 0 t.since marked, h.0, ground (arith, marked))
  | inr unmarked ↦ (time, ground (arith, unmarked), pos, omega arith, ground (arith, unmarked))
]

pub is_due-left :
    (time mark : ℕ) (t : Timer)
    → nonzero t.period ≡ true
    → 0 < mark
    → mark + t.period ≤ time
    → is_due time (record t { since = mark }) ≡ true
is_due-left time mark t on pos le = ground (arith, on)
