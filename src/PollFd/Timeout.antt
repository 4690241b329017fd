-- ===== src/PollFd/Timeout.antt =====
-- How long the loop asks `poll(2)` to wait.
use mathlib.Core.Option
use libert.Base.{
  ℕ, suc, ◌+◌, ◌/◌, ◌≤◌, ◌<◌, ◌≡◌, refl, sym, ◌∙◌, subst, leb→le, leb→lt, ap, length, ◌||◌, Bool,
  ◌⊎◌, inl, inr, true, false, ltb→lt, Option, none, some, List, [], ◌∷◌, All, min, leb, nonzero,
  if◌then◌else◌, u64_mod, int_max, done, ◌>>=◌, arith, Bool-cases,
}
use libert.TimeScale.{scale_ns, msecs_of, change_time_scale}
use libert.PollFd.Marks.{left, lefts, IsTimely, any_due, tested, is_due-left}
use libert.PollFd.{Timer, Choice, choose_timers, consider, wait_ms, clip_ms}

abbrev pub lesser : Option ℕ → ℕ → Option ℕ
lesser none n = some n
lesser (some m) n = some (min m n)

-- The least of a list of numbers, after one that is least so far.
abbrev pub least : Option ℕ → List ℕ → Option ℕ
least m [] = m
least m (n ∷ ns) = least (lesser m n) ns

-- Milliseconds for nanoseconds, rounded up, as far as an `int` goes.
abbrev pub round_ms : ℕ → ℕ
round_ms ns = min int_max ((ns + 999999) / 1000000)

-- What a choice stands for.
abbrev pub shown : Choice → Option ℕ
shown c = if nonzero c.num_active then some c.timeout else none

abbrev pub IsChoice : Choice → Type 0
IsChoice c = ((c.num_active ≡ 0) × (c.timeout ≡ 0)) ⊎ ((0 < c.num_active) × (0 < c.timeout))

least-zero : (ns : List ℕ) → least (some 0) ns ≡ some 0
least-zero [] = refl
least-zero (n ∷ ns) = ground (arith, least-zero ns)

consider-shown :
    (ix n : ℕ) (c : Choice)
    → IsChoice c
    → 0 < n
    → (shown (consider ix n c) ≡ lesser (shown c) n) × IsChoice (consider ix n c)
unfolding consider
consider-shown ix n c h pos = (ground arith, ground arith)

ltb→zero : (n : ℕ) → nonzero n ≡ false → n ≡ 0
ltb→zero n h = ground arith

lesser-zero : (c : Choice) → IsChoice c → lesser (shown c) 0 ≡ some 0
lesser-zero c h = ground arith

msecs_of-clip :
    (ns : ℕ) → (msecs_of scale_ns ns >>= λ ms. done (some (clip_ms ms))) ≡ done (some (round_ms ns))
unfolding msecs_of change_time_scale clip_ms
msecs_of-clip ns = ground arith

pub wait_ms-shown : (c : Choice) → wait_ms c ≡ done (Option.map round_ms (shown c))
unfolding wait_ms
wait_ms-shown c = elim (Bool-cases (nonzero c.num_active)) [
  | inl active ↦ rw (active, msecs_of-clip c.timeout) refl
  | inr idle ↦ rw idle refl
]

-- What the loop that chooses leaves: the least that is left, and timers of which one is due when
-- that time is over, unless the choice stays what it was.
pub record Chosen (time : ℕ) (ts : List Timer) (c : Choice) (r : List Timer × Choice) : Type 0 where
  pub choice-shown : shown r.1 ≡ least (shown c) (lefts time ts)
  pub timers-length : length r.0 ≡ length ts
  pub timers-IsTimely : All (IsTimely time) r.0
  pub timers-due : (shown r.1 ≡ shown c) ⊎ (any_due (time + r.1.timeout) r.0 ≡ true)

pub or_right : (a b : Bool) → b ≡ true → (a || b) ≡ true
or_right true b h = refl
or_right false b h = h

pub or_left : (a b : Bool) → a ≡ true → (a || b) ≡ true
or_left a b h = rw h refl

lesser-either : (o : Option ℕ) (n : ℕ) → (lesser o n ≡ o) ⊎ (lesser o n ≡ some n)
lesser-either none n = inr refl
lesser-either (some m) n = elim (Bool-cases (leb m n)) [
  | inl le ↦ inl (ap some (omega (arith, leb→le m n le)))
  | inr gt ↦ inr (ap some (omega (arith, leb→lt m n gt)))
]

pub shown-timeout : (c : Choice) (n : ℕ) → shown c ≡ some n → c.timeout ≡ n
shown-timeout c n h = ground arith

-- A timer that was considered is due when what was left of it is over, unless the choice before it
-- or one of the timers after it stands.
considered-due :
    (time mark : ℕ) (t : Timer) (c : Choice) (r : List Timer × Choice)
    → nonzero t.period ≡ true
    → 0 < mark
    → mark + t.period ≤ time + left time t
    → (shown r.1 ≡ lesser (shown c) (left time t)) ⊎ (any_due (time + r.1.timeout) r.0 ≡ true)
    → (shown r.1 ≡ shown c)
      ⊎ (any_due (time + r.1.timeout) (record t { since = mark } ∷ r.0) ≡ true)
considered-due time mark t c r on pos le (inr later) = inr (or_right _ _ later)
considered-due time mark t c r on pos le (inl same) = elim (lesser-either (shown c) (left time t)) [
  | inl stays ↦ inl (same ∙ stays)
  | inr moves ↦
      let ends = shown-timeout r.1 (left time t) (same ∙ moves) in
      inr (or_left _ _ (is_due-left (time + r.1.timeout) mark t on pos (omega (arith, ends, le))))
]

later_due :
    {A : Type 0} (time : ℕ) (t : Timer) (ts : List Timer)
    → A ⊎ (any_due time ts ≡ true)
    → A ⊎ (any_due time (t ∷ ts) ≡ true)
later_due time t ts (inl a) = inl a
later_due time t ts (inr later) = inr (or_right _ _ later)

pub choose_timers-Chosen :
    (time ix : ℕ) (ts : List Timer) (c : Choice)
    → 0 < time
    → time < u64_mod
    → All (IsTimely time) ts
    → IsChoice c
    → (r : List Timer × Choice) × (choose_timers time ix ts c ≡ done r) × Chosen time ts c r
unfolding choose_timers
choose_timers-Chosen time ix [] c pos ht h hc = (
  ([], c),
  refl,
  record { choice-shown = refl; timers-length = refl; timers-IsTimely = tt; timers-due = inl refl },
)
choose_timers-Chosen time ix (t ∷ ts) c pos ht h hc = elim (Bool-cases (nonzero t.period)) [
  | inl on ↦
      let test = tested time t pos ht h.0 (ltb→lt 0 t.period on) in
      elim (Bool-cases (nonzero (left time t))) [
        | inl running ↦
            let after = consider-shown ix (left time t) c hc (ltb→lt 0 (left time t) running) in
            let rest =
              choose_timers-Chosen time (suc ix) ts (consider ix (left time t) c) pos ht h.1
                after.1 in
            (
              (record t { since = test.0 } ∷ rest.0.0, rest.0.1),
              rw (on, test.1, running, rest.1) refl,
              record {
                choice-shown = rw (on, rest.2.choice-shown, after.0) refl;
                timers-length = ap suc rest.2.timers-length;
                timers-IsTimely = ((test.3, h.0.1), rest.2.timers-IsTimely);
                timers-due = considered-due time test.0 t c rest.0 on test.2 test.4 (
                    subst
                      (λ (o : Option ℕ).
                        (shown rest.0.1 ≡ o) ⊎ (any_due (time + rest.0.1.timeout) rest.0.0 ≡ true))
                      after.0 rest.2.timers-due);
              },
            )
        | inr due ↦ (
          (
            record t { since = test.0 } ∷ ts,
            record { timeout = 0; chosen = ix; num_active = suc c.num_active },
          ),
          rw (on, test.1, due) refl,
          record {
            choice-shown = sym (
                rw (on, ltb→zero (left time t) due, lesser-zero c hc, least-zero (lefts time ts))
                  (ground arith));
            timers-length = refl;
            timers-IsTimely = ((test.3, h.0.1), h.1);
            timers-due = inr (
                rw
                  (is_due-left (time + 0) test.0 t on test.2
                    (omega (arith, test.4, ltb→zero (left time t) due)))
                  refl);
          },
        )
      ]
  | inr off ↦
      let rest = choose_timers-Chosen time (suc ix) ts c pos ht h.1 hc in
      (
        (t ∷ rest.0.0, rest.0.1),
        rw (off, rest.1) refl,
        record {
          choice-shown = rw off rest.2.choice-shown;
          timers-length = ap suc rest.2.timers-length;
          timers-IsTimely = (h.0, rest.2.timers-IsTimely);
          timers-due = later_due (time + rest.0.1.timeout) t rest.0.0 rest.2.timers-due;
        },
      )
]

-- `poll(2)` is asked to wait for the least that is left of the timers that are on, rounded up to
-- milliseconds and cut at `INT_MAX`; not at all where one has expired, and without limit where none
-- is on. The time is set, the marks are not ahead of it, and both they and the periods have 64 bits.
pub choose_timers-wait_ms :
    (time size : ℕ) (ts : List Timer)
    → 0 < time
    → time < u64_mod
    → All (IsTimely time) ts
    → (choose_timers time 0 ts (record { timeout = 0; chosen = size; num_active = 0 }) >>= λ r.
        wait_ms r.1)
      ≡ done (Option.map round_ms (least none (lefts time ts)))
choose_timers-wait_ms time size ts pos ht h =
    let initial : Choice = record { timeout = 0; chosen = size; num_active = 0 } in
    let r = choose_timers-Chosen time 0 ts initial pos ht h (inl (refl, refl)) in
    rw (r.1, wait_ms-shown r.0.1, r.2.choice-shown) refl
