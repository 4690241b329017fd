-- ===== src/PollFd/Progress.antt =====
-- A turn that waits out its timeout calls an action: the loop neither spins nor oversleeps a timer.
use libert.Base.{
  ℕ, ◌+◌, ◌*◌, ◌≤◌, ◌<◌, ◌≡◌, refl, sym, ◌∙◌, ap, subst, Bool, ◌||◌, true, false, Option, none,
  some, List, [], ◌∷◌, ◌++◌, length, length-append, All, u64_mod, int_max, Errno, done, ok, ran,
  arith, Bool-cases, ◌⊎◌, inl, inr,
}
use mathlib.Core.List.{append-nil, append_assoc}
use mathlib.Core.Bool.{true≢false}
use libert.PollFd.{
  PollSlot, Timer, Loop, Turn, Choice, store_revents, poll_turn, poll_wait, poll_now, serve,
}
use libert.PollFd.Marks.{lefts, IsTimely, is_due, any_due}
use libert.PollFd.Timeout.{
  least, round_ms, choose_timers-Chosen, wait_ms-shown, shown, shown-timeout,
}
use libert.PollFd.Recorded.{
  Call, Log, recorder, perform, whole, ready, due, settled, serve-recorded,
}

-- A turn at the given times in which no descriptor has an event.
abbrev pub quiet : ℕ → ℕ → List ℕ → List ℕ → Turn
quiet start latched first second = record {
  started = done start;
  waited = λ wait. ok (0, first);
  latched = done latched;
  polled = ok (0, second) ∷ [];
}

abbrev pub succeed : Call → Option Errno
succeed c = none

perform-succeed : (log cs : List Call) → perform succeed log cs ≡ whole (log ++ cs)
perform-succeed log [] = rw (append-nil log) refl
perform-succeed log (c ∷ cs) =
    perform-succeed (log ++ (c ∷ [])) cs ∙ ap whole (append_assoc log (c ∷ []) cs)

store_revents-length :
    (rs : List ℕ) (slots : List PollSlot) → length (store_revents rs slots) ≡ length slots
unfolding store_revents
store_revents-length [] [] = refl
store_revents-length [] (s ∷ slots) = refl
store_revents-length (r ∷ rs) [] = refl
store_revents-length (r ∷ rs) (s ∷ slots) = omega (arith, store_revents-length rs slots)

is_due-later : (a b : ℕ) (t : Timer) → a ≤ b → is_due a t ≡ true → is_due b t ≡ true
is_due-later a b t le h = ground arith

or_second : (p q : Bool) → p ≡ false → (p || q) ≡ true → q ≡ true
or_second p q off h = subst (λ (b : Bool). (b || q) ≡ true) off h

sooner_not : {p q : Bool} → ((p ≡ true) → q ≡ true) → q ≡ false → p ≡ false
sooner_not {p} h off = elim (Bool-cases p) [
  | inl on ↦ absurd (true≢false (sym (h on) ∙ off))
  | inr already ↦ already
]

any_due-length :
    (a b ix : ℕ) (ts : List Timer) → a ≤ b → any_due a ts ≡ true → 0 < length (due b ix ts)
any_due-length a b ix [] le h = absurd (ground arith)
any_due-length a b ix (t ∷ ts) le h = elim (Bool-cases (is_due b t)) [
  | inl now ↦ rw now (omega arith)
  | inr not_now ↦ rw not_now (
      any_due-length a b _ ts le
        (or_second (is_due a t) _ (sooner_not (is_due-later a b t le) not_now) h))
]

All-later : (a b : ℕ) (ts : List Timer) → a ≤ b → All (IsTimely a) ts → All (IsTimely b) ts
All-later a b [] le h = tt
All-later a b (t ∷ ts) le h = ((omega (arith, h.0.0), h.0.1), All-later a b ts le h.1)

some_due :
    {a : Bool} (r : List Timer × Choice) (ns : ℕ)
    → shown r.1 ≡ some ns
    → (shown r.1 ≡ none) ⊎ (a ≡ true)
    → a ≡ true
some_due r ns has h = ground arith

serve-sized :
    (fds timers time : ℕ) (l : Loop Log)
    → length l.slots ≡ fds
    → length l.timers ≡ timers
    → 0 < time
    → time < u64_mod
    → All (IsTimely time) l.timers
    → (slots : List PollSlot) × (marked : List Timer) × (serve
          (recorder succeed fds timers)
          time
          0
          l
        ≡ settled succeed slots marked
            (perform succeed l.world (ready 0 l.slots ++ due time 0 l.timers))
            tt)
serve-sized fds timers time l hf hs pos ht timely =
    rw (sym hf, sym hs) (serve-recorded succeed time 0 l pos ht timely (inl refl))

-- When no descriptor has an event and the first `poll(2)` lasts as long as it was asked to, which
-- was not cut at `INT_MAX`, the turn succeeds and calls the action of a timer. The marks of the
-- timers are not ahead of the start of the turn, the times have 64 bits, a timer is on, and the
-- actions succeed and write down their calls.
pub poll_turn-progress :
    (start latched ns : ℕ) (first second : List ℕ) (l : Loop Log)
    → 0 < start
    → latched < u64_mod
    → All (IsTimely start) l.timers
    → least none (lefts start l.timers) ≡ some ns
    → round_ms ns < int_max
    → start + round_ms ns * 1000000 ≤ latched
    → (l' : Loop Log) × (poll_turn
          (recorder succeed (length l.slots) (length l.timers))
          (quiet start latched first second)
          l
        ≡ ran l' tt)
      × (length l.world < length l'.world)
unfolding poll_turn poll_wait poll_now
poll_turn-progress start latched ns first second l pos ht timely has short slept =
    let chosen =
      choose_timers-Chosen start 0 l.timers initial pos (omega arith) timely (inl (refl, refl)) in
    let is_ns : shown chosen.0.1 ≡ some ns = chosen.2.choice-shown ∙ has in
    let over = shown-timeout chosen.0.1 ns is_ns in
    let asleep : Loop Log = record { slots = slots; timers = chosen.0.0; world = l.world } in
    let served =
      serve-sized (length l.slots) (length l.timers) latched asleep slots-length
        chosen.2.timers-length (omega arith) ht
        (All-later start latched chosen.0.0 (omega arith) chosen.2.timers-IsTimely) in
    let fired =
      any_due-length (start + chosen.0.1.timeout) latched 0 chosen.0.0 (omega (arith, over))
        (some_due chosen.0 ns is_ns chosen.2.timers-due) in
    (
      record { slots = served.0; timers = served.1; world = l.world ++ calls chosen.0.0 },
      rw (chosen.1, wait_ms-shown chosen.0.1, served.2, perform-succeed l.world (calls chosen.0.0))
          refl,
      omega (
        arith,
        length-append l.world (calls chosen.0.0),
        length-append (ready 0 slots) (due latched 0 chosen.0.0),
        fired,
      ),
    )
  where
    initial : Choice
    initial = record { timeout = 0; chosen = length l.timers; num_active = 0 }

    slots : List PollSlot
    slots = store_revents second (store_revents first l.slots)

    slots-length : length slots ≡ length l.slots
    slots-length = store_revents-length second _ ∙ store_revents-length first l.slots

    calls : List Timer → List Call
    calls timers = ready 0 slots ++ due latched 0 timers
