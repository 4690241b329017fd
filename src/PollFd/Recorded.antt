-- ===== src/PollFd/Recorded.antt =====
-- Which actions a turn of the loop calls, seen by actions that write down that they were called.
use Prim.Native.Nat.{bit_and}
use libert.Base.{
  ℕ, zero, suc, ◌+◌, ◌-◌, ◌*◌, ◌/◌, ◌<◌, ◌⊎◌, ◌≡◌, refl, true, false, Option, none, some, List, [],
  ◌∷◌, ◌++◌, length, get_elem?, set, All, From, From-head, From-next, From-set, From-start, nonzero,
  if◌then◌else◌, u64_mod, Errno, done, abort, Ran, ran, failed, stopped, arith, Bool-cases,
  Option-cases, inl, inr, lt→ltb,
}
use libert.TimeKeeping.{EventClockTime, deadline_time_expired, lap_time_since}
use libert.PollFd.{
  PollSlot, Timer, Loop, PollFd, Callback, serve_fd, serve_fds, run_timer, run_timers, serve,
}
use libert.PollFd.Marks.{IsTimely, is_due}

pub data Call : Type 0 where
  fd_call : ℕ → Call
  timer_call : ℕ → Call

abbrev pub Log : Type 0
Log = List Call

-- Calls that all succeed, or up to the first that fails.
pub data Performed : Type 0 where
  whole : Log → Performed
  broken : Log → Errno → Performed

-- Calls in order up to the first that fails, after those of a log.
abbrev pub perform : (Call → Option Errno) → Log → List Call → Performed
perform outcome log [] = whole log
perform outcome log (c ∷ cs) = elim (outcome c) [
  | none ↦ perform outcome (log ++ (c ∷ [])) cs
  | some e ↦ broken (log ++ (c ∷ [])) e
]

-- The slots with an event that was asked for, from the one at `ix` on.
abbrev pub ready : ℕ → List PollSlot → List Call
ready ix [] = []
ready ix (s ∷ ss) =
    if nonzero (bit_and s.revents s.events)
    then fd_call ix ∷ ready (suc ix) ss
    else ready (suc ix) ss

abbrev pub due : EventClockTime → ℕ → List Timer → List Call
due time ix [] = []
due time ix (t ∷ ts) =
    if is_due time t then timer_call ix ∷ due time (suc ix) ts else due time (suc ix) ts

add_zero : (n : ℕ) → n + 0 ≡ n
add_zero n = omega arith

add_suc : (n m : ℕ) → n + suc m ≡ suc n + m
add_suc n m = omega arith

Performed-cases :
    (p : Performed)
    → ((log : Log) × (p ≡ whole log)) ⊎ ((log : Log) × (e : Errno) × (p ≡ broken log e))
Performed-cases (whole log) = inl (log, refl)
Performed-cases (broken log e) = inr (log, e, refl)

counted :
    (events n : ℕ) → (events ≡ 0) ⊎ (0 < n) → nonzero ((if nonzero events then 0 else 1) + n) ≡ true
counted events n h = ground arith

module _ (outcome : Call → Option Errno) where
  abbrev pub record_call : Call → Callback Log
  record_call c time l = elim (outcome c) [
    | none ↦ ran (record l { world = l.world ++ (c ∷ []) }) tt
    | some e ↦ failed (record l { world = l.world ++ (c ∷ []) }) e
  ]

  -- Every action writes down its call; what it returns is given.
  abbrev pub recorder : ℕ → ℕ → PollFd Log
  recorder fds timers = record {
    completion_query = λ l. (false, l);
    fd_size = fds;
    fd_action = λ ix. some (record_call (fd_call ix));
    timer_size = timers;
    timer_action = λ ix. some (record_call (timer_call ix));
  }

  -- Where a part of a turn has come to, by the calls that it has performed.
  abbrev pub settled {ℓ} :
      {A : Type ℓ} → List PollSlot → List Timer → Performed → A → Ran (Loop Log) A
  settled slots timers (whole log) a =
      ran (record { slots = slots; timers = timers; world = log }) a
  settled slots timers (broken log e) a =
      failed (record { slots = slots; timers = timers; world = log }) e

  serve_fds-recorded :
      (fds timers n ix time count : ℕ) (rest : List PollSlot) (l : Loop Log)
      → length rest ≡ n
      → From l.slots ix rest
      → (slots : List PollSlot) × (serve_fds (recorder fds timers) n ix time count l
          ≡ settled slots l.timers
              (perform outcome l.world (ready ix rest))
              (count + length (ready ix rest)))
  unfolding serve_fds
  serve_fds-recorded fds timers zero ix time count [] l h f = (l.slots, rw (add_zero count) refl)
  serve_fds-recorded fds timers (suc n) ix time count [] l h f = absurd (omega arith)
  serve_fds-recorded fds timers zero ix time count (s ∷ rest) l h f = absurd (omega arith)
  serve_fds-recorded fds timers (suc n) ix time count (s ∷ rest) l h f =
      elim (Bool-cases (nonzero (bit_and s.revents s.events))) [
        | inl asked ↦ elim (Option-cases (outcome (fd_call ix))) [
          | inl succeeds ↦
              let next =
                serve_fds-recorded fds timers n (suc ix) time (suc count) rest
                  (served (l.world ++ (fd_call ix ∷ []))) (omega arith)
                  (From-set l.slots ix s masked rest f) in
              (
                next.0,
                rw
                    (
                      serve_fd,
                      head,
                      asked,
                      record_call,
                      succeeds,
                      add_suc count (length (ready (suc ix) rest)),
                    )
                    next.1,
              )
          | inr fails ↦
              (set l.slots ix masked, rw (serve_fd, head, asked, record_call, fails.1) refl)
        ]
        | inr unasked ↦
            let next =
              serve_fds-recorded fds timers n (suc ix) time count rest (served l.world)
                (omega arith) (From-set l.slots ix s masked rest f) in
            (next.0, rw (serve_fd, head, unasked) next.1)
      ]
    where
      head : get_elem? l.slots ix ≡ some s
      head = From-head l.slots ix s rest f

      masked : PollSlot
      masked = record s { revents = bit_and s.revents s.events }

      served : Log → Loop Log
      served log = record { slots = set l.slots ix masked; timers = l.timers; world = log }

  due-lap :
      (time : ℕ) (t : Timer)
      → 0 < time
      → time < u64_mod
      → IsTimely time t
      → is_due time t ≡ true
      → (mark : ℕ) × (deadline_time_expired t.since t.period (some time) abort
          ≡ done (record { expired = true; remaining = 0; since = t.since }))
        × (lap_time_since t.since t.period (some time) abort ≡ done (time - t.since, mark))
  unfolding lap_time_since deadline_time_expired
  due-lap time t pos ht h fires =
      (t.since + (time - t.since) / t.period * t.period, ground arith, ground arith)

  not_due :
      (time : ℕ) (t : Timer)
      → 0 < time
      → time < u64_mod
      → IsTimely time t
      → nonzero t.period ≡ true
      → is_due time t ≡ false
      → (mark : ℕ) × (rest : ℕ) × (deadline_time_expired t.since t.period (some time) abort
          ≡ done (record { expired = false; remaining = rest; since = mark }))
  unfolding deadline_time_expired
  not_due time t pos ht h on waits = elim (Bool-cases (nonzero t.since)) [
    | inl marked ↦ (t.since, t.period - (time - t.since), ground (arith, marked))
    | inr unmarked ↦ (time, t.period, ground (arith, unmarked))
  ]

  run_timers-recorded :
      (fds timers n ix time : ℕ) (rest : List Timer) (l : Loop Log)
      → 0 < time
      → time < u64_mod
      → length rest ≡ n
      → From l.timers ix rest
      → All (IsTimely time) rest
      → (marked : List Timer) × (run_timers (recorder fds timers) n ix time l
          ≡ settled l.slots marked (perform outcome l.world (due time ix rest)) tt)
  unfolding run_timers
  run_timers-recorded fds timers zero ix time [] l pos ht h f timely = (l.timers, refl)
  run_timers-recorded fds timers (suc n) ix time [] l pos ht h f timely = absurd (omega arith)
  run_timers-recorded fds timers zero ix time (t ∷ rest) l pos ht h f timely = absurd (omega arith)
  run_timers-recorded fds timers (suc n) ix time (t ∷ rest) l pos ht h f timely =
      elim (Bool-cases (nonzero t.period)) [
        | inl on ↦ elim (Bool-cases (is_due time t)) [
          | inl fires ↦
              let lap = due-lap time t pos ht timely.0 fires in
              elim (Option-cases (outcome (timer_call ix))) [
                | inl succeeds ↦
                    let next =
                      run_timers-recorded fds timers n (suc ix) time rest
                        (ticked lap.0 (l.world ++ (timer_call ix ∷ []))) pos ht (omega arith)
                        (From-set l.timers ix t (moved lap.0) rest f) timely.1 in
                    (
                      next.0,
                      rw (run_timer, head, fires, on, lap.1, lap.2, record_call, succeeds) next.1,
                    )
                | inr fails ↦ (
                  set l.timers ix (moved lap.0),
                  rw (run_timer, head, fires, on, lap.1, lap.2, record_call, fails.1) refl,
                )
              ]
          | inr waits ↦
              let test = not_due time t pos ht timely.0 on waits in
              let next =
                run_timers-recorded fds timers n (suc ix) time rest (ticked test.0 l.world) pos ht
                  (omega arith) (From-set l.timers ix t (moved test.0) rest f) timely.1 in
              (next.0, rw (run_timer, head, waits, on, test.2) next.1)
        ]
        | inr off ↦
            let next =
              run_timers-recorded fds timers n (suc ix) time rest l pos ht (omega arith)
                (From-next l.timers ix t rest f) timely.1 in
            (next.0, rw (run_timer, head, off) next.1)
      ]
    where
      head : get_elem? l.timers ix ≡ some t
      head = From-head l.timers ix t rest f

      moved : ℕ → Timer
      moved mark = record t { since = mark }

      ticked : ℕ → Log → Loop Log
      ticked mark log = record {
        slots = l.slots;
        timers = set l.timers ix (moved mark);
        world = log;
      }

  after_calls : Performed → List Call → Performed
  after_calls (whole log) ys = perform outcome log ys
  after_calls (broken log e) ys = broken log e

  perform-append :
      (log xs ys : List Call)
      → perform outcome log (xs ++ ys) ≡ after_calls (perform outcome log xs) ys
  unfolding after_calls
  perform-append log [] ys = refl
  perform-append log (c ∷ xs) ys = elim (Option-cases (outcome c)) [
    | inl succeeds ↦ rw (after_calls, succeeds) (perform-append (log ++ (c ∷ [])) xs ys)
    | inr fails ↦ rw (after_calls, fails.1) refl
  ]

  -- After the second `poll(2)` the loop calls the actions of the slots with an event that was asked
  -- for, in order, and after them those of the timers that are on, set and a whole period old at the
  -- latched time. The first action that fails ends the turn with its error. The condition is that
  -- `poll(2)` reports no event, or one that was asked for; the actions write down their calls.
  pub serve-recorded :
      (time events : ℕ) (l : Loop Log)
      → 0 < time
      → time < u64_mod
      → All (IsTimely time) l.timers
      → (events ≡ 0) ⊎ (0 < length (ready 0 l.slots))
      → (slots : List PollSlot) × (marked : List Timer) × (serve
            (recorder (length l.slots) (length l.timers))
            time
            events
            l
          ≡ settled slots marked
              (perform outcome l.world (ready 0 l.slots ++ due time 0 l.timers))
              tt)
  unfolding serve after_calls
  serve-recorded time events l pos ht timely h =
      let fds =
        serve_fds-recorded (length l.slots) (length l.timers) (length l.slots) 0 time
          (if nonzero events then 0 else 1) l.slots l refl (From-start l.slots) in
      elim (Performed-cases (perform outcome l.world calls)) [
        | inl all ↦
            let timers =
              run_timers-recorded (length l.slots) (length l.timers) (length l.timers) 0 time
                l.timers (record { slots = fds.0; timers = l.timers; world = all.0 }) pos ht refl
                (From-start l.timers) timely in
            (
              fds.0,
              timers.0,
              rw
                  (
                    fds.1,
                    perform-append l.world calls (due time 0 l.timers),
                    all.1,
                    counted events (length calls) h,
                    after_calls,
                  )
                  timers.1,
            )
        | inr some_of ↦ (
          fds.0,
          l.timers,
          rw (fds.1, perform-append l.world calls (due time 0 l.timers), some_of.2) refl,
        )
      ]
    where
      calls : List Call
      calls = ready 0 l.slots

  -- Events that nobody asked for, and no other, stop the process: the loop would be entered again
  -- at once and for ever.
  pub serve-unasked :
      (time events : ℕ) (l : Loop Log)
      → 0 < events
      → ready 0 l.slots ≡ []
      → serve (recorder (length l.slots) (length l.timers)) time events l ≡ stopped
  unfolding serve
  serve-unasked time events l pos none_ready =
      let fds =
        serve_fds-recorded (length l.slots) (length l.timers) (length l.slots) 0 time
          (if nonzero events then 0 else 1) l.slots l refl (From-start l.slots) in
      rw (fds.1, none_ready, lt→ltb 0 events pos) refl
