-- ===== src/Fd/Ready.antt =====
-- When the wait for a descriptor ends.
use Prim.Native.Nat.{bit_and, bit_and-bitwise}
use libert.Base.{
  ℕ, ◌+◌, ◌-◌, ◌*◌, ◌/◌, ◌≤◌, ◌<◌, ◌≡◌, refl, Bool, true, false, ◌||◌, some, List, [], ◌∷◌, map,
  All, leb, if◌then◌else◌, u64_mod, eintr, done, abort, ok, err, ran, starved, arith, Bool-cases,
  inl, inr, lt→ltb,
}
use libert.TimeScale.{scale_ns, msecs_of, change_time_scale}
use libert.TimeKeeping.{EventClockTime, deadline_time_expired}
use libert.TimeKeeping.Deadlines.{deadline_time_expired-set, expired_unset}
use libert.Deadline.{SigContCount, fetch_sigcont_tracker, check_sigcont_tracker}
use libert.PollFd.{clip_ms}
use libert.Fd.Wait.{
  Wait, WaitTurn, race_poll, last_poll, end_wait, timed_wait, wait_turn, wait_loop, wait_fd_ready,
}

-- A turn at a time in which the descriptor has no event; the second poll may be interrupted.
abbrev pub quiet_turn : SigContCount → ℕ × Bool → WaitTurn
quiet_turn count (time, interrupted) = record {
  time = done time;
  raced = ok 0;
  count = count;
  polled = λ ms. if interrupted then err eintr else ok 0;
}

-- Whether a time is reached.
abbrev pub reached : ℕ → List (ℕ × Bool) → Bool
reached limit [] = false
reached limit (t ∷ ts) = leb limit t.0 || reached limit ts

-- The variables at a mark.
abbrev waits : EventClockTime → SigContCount → Wait
waits since count = record { since = since; tracker = count / 2 * 2 + 1; revents = 0 }

msecs_done : (ns : ℕ) → (ms : ℕ) × (msecs_of scale_ns ns ≡ done ms)
unfolding msecs_of change_time_scale
msecs_done ns = (_, refl)

-- The last poll of a quiet turn.
quiet_poll :
    (count time ms since : ℕ) (interrupted : Bool)
    → last_poll ((quiet_turn count (time, interrupted)).polled (some ms)) (waits since count)
      ≡ ran (waits since count) false
unfolding last_poll
quiet_poll count time ms since true = refl
quiet_poll count time ms since false = refl

quiet_wait :
    (period since time rest mark count : ℕ) (interrupted : Bool)
    → deadline_time_expired since period (some time) abort
      ≡ done (record { expired = false; remaining = rest; since = mark })
    → wait_turn (some period) (quiet_turn count (time, interrupted)) (waits since count)
      ≡ ran (waits mark count) false
unfolding wait_turn race_poll timed_wait
quiet_wait period since time rest mark count interrupted h =
    let ms = msecs_done rest in
    rw (wait_turn, h, ms.1) (quiet_poll count time (clip_ms ms.0) mark interrupted)

end_wait-quiet :
    (since count : ℕ) → end_wait count (waits since count) ≡ ran (waits since count) true
unfolding end_wait check_sigcont_tracker fetch_sigcont_tracker
end_wait-quiet since count = ground arith

none_asked : (mask : ℕ) → bit_and 0 mask ≡ 0
none_asked mask = bit_and-bitwise 0 mask

wait_loop-quiet :
    (mask period first : ℕ) (ts : List (ℕ × Bool)) (count : SigContCount)
    → 0 < first
    → 0 < period
    → period < u64_mod
    → All (λ t. (first ≤ t.0) × (t.0 < u64_mod)) ts
    → wait_loop mask (some period) (map (quiet_turn count) ts) (waits first count)
      ≡ (if reached (first + period) ts then ran (waits first count) 0 else starved)
unfolding wait_loop
wait_loop-quiet mask period first [] count pos pp hp h = refl
wait_loop-quiet mask period first (t ∷ ts) count pos pp hp h =
    let test = deadline_time_expired-set first period t.0 abort pos h.0.0 h.0.1 hp in
    elim (Bool-cases (leb (first + period) t.0)) [
      | inl over ↦ rw (wait_loop, test, over, end_wait-quiet first count, none_asked mask) refl
      | inr under ↦
          rw
            (
              wait_loop,
              quiet_wait period first t.0 (first + period - t.0) first count t.1
                  (rw (test, under) refl),
              under,
            )
            (wait_loop-quiet mask period first ts count pos pp hp h.1)
    ]

-- A wait with a timeout for a descriptor that stays quiet ends in the first turn that begins a whole
-- period after the first one, or later, and returns 0, for not ready; before that it goes on. The
-- times have 64 bits and are not before the first, and the process is not continued meanwhile.
pub wait_fd_ready-quiet :
    (mask period first : ℕ) (interrupted : Bool) (ts : List (ℕ × Bool)) (count : SigContCount)
    → 0 < first
    → first < u64_mod
    → 0 < period
    → period < u64_mod
    → All (λ t. (first ≤ t.0) × (t.0 < u64_mod)) ts
    → (w : Wait) × (wait_fd_ready mask
          (some period)
          count
          (map (quiet_turn count) ((first, interrupted) ∷ ts))
        ≡ (if reached (first + period) ts then ran w 0 else starved))
unfolding wait_fd_ready wait_loop fetch_sigcont_tracker
wait_fd_ready-quiet mask period first interrupted ts count pos hf pp hp h =
    let begins : deadline_time_expired 0 period (some first) abort
        ≡ done (record { expired = false; remaining = period; since = first }) =
      expired_unset first period pos in
    (
      waits first count,
      rw (wait_loop, quiet_wait period 0 first period first count interrupted begins)
          (wait_loop-quiet mask period first ts count pos pp hp h),
    )

-- Events that were not asked for, such as a hang-up, end the wait in its first turn with 0, for not
-- ready, though the whole timeout remains. The clock's reading is of 64 bits and not 0, and the
-- timeout is of 64 bits and not 0.
pub wait_fd_ready-unasked :
    (mask period first revents : ℕ) (turns : List WaitTurn) (count : SigContCount)
    → 0 < first
    → first < u64_mod
    → 0 < period
    → period < u64_mod
    → 0 < revents
    → bit_and revents mask ≡ 0
    → (w : Wait) × (wait_fd_ready mask (some period) count (
          record { time = done first; raced = ok revents; count = count; polled = λ ms. ok revents }
          ∷ turns)
        ≡ ran w 0)
unfolding wait_fd_ready wait_loop wait_turn timed_wait last_poll race_poll fetch_sigcont_tracker
wait_fd_ready-unasked mask period first revents turns count pos hf pp hp hr unasked =
    let begins : deadline_time_expired 0 period (some first) abort
        ≡ done (record { expired = false; remaining = period; since = first }) =
      expired_unset first period pos in
    (
      record (waits first count) { revents = revents },
      rw (wait_loop, begins, (msecs_done period).1, lt→ltb 0 revents hr, unasked) refl,
    )
