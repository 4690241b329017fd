-- ===== src/PollFd.antt =====
-- src/pollfd.c: the loop that waits for descriptors and timers and calls their actions.
-- `poll(2)`, the readings of the event clock and the callers' methods are parameters. Names and
-- debug output are left out.
pub mod Marks
pub mod Timeout
pub mod Recorded
pub mod Progress
mod Tests
use Prim.Native.Nat.{bit_and}
use libert.Base.{
  ℕ, zero, suc, ◌+◌, ◌%◌, ◌^◌, Bool, true, false, not, ◌||◌, Option, none, some, List, [], ◌∷◌, ltb,
  nonzero, if◌then◌else◌, ◌==◌, int_max, Outcome, done, abort, ◌>>=◌, ◌>>◌, ensure, Errno, eintr,
  Result, ok, err, get_elem?, set, Ran, ran, failed, stopped, starved, then_run, within,
}
use libert.TimeScale.{Duration, scale_ns, msecs_of}
use libert.TimeKeeping.{EventClockTime, Expiry, deadline_time_expired, lap_time_since}

-- `struct pollfd`
pub record PollSlot : Type 0 where
  pub fd : ℕ
  pub events : ℕ
  pub revents : ℕ

-- `struct Ert_PollFdTimerAction`, its method apart. A period of 0 is a timer that is off.
pub record Timer : Type 0 where
  pub period : Duration
  pub since : EventClockTime

-- What the loop's methods may change: the two arrays, and the callers' own state.
pub record Loop (W : Type 0) : Type 0 where
  pub slots : List PollSlot
  pub timers : List Timer
  pub world : W

-- `Ert_PollFdCallbackMethod`; a method that is nil is `none`.
abbrev pub Callback : Type 0 → Type 0
Callback W = EventClockTime → Loop W → Ran (Loop W) (Unit {0})

-- `struct Ert_PollFd`
pub record PollFd (W : Type 0) : Type 0 where
  pub completion_query : Loop W → Bool × Loop W
  pub fd_size : ℕ
  pub fd_action : ℕ → Option (Callback W)
  pub timer_size : ℕ
  pub timer_action : ℕ → Option (Callback W)

-- The variables `timeout`, `chosen` and `numActive`.
pub record Choice : Type 0 where
  pub timeout : Duration
  pub chosen : ℕ
  pub num_active : ℕ

-- The rule for a timer that is not expired.
unfoldable consider : ℕ → Duration → Choice → Choice
consider ix remaining c =
    if ltb remaining c.timeout || not (nonzero c.timeout)
    then record { timeout = remaining; chosen = ix; num_active = suc c.num_active }
    else record c { num_active = suc c.num_active }

-- The loop that chooses the deadline, over the timers from `ix` on. A test of a timer that has no
-- mark sets it.
unfoldable pub choose_timers :
    EventClockTime → ℕ → List Timer → Choice → Outcome (List Timer × Choice)
unfolding consider
choose_timers time ix [] c = done ([], c)
choose_timers time ix (t ∷ ts) c =
    if nonzero t.period
    then (do
      e ← deadline_time_expired t.since t.period (some time) abort
      if e.expired
          then done (
            record t { since = e.since } ∷ ts,
            record { timeout = 0; chosen = ix; num_active = suc c.num_active },
          )
          else (do
            rest ← choose_timers time (suc ix) ts (consider ix e.remaining c)
            done (record t { since = e.since } ∷ rest.0, rest.1)))
    else (do rest ← choose_timers time (suc ix) ts c; done (t ∷ rest.0, rest.1))

-- The conversion of a `uint64_t` to the `int` of `poll(2)`, with the check that follows it.
unfoldable pub clip_ms : ℕ → ℕ
clip_ms ms =
    if not (ltb (ms % 2 ^ 32) (2 ^ 31)) || not (ms % 2 ^ 32 == ms) then int_max else ms % 2 ^ 32

-- `timeout_ms`; `none` is the -1 that waits without a limit.
unfoldable pub wait_ms : Choice → Outcome (Option ℕ)
unfolding clip_ms
wait_ms c =
    if not (nonzero c.num_active)
    then done none
    else (do ms ← msecs_of scale_ns c.timeout; done (some (clip_ms ms)))

-- What a call of `poll(2)` returns: the number of events and `revents` of every slot, or an errno.
abbrev pub PollReply : Type 0
PollReply = Result (ℕ × List ℕ)

unfoldable pub store_revents : List ℕ → List PollSlot → List PollSlot
store_revents (r ∷ rs) (p ∷ ps) = record p { revents = r } ∷ store_revents rs ps
store_revents rs [] = []
store_revents [] (p ∷ ps) = p ∷ ps

-- What the clock and the system reply in one turn of the loop; the first `poll(2)` is given
-- `timeout_ms`.
pub record Turn : Type 0 where
  pub started : Outcome EventClockTime
  pub waited : Option ℕ → PollReply
  pub latched : Outcome EventClockTime
  pub polled : List PollReply

module _ {W : Type 0} where
  -- The first `poll(2)`, which may be interrupted.
  unfoldable pub poll_wait : PollReply → Loop W → Ran (Loop W) (Unit {0})
  unfolding store_revents
  poll_wait (ok reply) l = ran (record l { slots = store_revents reply.1 l.slots }) tt
  poll_wait (err e) l = if e == eintr then ran l tt else failed l e

  -- The second one, which is repeated while it is interrupted.
  unfoldable pub poll_now : List PollReply → Loop W → Ran (Loop W) ℕ
  unfolding store_revents
  poll_now [] l = starved
  poll_now (ok reply ∷ replies) l = ran (record l { slots = store_revents reply.1 l.slots }) reply.0
  poll_now (err e ∷ replies) l =
      let again = poll_now replies l in if e == eintr then again else failed l e

  -- `ert_callPollFdCallbackMethod()`
  abbrev pub call_action : Option (Callback W) → Callback W
  call_action none time l = stopped
  call_action (some method) time l = method time l

  -- An action of a descriptor is skipped where it is nil.
  abbrev pub call_fd_action : Option (Callback W) → Callback W
  call_fd_action none time l = ran l tt
  call_fd_action (some method) time l = call_action (some method) time l

  -- One step of the loop over the descriptors, and the event count that it leaves.
  unfoldable pub serve_fd : PollFd W → ℕ → EventClockTime → ℕ → Loop W → Ran (Loop W) ℕ
  serve_fd p ix time count l = elim (get_elem? l.slots ix) [
    | none ↦ stopped
    | some slot ↦
        let revents = bit_and slot.revents slot.events in
        let masked = record l { slots = set l.slots ix (record slot { revents = revents }) } in
        if nonzero revents
        then then_run (call_fd_action (p.fd_action ix) time masked) (λ l' _. ran l' (suc count))
        else ran masked count
  ]

  unfoldable pub serve_fds : PollFd W → ℕ → ℕ → EventClockTime → ℕ → Loop W → Ran (Loop W) ℕ
  unfolding serve_fd
  serve_fds p zero ix time count l = ran l count
  serve_fds p (suc n) ix time count l =
      then_run (serve_fd p ix time count l) (λ l' count'. serve_fds p n (suc ix) time count' l')

  -- One step of the loop over the timers.
  unfoldable pub run_timer : PollFd W → ℕ → EventClockTime → Loop W → Ran (Loop W) (Unit {0})
  run_timer p ix time l = elim (get_elem? l.timers ix) [
    | none ↦ stopped
    | some t ↦
        if nonzero t.period
        then within (deadline_time_expired t.since t.period (some time) abort) (λ e.
          if e.expired
          then within (lap_time_since e.since t.period (some time) abort) (λ lap.
            call_action (p.timer_action ix) time
              (record l { timers = set l.timers ix (record t { since = lap.1 }) }))
          else ran (record l { timers = set l.timers ix (record t { since = e.since }) }) tt)
        else ran l tt
  ]

  unfoldable pub run_timers : PollFd W → ℕ → ℕ → EventClockTime → Loop W → Ran (Loop W) (Unit {0})
  unfolding run_timer
  run_timers p zero ix time l = ran l tt
  run_timers p (suc n) ix time l =
      then_run (run_timer p ix time l) (λ l' _. run_timers p n (suc ix) time l')

  -- What follows the second `poll(2)`: `eventCount` starts at `! events`.
  unfoldable pub serve : PollFd W → EventClockTime → ℕ → Loop W → Ran (Loop W) (Unit {0})
  unfolding serve_fds run_timers
  serve p time events l =
      then_run (serve_fds p p.fd_size 0 time (if nonzero events then 0 else 1) l)
        (λ l' count. within (ensure (nonzero count)) (λ _. run_timers p p.timer_size 0 time l'))

  -- One turn of the loop in `ert_runPollFdLoop()`.
  unfoldable pub poll_turn : PollFd W → Turn → Loop W → Ran (Loop W) (Unit {0})
  unfolding choose_timers wait_ms poll_wait poll_now serve
  poll_turn p turn l = within turn.started (λ start.
      within
        (choose_timers start 0 l.timers
          (record { timeout = 0; chosen = p.timer_size; num_active = 0 }))
        (λ c. within (wait_ms c.1) (λ wait.
          then_run (poll_wait (turn.waited wait) (record l { timers = c.0 })) (λ l' _.
            within turn.latched (λ time.
              then_run (poll_now turn.polled l') (λ l'' events. serve p time events l''))))))

  -- `ert_runPollFdLoop()`
  unfoldable pub run_poll_fd_loop : PollFd W → List Turn → Loop W → Ran (Loop W) (Unit {0})
  unfolding poll_turn
  run_poll_fd_loop p [] l =
      let asked = p.completion_query l in if asked.0 then ran asked.1 tt else starved
  run_poll_fd_loop p (turn ∷ turns) l =
      let asked = p.completion_query l in
      if asked.0
      then ran asked.1 tt
      else then_run (poll_turn p turn asked.1) (λ l' _. run_poll_fd_loop p turns l')
