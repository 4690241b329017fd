-- ===== src/EventQueue/Poll.antt =====
-- `ert_pollFileEventQueueActivity()`: waiting for events, taking them in, and calling their methods.
use libert.Base.{
  ℕ, zero, suc, ◌+◌, ◌-◌, true, false, Option, none, some, List, [], ◌∷◌, map, length, get_elem?,
  leb, ◌==◌, nonzero, if◌then◌else◌, int_max, eintr, Outcome, done, abort, ◌>>=◌, ◌>>◌, ensure,
  Result, ok, err,
}
use libert.TimeScale.{Duration, scale_ns, msecs_of}
use libert.TimeKeeping.{EventClockTime, deadline_time_expired}
use libert.EventQueue.{ActivityId, MethodId, Status, EventQueue, mark_pending, disarm, decrement}

-- The timeout of `epoll_wait()` in milliseconds, `none` for the -1 of no timeout, and the mark time.
abbrev pub clip_timeout : ℕ → ℕ
clip_timeout ms = if leb ms int_max then ms else int_max

unfoldable pub next_timeout :
    Option Duration → EventClockTime → Outcome EventClockTime → Outcome (Option ℕ × EventClockTime)
unfolding msecs_of
next_timeout none since clock = done (none, since)
next_timeout (some timeout) since clock = do
  e ← deadline_time_expired since timeout none clock
  if e.expired
      then done (some 0, e.since)
      else (do ms ← msecs_of scale_ns e.remaining; done (some (clip_timeout ms), e.since))

-- The loop around `epoll_wait()`: for each round, the clock's reading and the reply. It gives the
-- events, or an error; `none` where the replies end before the loop does.
abbrev pub Events : Type 0
Events = Result (List ActivityId)

abbrev pub take_reply : Option ℕ → Events → Option (Outcome Events) → Option (Outcome Events)
take_reply timeout_ms (ok events) rest = some (done (ok events))
take_reply none (err e) rest = if e == eintr then some (done (ok [])) else some (done (err e))
take_reply (some ms) (err e) rest = if e == eintr then rest else some (done (err e))

unfoldable pub wait_events :
    Option Duration
    → EventClockTime
    → List (Outcome EventClockTime × Events)
    → Option (Outcome Events)
unfolding next_timeout
wait_events timeout since [] = none
wait_events timeout since ((clock, reply) ∷ rounds) = elim (next_timeout timeout since clock) [
  | abort ↦ some abort
  | done (timeout_ms, since') ↦ take_reply timeout_ms reply (wait_events timeout since' rounds)
]

unfoldable pub mark_all : EventQueue → ℕ → List ActivityId → Outcome EventQueue
unfolding mark_pending
mark_all q ix [] = done q
mark_all q ix (id ∷ ids) = mark_pending q id ix >>= λ q'. mark_all q' (ix + 1) ids

-- The events become pending.
unfoldable pub receive : EventQueue → List ActivityId → Outcome EventQueue
unfolding mark_all
receive q events = do
  q' ← mark_all (record q { slots = map some events }) 0 events
  ensure (leb (length events) q'.num_armed)
  done (record q' {
    queue_pending = length events;
    num_armed = q'.num_armed - length events;
    num_pending = q'.num_pending + length events;
  })

-- One round of the second loop, with an entry left: the method to call, if the entry is not null.
unfoldable pub dispatch_slot :
    Option (Option ActivityId) → EventQueue → Outcome (Option MethodId × EventQueue)
unfolding disarm
dispatch_slot none q = abort
dispatch_slot (some none) q = done (none, q)
dispatch_slot (some (some id)) q = do
  (m, q') ← disarm (record q { num_pending = decrement q.num_pending }) id
  done (some m, q')

unfoldable pub dispatch_one : EventQueue → Outcome (Option MethodId × EventQueue)
unfolding dispatch_slot
dispatch_one q =
    dispatch_slot (get_elem? q.slots (q.queue_pending - 1))
      (record q { queue_pending = q.queue_pending - 1 })

-- A method does what it likes with the queue.
abbrev pub Method : Type 0
Method = EventQueue → Outcome (Status × EventQueue)

abbrev pub Polled : Type 0
Polled = Option (Outcome (Status × EventQueue))

-- The loop goes on after a method that does not fail.
abbrev pub after_method : Outcome (Status × EventQueue) → (EventQueue → Polled) → Polled
after_method abort go_on = some abort
after_method (done (err e, q)) go_on = some (done (err e, q))
after_method (done (ok _, q)) go_on = go_on q

-- The second loop, on fuel.
unfoldable pub dispatch : (MethodId → Method) → ℕ → EventQueue → Polled
unfolding dispatch_one
dispatch call zero q = if nonzero q.queue_pending then none else some (done (ok tt, q))
dispatch call (suc fuel) q = elim (nonzero q.queue_pending) [
  | false ↦ some (done (ok tt, q))
  | true ↦ elim (dispatch_one q) [
    | abort ↦ some abort
    | done (none, q') ↦ dispatch call fuel q'
    | done (some m, q') ↦ after_method (call m q') (λ q''. dispatch call fuel q'')
  ]
]

-- The events that a wait has given are taken in and their methods called.
abbrev pub take_events : (MethodId → Method) → ℕ → EventQueue → List ActivityId → Polled
take_events call fuel q events = elim (receive q events) [
  | abort ↦ some abort
  | done q' ↦ dispatch call fuel q'
]

abbrev pub after_wait : (MethodId → Method) → ℕ → EventQueue → Option (Outcome Events) → Polled
after_wait call fuel q none = none
after_wait call fuel q (some abort) = some abort
after_wait call fuel q (some (done (err e))) = some (done (err e, q))
after_wait call fuel q (some (done (ok events))) = take_events call fuel q events

-- `ert_pollFileEventQueueActivity()`: it waits only if no entry is left from a poll before.
unfoldable pub poll :
    (MethodId → Method)
    → ℕ
    → Option Duration
    → List (Outcome EventClockTime × Events)
    → EventQueue
    → Polled
unfolding wait_events receive dispatch
poll call fuel timeout rounds q = elim (nonzero q.queue_pending) [
  | true ↦ dispatch call fuel q
  | false ↦ after_wait call fuel q (wait_events timeout 0 rounds)
]
