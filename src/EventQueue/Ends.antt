-- ===== src/EventQueue/Ends.antt =====
-- How a queue ends, what failures leave behind, and the end of the poll's loop.
use libert.Base.{
  ℕ, zero, suc, ◌+◌, ◌-◌, ◌≤◌, ◌<◌, ◌≡◌, ◌⊎◌, inl, inr, true, Option, none, some, [], get_elem?,
  set, ltb, nonzero, Outcome, done, abort, ok, err, Errno, arith, refl, ap, ◌∙◌, Bool-cases,
  Option-cases, Outcome-cases,
}
use libert.EventQueue.{
  ActivityId, MethodId, Status, Activity, EventQueue, Trigger, idle_activity, activity, put, arm,
  lodge, purge, purge_slot, close_activity, close_queue, poll_triggers, decrement, disarm,
}
use libert.EventQueue.Poll.{Method, Polled, after_method, dispatch, dispatch_one, dispatch_slot}
use libert.EventQueue.Counts.{
  count, is_waiting, is_pending, IsCounted, count-set, get_elem?-set, armed_flags,
}
use libert.EventQueue.Steps.{Reachable, Reachable-IsCounted}

-- Closing a queue in one of its lives returns if no activity is armed or has an event pending, and stops
-- the process if one is.
pub close_queue-Reachable :
    (size : ℕ) (q : EventQueue)
    → Reachable size q
    → ((q' : EventQueue) × (close_queue q ≡ done q')
        × (count is_waiting q.activities ≡ 0)
        × (count is_pending q.activities ≡ 0))
      ⊎ ((close_queue q ≡ abort)
          × (0 < count is_waiting q.activities + count is_pending q.activities))
unfolding close_queue
close_queue-Reachable size q r =
    let c = Reachable-IsCounted q r in
    elim (Bool-cases (nonzero q.num_armed)) [
      | inl some_armed ↦ inr (ground (arith, some_armed), ground (arith, some_armed, c.waiting))
      | inr unarmed ↦ elim (Bool-cases (nonzero q.num_pending)) [
        | inl some_pending ↦
            inr (ground (arith, unarmed, some_pending), ground (arith, some_pending, c.pending))
        | inr idle ↦ inl (
          record q { slots = []; queue_size = 0; queue_pending = 0 },
          ground (arith, unarmed, idle),
          ground (arith, unarmed, c.waiting),
          ground (arith, idle, c.pending),
        )
      ]
    ]

arm-armed :
    (q : EventQueue) (id : ActivityId) (t : Trigger) (m : MethodId) (a : Activity) (reply : Status)
    → get_elem? q.activities id ≡ some a
    → nonzero a.armed ≡ true
    → arm q id t m reply ≡ abort
unfolding arm activity
arm-armed q id t m a reply h armed = ground (arith, h, armed)

arm-left :
    (q : EventQueue) (id : ActivityId) (t : Trigger) (m : MethodId) (x : Errno) (a : Activity)
    {s : Status} {q' : EventQueue}
    → get_elem? q.activities id ≡ some a
    → arm q id t m (err x) ≡ done (s, q')
    → (s ≡ err x)
      × (q' ≡ put q id (record { pending = none; armed = poll_triggers t; method = some m }))
unfolding arm activity lodge put
arm-left q id t m x a h e = ground (
  arith,
  e,
  h,
  armed_flags t,
  get_elem?-set q.activities id a
      (record { pending = none; armed = poll_triggers t; method = some m }) h,
)

-- Where epoll_ctl() fails as an activity is armed, its error is returned, and another attempt to arm
-- the activity after it stops the process, whatever the trigger, the method and the reply are.
pub arm-failed :
    (q : EventQueue) (id : ActivityId) (t : Trigger) (m : MethodId) (x : Errno) (t' : Trigger)
    (m' : MethodId) (reply : Status) {s : Status} {q' : EventQueue}
    → arm q id t m (err x) ≡ done (s, q')
    → (s ≡ err x) × (arm q' id t' m' reply ≡ abort)
unfolding arm activity lodge put
arm-failed q id t m x t' m' reply {s} {q'} e = elim (Option-cases (get_elem? q.activities id)) [
  | inl missing ↦ absurd (ground (arith, e, missing))
  | inr (a, h) ↦
      let (failed, left) = arm-left q id t m x a {s = s} {q' = q'} h e in
      let b : Activity = record { pending = none; armed = poll_triggers t; method = some m } in
      (
        failed,
        arm-armed q' id t' m' b reply
            (ap (λ (y : EventQueue). get_elem? y.activities id) left
              ∙ get_elem?-set q.activities id a b h)
            (armed_flags t),
      )
]

-- Closing an activity while its event is pending never leaves the counters right, even if both calls of
-- epoll_ctl() succeed: it stops the process, or `mNumArmed` is one short after it.
pub close_activity-miscounts :
    (q : EventQueue) (id : ActivityId) (a : Activity) (ix : ℕ)
    → IsCounted q
    → get_elem? q.activities id ≡ some a
    → a.pending ≡ some ix
    → 0 < a.armed
    → (close_activity q id (ok tt) (ok tt) ≡ abort)
      ⊎ ((q' : EventQueue) × (close_activity q id (ok tt) (ok tt) ≡ done q')
          × (q'.num_armed + 1 ≡ count is_waiting q'.activities))
unfolding close_activity activity purge purge_slot put
close_activity-miscounts q id a ix c h held armed = elim (Bool-cases (nonzero q.num_armed)) [
  | inr unarmed ↦ inl (ground (arith, h, held, armed, unarmed))
  | inl some_armed ↦ elim (Bool-cases (ltb ix q.queue_size)) [
    | inr beyond ↦ inl (ground (arith, h, held, armed, some_armed, beyond))
    | inl within ↦ inr (
      record q {
        num_armed = q.num_armed - 1;
        slots = set q.slots ix none;
        num_pending = decrement q.num_pending;
        activities = set q.activities id idle_activity;
      },
      ground (arith, h, held, armed, some_armed, within),
      ground (
        arith,
        some_armed,
        held,
        c.waiting,
        count-set is_waiting q.activities id a idle_activity h,
      ),
    )
  ]
]

-- A round takes an entry.
dispatch_slot-keeps :
    (slot : Option (Option ActivityId)) (q : EventQueue) {o : Option MethodId} {q' : EventQueue}
    → dispatch_slot slot q ≡ done (o, q')
    → q'.queue_pending ≡ q.queue_pending
unfolding dispatch_slot disarm activity put
dispatch_slot-keeps none q e = cc
dispatch_slot-keeps (some none) q e = ground (arith, e)
dispatch_slot-keeps (some (some id)) q e = ground (arith, e)

dispatch_one-takes :
    (q : EventQueue) {o : Option MethodId} {q' : EventQueue}
    → dispatch_one q ≡ done (o, q')
    → q'.queue_pending ≡ q.queue_pending - 1
unfolding dispatch_one
dispatch_one-takes q {o} {q'} e =
    dispatch_slot-keeps (get_elem? q.slots (q.queue_pending - 1))
      (record q { queue_pending = q.queue_pending - 1 }) {o = o} {q' = q'} e

after_method-ends :
    (returned : Outcome (Status × EventQueue)) (go_on : EventQueue → Polled)
    → ((q : EventQueue) (s : Status)
        → returned ≡ done (s, q)
        → (r : Outcome (Status × EventQueue)) × (go_on q ≡ some r))
    → (r : Outcome (Status × EventQueue)) × (after_method returned go_on ≡ some r)
after_method-ends abort go_on h = (abort, refl)
after_method-ends (done (err x, q)) go_on h = (done (err x, q), refl)
after_method-ends (done (ok u, q)) go_on h = h q (ok u) refl

-- Where no method leaves more entries of the queue than it found, the loop that calls the methods ends:
-- as much fuel as there are entries is enough.
pub dispatch-enough :
    (call : MethodId → Method) (fuel : ℕ) (q : EventQueue)
    → ((m : MethodId) (p : EventQueue) (s : Status) (p' : EventQueue)
        → call m p ≡ done (s, p')
        → p'.queue_pending ≤ p.queue_pending)
    → q.queue_pending ≤ fuel
    → (r : Outcome (Status × EventQueue)) × (dispatch call fuel q ≡ some r)
unfolding dispatch
dispatch-enough call zero q h enough = (done (ok tt, q), ground (arith, enough))
dispatch-enough call (suc fuel) q h enough = elim (Bool-cases (nonzero q.queue_pending)) [
  | inr empty ↦ (done (ok tt, q), rw (dispatch, empty) refl)
  | inl more ↦ elim (Outcome-cases (dispatch_one q)) [
    | inl stopped ↦ (abort, rw (dispatch, more, stopped) refl)
    | inr ((none, q1), next) ↦
        let (r, e) =
          dispatch-enough call fuel q1 h
            (omega (arith, enough, dispatch_one-takes q {o = none} {q' = q1} next)) in
        (r, rw (dispatch, more, next) e)
    | inr ((some m, q1), next) ↦
        let (r, e) =
          after_method-ends (call m q1) (λ q2. dispatch call fuel q2)
            (λ q2 s called. dispatch-enough call fuel q2 h (
              omega (
                arith,
                enough,
                dispatch_one-takes q {o = some m} {q' = q1} next,
                h m q1 s q2 called,
              ))) in
        (r, rw (dispatch, more, next) e)
  ]
]
