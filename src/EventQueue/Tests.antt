-- ===== src/EventQueue/Tests.antt =====
-- A queue with two activities.
use libert.Base.{
  subst, ◌+◌, ◌≡◌, ◌⊎◌, none, some, [], ◌∷◌, done, abort, enomem, ok, err, arith, refl,
}
use libert.EventQueue.{
  MethodId, Status, Activity, EventQueue, on_read, on_write, idle_activity, empty_queue,
  create_activity, arm, close_activity, activity, put, lodge, mark_pending, disarm,
}
use libert.EventQueue.Whole.{poll-IsCounted}
use libert.EventQueue.Poll.{
  poll, wait_events, next_timeout, Method, receive, mark_all, dispatch, dispatch_one, dispatch_slot,
}
use libert.EventQueue.Counts.{count, is_waiting, IsCounted}
use libert.EventQueue.Steps.{
  attach, armed, received, Reachable, created, stepped, Reachable-IsCounted,
}
use libert.EventQueue.Ends.{arm-failed, close_activity-miscounts}

-- An activity is attached, armed, and its event received.
abbrev one_idle : EventQueue
one_idle = record (empty_queue 4) { activities = idle_activity ∷ [] }

abbrev reading : Activity
reading = record { pending = none; armed = 27; method = some 7 }

abbrev one_armed : EventQueue
one_armed = record (empty_queue 4) { num_armed = 1; activities = reading ∷ [] }

abbrev notified : Activity
notified = record { pending = some 0; armed = 27; method = some 7 }

abbrev one_pending : EventQueue
one_pending = record {
  slots = some 0 ∷ [];
  queue_size = 4;
  queue_pending = 1;
  num_armed = 0;
  num_pending = 1;
  activities = notified ∷ [];
}

one_idle_made : create_activity (empty_queue 4) (ok tt) ≡ (ok tt, one_idle)
unfolding create_activity
one_idle_made = refl

one_armed_made : arm one_idle 0 on_read 7 (ok tt) ≡ done (ok tt, one_armed)
unfolding arm activity put lodge
one_armed_made = refl

one_pending_made : receive one_armed (0 ∷ []) ≡ done one_pending
unfolding receive mark_all mark_pending activity put
one_pending_made = refl

one_pending-Reachable : Reachable 4 one_pending
one_pending-Reachable =
    stepped
      (stepped (stepped created (attach (ok tt) (omega arith) one_idle_made))
        (armed 0 on_read 7 one_armed_made))
      (received (0 ∷ []) one_pending_made)

Reachable-IsCounted_example : IsCounted one_pending
Reachable-IsCounted_example = Reachable-IsCounted {size = 4} one_pending one_pending-Reachable

abbrev refused : Status
refused = err enomem

arm_refused :
    arm one_idle 0 on_read 7 (err enomem) ≡ done (err enomem, record one_armed { num_armed = 0 })
unfolding arm activity put lodge
arm_refused = refl

arm-failed_example :
    (refused ≡ err enomem) × (arm (record one_armed { num_armed = 0 }) 0 on_write 8 (ok tt) ≡ abort)
arm-failed_example =
    arm-failed one_idle 0 on_read 7 enomem on_write 8 (ok tt) {s = err enomem}
      {q' = record one_armed { num_armed = 0 }} arm_refused

close_activity-miscounts_example :
    (close_activity one_pending 0 (ok tt) (ok tt) ≡ abort)
    ⊎ ((q' : EventQueue) × (close_activity one_pending 0 (ok tt) (ok tt) ≡ done q')
        × (q'.num_armed + 1 ≡ count is_waiting q'.activities))
close_activity-miscounts_example =
    close_activity-miscounts one_pending 0 notified 0
      (Reachable-IsCounted {size = 4} one_pending one_pending-Reachable) refl refl (omega arith)

-- A method that leaves the queue as it is.
abbrev quiet : MethodId → Method
quiet m q = done (ok tt, q)

handled :
    dispatch quiet 1 one_pending ≡ some (done (ok tt, record one_idle { slots = some 0 ∷ [] }))
unfolding dispatch dispatch_one dispatch_slot disarm activity put
handled = refl

abbrev one_handled : EventQueue
one_handled = record one_idle { slots = some 0 ∷ [] }

quiet-IsCounted :
    (m : MethodId) (p : EventQueue) (s : Status) (p' : EventQueue)
    → IsCounted p
    → quiet m p ≡ done (s, p')
    → IsCounted p'
quiet-IsCounted m p s p' c e = let same : p ≡ p' = ground (arith, e) in subst IsCounted same c

one_armed-Reachable : Reachable 4 one_armed
one_armed-Reachable =
    stepped (stepped created (attach (ok tt) (omega arith) one_idle_made))
      (armed 0 on_read 7 one_armed_made)

polled : poll quiet 1 none ((abort, ok (0 ∷ [])) ∷ []) one_armed ≡ some (done (ok tt, one_handled))
unfolding poll wait_events next_timeout receive mark_all mark_pending dispatch dispatch_one
    dispatch_slot disarm activity put
polled = refl

poll-IsCounted_example : IsCounted one_handled
poll-IsCounted_example =
    poll-IsCounted quiet quiet-IsCounted 1 none ((abort, ok (0 ∷ [])) ∷ []) one_armed {s = ok tt}
      {q' = one_handled} (Reachable-IsCounted {size = 4} one_armed one_armed-Reachable) polled
