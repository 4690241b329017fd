-- ===== src/EventQueue/Steps.antt =====
-- The life of a queue as a sequence of steps, and its counters in it.
use libert.Base.{
  ℕ, ◌<◌, ◌^◌, ◌≡◌, Option, none, some, List, [], ◌∷◌, ◌++◌, length, get_elem?, done, ok, arith,
  refl, subst, length-append, ◌+◌,
}
use libert.EventQueue.{
  ActivityId, MethodId, Status, Activity, EventQueue, Trigger, empty_queue, create_activity,
  idle_activity, arm, close_activity,
}
use libert.EventQueue.Poll.{receive, dispatch_one}
use libert.EventQueue.Counts.{
  count-append, is_waiting, is_pending, IsCounted, arm-IsCounted, close_activity-IsCounted,
}
use libert.EventQueue.Rounds.{receive-IsCounted, dispatch_one-IsCounted}

-- A step is a call that returns, or a round of the poll. An activity is closed before its event is
-- received or after it is handled, and arming it does not fail.
pub data Step (q q' : EventQueue) : Type 0 where
  attach :
      (s : Status)
      → length q.activities + 1 < 2 ^ 31
      → create_activity q (ok tt) ≡ (s, q')
      → Step q q'
  armed :
      (id : ActivityId) (t : Trigger) (m : MethodId)
      → arm q id t m (ok tt) ≡ done (ok tt, q')
      → Step q q'
  closed :
      (id : ActivityId) (purged detached : Status) (a : Activity)
      → get_elem? q.activities id ≡ some a
      → a.pending ≡ none
      → close_activity q id purged detached ≡ done q'
      → Step q q'
  received : (events : List ActivityId) → receive q events ≡ done q' → Step q q'
  dispatched : (o : Option MethodId) → dispatch_one q ≡ done (o, q') → Step q q'

pub data Reachable (size : ℕ) : EventQueue → Type 0 where
  created : Reachable size (empty_queue size)
  stepped : {q q' : EventQueue} → Reachable size q → Step q q' → Reachable size q'

Step-IsCounted : {q q' : EventQueue} → IsCounted q → Step q q' → IsCounted q'
unfolding create_activity
Step-IsCounted {q} {q'} c (attach s few e) =
    let after : record q { activities = q.activities ++ (idle_activity ∷ []) } ≡ q' =
      ground (arith, e) in
    subst IsCounted after (record {
      waiting = omega (arith, c.waiting, count-append is_waiting q.activities idle_activity);
      pending = omega (arith, c.pending, count-append is_pending q.activities idle_activity);
      few = omega (arith, few, length-append q.activities (idle_activity ∷ []));
    })
Step-IsCounted {q} {q'} c (armed id t m e) = arm-IsCounted q id t m {q' = q'} c e
Step-IsCounted {q} {q'} c (closed id p d a h fresh e) =
    close_activity-IsCounted q id p d a {q' = q'} c h fresh e
Step-IsCounted {q} {q'} c (received events e) = receive-IsCounted q events {q' = q'} c e
Step-IsCounted {q} {q'} c (dispatched o e) = dispatch_one-IsCounted q {o = o} {q' = q'} c e

-- In every life of a queue, `mNumArmed` counts the activities that are armed and have no event pending,
-- and `mNumPending` those that have one, if no activity is closed while its event is pending and no call
-- of epoll_ctl() fails that arms one.
pub Reachable-IsCounted : {size : ℕ} (q : EventQueue) → Reachable size q → IsCounted q
Reachable-IsCounted _ created = record { waiting = refl; pending = refl; few = omega arith }
Reachable-IsCounted q (stepped {q = p} r s) = Step-IsCounted (Reachable-IsCounted p r) s
