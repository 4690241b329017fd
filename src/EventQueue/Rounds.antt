-- ===== src/EventQueue/Rounds.antt =====
-- The counters in the rounds of a poll.
use libert.Base.{
  ℕ, ◌+◌, ◌-◌, ◌≡◌, inl, inr, true, false, Option, none, some, List, [], ◌∷◌, map, length,
  get_elem?, set, length-set, leb, nonzero, done, arith, refl, ap, ◌∙◌, Option-cases, Outcome-cases,
  subst,
}
use libert.EventQueue.{
  ActivityId, MethodId, Activity, EventQueue, idle_activity, activity, put, mark_pending, disarm,
  take_method, is_some, decrement,
}
use libert.EventQueue.Poll.{mark_all, receive, dispatch_slot, dispatch_one}
use libert.EventQueue.Counts.{
  count, is_waiting, is_pending, IsCounted, count-set, count-le, changed-IsCounted,
}

-- The counters stay while an activity is marked.
mark_pending-found :
    (q : EventQueue) (id : ActivityId) (ix : ℕ) (a : Activity) {q' : EventQueue}
    → get_elem? q.activities id ≡ some a
    → mark_pending q id ix ≡ done q'
    → (q' ≡ record q { activities = set q.activities id (record a { pending = some ix }) })
      × (nonzero a.armed ≡ true)
      × (is_some a.pending ≡ false)
unfolding mark_pending activity put
mark_pending-found q id ix a h e = ground (arith, e, h)

pub record Marked (q q' : EventQueue) (n : ℕ) : Type 0 where
  pub waiting : count is_waiting q'.activities + n ≡ count is_waiting q.activities
  pub pending : count is_pending q'.activities ≡ count is_pending q.activities + n
  pub armed : q'.num_armed ≡ q.num_armed
  pub held : q'.num_pending ≡ q.num_pending
  pub size : length q'.activities ≡ length q.activities

mark_pending-Marked :
    (q : EventQueue) (id : ActivityId) (ix : ℕ) {q' : EventQueue}
    → mark_pending q id ix ≡ done q'
    → Marked q q' 1
unfolding mark_pending activity
mark_pending-Marked q id ix {q'} e = elim (Option-cases (get_elem? q.activities id)) [
  | inl missing ↦ absurd (ground (arith, e, missing))
  | inr (a, h) ↦
      let (after, armed, fresh) = mark_pending-found q id ix a {q' = q'} h e in
      let b : Activity = record a { pending = some ix } in
      record {
        waiting =
            rw after (ground (arith, count-set is_waiting q.activities id a b h, armed, fresh));
        pending =
            rw after (ground (arith, count-set is_pending q.activities id a b h, armed, fresh));
        armed = rw after refl;
        held = rw after refl;
        size = rw after (length-set q.activities id b);
      }
]

mark_all-Marked :
    (ids : List ActivityId) (q : EventQueue) (ix : ℕ) {q' : EventQueue}
    → mark_all q ix ids ≡ done q'
    → Marked q q' (length ids)
unfolding mark_all
mark_all-Marked [] q ix {q'} e =
    let same : q ≡ q' = ground (arith, e) in
    subst (λ (x : EventQueue). Marked q x 0) same
      (record {
        waiting = omega arith;
        pending = omega arith;
        armed = refl;
        held = refl;
        size = refl;
      })
mark_all-Marked (id ∷ ids) q ix {q'} e = elim (Outcome-cases (mark_pending q id ix)) [
  | inl stopped ↦ absurd (ground (arith, e, stopped))
  | inr (m, marked) ↦
      let one = mark_pending-Marked q id ix {q' = m} marked in
      let rest = mark_all-Marked ids m (ix + 1) {q' = q'} (ground (arith, e, marked)) in
      record {
        waiting = omega (arith, one.waiting, rest.waiting);
        pending = omega (arith, one.pending, rest.pending);
        armed = rest.armed ∙ one.armed;
        held = rest.held ∙ one.held;
        size = rest.size ∙ one.size;
      }
]

pub receive-IsCounted :
    (q : EventQueue) (events : List ActivityId) {q' : EventQueue}
    → IsCounted q
    → receive q events ≡ done q'
    → IsCounted q'
unfolding receive
receive-IsCounted q events {q'} c e =
    elim (Outcome-cases (mark_all (record q { slots = map some events }) 0 events)) [
      | inl stopped ↦ absurd (ground (arith, e, stopped))
      | inr (m, marked) ↦
          let all =
            mark_all-Marked events (record q { slots = map some events }) 0 {q' = m} marked in
          let enough : leb (length events) m.num_armed ≡ true = ground (arith, e, marked) in
          let after : q' ≡ record m {
            queue_pending = length events;
            num_armed = m.num_armed - length events;
            num_pending = m.num_pending + length events;
          } =
            ground (arith, e, marked) in
          record {
            waiting = rw after (omega (arith, all.waiting, all.armed, c.waiting));
            pending = rw after (omega (arith, all.pending, all.held, c.pending));
            few = rw after (omega (arith, all.size, c.few));
          }
    ]

disarm-found :
    (q : EventQueue) (id : ActivityId) (a : Activity) {m : MethodId} {q' : EventQueue}
    → get_elem? q.activities id ≡ some a
    → disarm q id ≡ done (m, q')
    → (q' ≡ record q { activities = set q.activities id idle_activity })
      × (is_some a.pending ≡ true)
      × (a.method ≡ some m)
unfolding disarm activity put take_method
disarm-found q id a h e = ground (arith, e, h)

-- The event of a pending activity is handed over.
disarm-IsCounted :
    (q : EventQueue) (id : ActivityId) {m : MethodId} {q' : EventQueue}
    → IsCounted q
    → disarm (record q { num_pending = decrement q.num_pending }) id ≡ done (m, q')
    → IsCounted q'
unfolding disarm activity
disarm-IsCounted q id {m} {q'} c e = elim (Option-cases (get_elem? q.activities id)) [
  | inl missing ↦ absurd (ground (arith, e, missing))
  | inr (a, h) ↦
      let (after, held, _) =
        disarm-found (record q { num_pending = decrement q.num_pending }) id a {m = m} {q' = q'} h
          e in
      let counted : count is_pending (set q.activities id idle_activity) + 1
          ≡ count is_pending q.activities =
        ground (arith, held, count-set is_pending q.activities id a idle_activity h) in
      changed-IsCounted q q' id a idle_activity c h (ap (λ (x : EventQueue). x.activities) after)
        (ground (arith, after, held))
        (rw (after, held)
          (omega (arith, c.pending, c.few, count-le is_pending q.activities, counted)))
]

dispatch_slot-IsCounted :
    (slot : Option (Option ActivityId)) (q : EventQueue) {o : Option MethodId} {q' : EventQueue}
    → IsCounted q
    → dispatch_slot slot q ≡ done (o, q')
    → IsCounted q'
unfolding dispatch_slot
dispatch_slot-IsCounted none q c e = cc
dispatch_slot-IsCounted (some none) q {o} {q'} c e =
    let same : q ≡ q' = ground (arith, e) in subst IsCounted same c
dispatch_slot-IsCounted (some (some id)) q {o} {q'} c e =
    elim (Outcome-cases (disarm (record q { num_pending = decrement q.num_pending }) id)) [
      | inl stopped ↦ absurd (ground (arith, e, stopped))
      | inr ((m, q2), given) ↦
          let same : q2 ≡ q' = ground (arith, e, given) in
          subst IsCounted same (disarm-IsCounted q id {m = m} {q' = q2} c given)
    ]

pub dispatch_one-IsCounted :
    (q : EventQueue) {o : Option MethodId} {q' : EventQueue}
    → IsCounted q
    → dispatch_one q ≡ done (o, q')
    → IsCounted q'
unfolding dispatch_one
dispatch_one-IsCounted q {o} {q'} c e =
    dispatch_slot-IsCounted (get_elem? q.slots (q.queue_pending - 1))
      (record q { queue_pending = q.queue_pending - 1 }) {o = o} {q' = q'}
      (record { waiting = c.waiting; pending = c.pending; few = c.few }) e
