-- ===== src/EventQueue/Counts.antt =====
-- The counters of a queue against the activities attached to it.
use libert.Base.{
  ℕ, zero, suc, ◌+◌, ◌^◌, ◌≤◌, ◌<◌, ◌≡◌, inl, inr, Bool, true, false, not, ◌&&◌, none, some, List,
  [], ◌∷◌, ◌++◌, length, get_elem?, set, length-set, nonzero, done, ok, err, arith, refl, ap,
  Option-cases,
}
use libert.EventQueue.{
  ActivityId, MethodId, Status, Activity, EventQueue, Trigger, on_disconnect, on_read, on_write,
  idle_activity, activity, put, arm, lodge, purge, purge_slot, close_activity, is_some,
  poll_triggers,
}

abbrev pub truth : Bool → ℕ
truth true = 1
truth false = 0

abbrev pub count : (Activity → Bool) → List Activity → ℕ
count p [] = 0
count p (a ∷ l) = truth (p a) + count p l

-- Armed and waiting for its event, or with its event received and not yet handled.
abbrev pub is_waiting : Activity → Bool
is_waiting a = nonzero a.armed && not (is_some a.pending)

abbrev pub is_pending : Activity → Bool
is_pending a = is_some a.pending

-- The counters are right.
pub record IsCounted (q : EventQueue) : Type 0 where
  pub waiting : q.num_armed ≡ count is_waiting q.activities
  pub pending : q.num_pending ≡ count is_pending q.activities
  pub few : length q.activities < 2 ^ 31

pub count-set :
    (p : Activity → Bool) (l : List Activity) (id : ℕ) (a b : Activity)
    → get_elem? l id ≡ some a
    → count p (set l id b) + truth (p a) ≡ count p l + truth (p b)
count-set p [] id a b h = cc
count-set p (x ∷ xs) zero a b h = ground (arith, h)
count-set p (x ∷ xs) (suc id) a b h = omega (arith, count-set p xs id a b h)

pub count-le : (p : Activity → Bool) (l : List Activity) → count p l ≤ length l
count-le p [] = omega arith
count-le p (x ∷ xs) = ground (arith, count-le p xs)

pub count-append :
    (p : Activity → Bool) (l : List Activity) (a : Activity)
    → count p (l ++ (a ∷ [])) ≡ count p l + truth (p a)
count-append p [] a = omega arith
count-append p (x ∷ xs) a = omega (arith, count-append p xs a)

pub get_elem?-set :
    (l : List Activity) (id : ℕ) (a b : Activity)
    → get_elem? l id ≡ some a
    → get_elem? (set l id b) id ≡ some b
get_elem?-set [] id a b h = cc
get_elem?-set (x ∷ xs) zero a b h = refl
get_elem?-set (x ∷ xs) (suc id) a b h = get_elem?-set xs id a b h

-- What one activity is changed to, and the counters with it.
pub changed-IsCounted :
    (q q' : EventQueue) (id : ActivityId) (a b : Activity)
    → IsCounted q
    → get_elem? q.activities id ≡ some a
    → q'.activities ≡ set q.activities id b
    → q'.num_armed + truth (is_waiting a) ≡ q.num_armed + truth (is_waiting b)
    → q'.num_pending + truth (is_pending a) ≡ q.num_pending + truth (is_pending b)
    → IsCounted q'
changed-IsCounted q q' id a b c h same armed pending = record {
  waiting = rw same (omega (arith, armed, c.waiting, count-set is_waiting q.activities id a b h));
  pending = rw same (omega (arith, pending, c.pending, count-set is_pending q.activities id a b h));
  few = rw same (omega (arith, c.few, length-set q.activities id b));
}

pub armed_flags : (t : Trigger) → nonzero (poll_triggers t) ≡ true
armed_flags on_disconnect = refl
armed_flags on_read = refl
armed_flags on_write = refl

-- What a successful call of `ert_armFileEventQueueActivity()` finds and does.
arm-found :
    (q : EventQueue) (id : ActivityId) (t : Trigger) (m : MethodId) (a : Activity) {q' : EventQueue}
    → get_elem? q.activities id ≡ some a
    → arm q id t m (ok tt) ≡ done (ok tt, q')
    → (nonzero a.armed ≡ false)
      × (is_some a.pending ≡ false)
      × (q' ≡ record q {
        num_armed = q.num_armed + 1;
        activities =
            set q.activities id
              (record { pending = none; armed = poll_triggers t; method = some m });
      })
unfolding arm activity lodge put
arm-found q id t m a h e = ground (
  arith,
  e,
  h,
  armed_flags t,
  get_elem?-set q.activities id a
      (record { pending = none; armed = poll_triggers t; method = some m }) h,
)

pub arm-IsCounted :
    (q : EventQueue) (id : ActivityId) (t : Trigger) (m : MethodId) {q' : EventQueue}
    → IsCounted q
    → arm q id t m (ok tt) ≡ done (ok tt, q')
    → IsCounted q'
unfolding arm activity
arm-IsCounted q id t m {q'} c e = elim (Option-cases (get_elem? q.activities id)) [
  | inl missing ↦ absurd (ground (arith, e, missing))
  | inr (a, h) ↦
      let (idle, fresh, after) = arm-found q id t m a {q' = q'} h e in
      changed-IsCounted q q' id a
        (record { pending = none; armed = poll_triggers t; method = some m }) c h
        (ap (λ (x : EventQueue). x.activities) after)
        (ground (arith, idle, fresh, after, armed_flags t)) (ground (arith, fresh, after))
]

-- What closing an activity without a pending event finds and does.
close_activity-found :
    (q : EventQueue) (id : ActivityId) (purged detached : Status) (a : Activity) {q' : EventQueue}
    → get_elem? q.activities id ≡ some a
    → a.pending ≡ none
    → close_activity q id purged detached ≡ done q'
    → (q'.activities ≡ set q.activities id idle_activity)
      × (q'.num_armed + truth (nonzero a.armed) ≡ q.num_armed)
      × (q'.num_pending ≡ q.num_pending)
unfolding close_activity activity purge purge_slot put
close_activity-found q id (ok _) (ok _) a h fresh e = ground (arith, e, h, fresh)
close_activity-found q id (err x) (ok _) a h fresh e = ground (arith, e, h, fresh)
close_activity-found q id (ok _) (err x) a h fresh e = ground (arith, e, h, fresh)
close_activity-found q id (err y) (err x) a h fresh e = ground (arith, e, h, fresh)

pub close_activity-IsCounted :
    (q : EventQueue) (id : ActivityId) (purged detached : Status) (a : Activity) {q' : EventQueue}
    → IsCounted q
    → get_elem? q.activities id ≡ some a
    → a.pending ≡ none
    → close_activity q id purged detached ≡ done q'
    → IsCounted q'
close_activity-IsCounted q id purged detached a {q'} c h fresh e =
    let (same, armed, pending) = close_activity-found q id purged detached a {q' = q'} h fresh e in
    changed-IsCounted q q' id a idle_activity c h same (ground (arith, fresh, armed))
      (ground (arith, fresh, pending))
