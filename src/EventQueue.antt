-- ===== src/EventQueue.antt =====
-- src/fileeventqueue.c: activities on descriptors, armed for one event each, and the queue that polls
-- them. An activity is known by its index, and a method by a number. What epoll_ctl() and epoll_wait()
-- return is an argument. A counter that is stepped down from 0 has the 32 bits of -1.
pub mod Poll
pub mod Counts
pub mod Rounds
pub mod Steps
pub mod Ends
pub mod Whole
mod Tests
use libert.Base.{
  ℕ, zero, suc, ◌+◌, ◌-◌, ◌%◌, ◌^◌, Bool, true, false, not, Option, none, some, List, [], ◌∷◌, ◌++◌,
  enomem, map, length, get_elem?, set, ltb, leb, ◌==◌, nonzero, if◌then◌else◌, Outcome, done, abort,
  ◌>>=◌, ◌>>◌, ensure, Result, ok, err,
}

abbrev pub ActivityId : Type 0
ActivityId = ℕ

abbrev pub MethodId : Type 0
MethodId = ℕ

abbrev pub Status : Type 0
Status = Result (Unit {0})

-- `struct Ert_FileEventQueueActivity`: `mPending` points at an entry of the queue's array.
pub record Activity : Type 0 where
  pub pending : Option ℕ
  pub armed : ℕ
  pub method : Option MethodId

abbrev pub idle_activity : Activity
idle_activity = record { pending = none; armed = 0; method = none }

-- `struct Ert_FileEventQueue`, with the activities attached to it. An entry of the array is the
-- activity that an event is for, or null.
pub record EventQueue : Type 0 where
  pub slots : List (Option ActivityId)
  pub queue_size : ℕ
  pub queue_pending : ℕ
  pub num_armed : ℕ
  pub num_pending : ℕ
  pub activities : List Activity

-- `enum Ert_FileEventQueuePollTrigger` and `pollTriggers_`, of the flags of sys/epoll.h.
pub data Trigger : Type 0 where
  on_disconnect on_read on_write : Trigger

abbrev pub poll_triggers : Trigger → ℕ
poll_triggers on_disconnect = 16 + 8
poll_triggers on_write = 16 + 8 + 4
poll_triggers on_read = 16 + 8 + 2 + 1

abbrev pub is_some {ℓ} : {A : Type ℓ} → Option A → Bool
is_some none = false
is_some (some a) = true

-- `--` on an `int`.
abbrev pub decrement : ℕ → ℕ
decrement n = (n + (2 ^ 32 - 1)) % 2 ^ 32

-- The activity behind a pointer; one that is not attached is not modelled.
abbrev pub found : Option Activity → Outcome Activity
found none = abort
found (some a) = done a

unfoldable pub activity : EventQueue → ActivityId → Outcome Activity
activity q id = found (get_elem? q.activities id)

unfoldable pub put : EventQueue → ActivityId → Activity → EventQueue
put q id a = record q { activities = set q.activities id a }

abbrev pub empty_queue : ℕ → EventQueue
empty_queue size = record {
  slots = [];
  queue_size = size;
  queue_pending = 0;
  num_armed = 0;
  num_pending = 0;
  activities = [];
}

-- `ert_createFileEventQueue()`: whether malloc() gives the array, and what epoll_create1() returns.
unfoldable pub create_queue : ℕ → Bool → Status → Outcome (Status × EventQueue)
create_queue size malloc_ok (ok _) =
    ensure (nonzero size)
    >> done (if malloc_ok then (ok tt, empty_queue size) else (err enomem, empty_queue 0))
create_queue size malloc_ok (err e) =
    ensure (nonzero size) >> done (err (if malloc_ok then e else enomem), empty_queue 0)

-- `ert_closeFileEventQueue()`
unfoldable pub close_queue : EventQueue → Outcome EventQueue
close_queue q = do
  ensure (not (nonzero q.num_armed))
  ensure (not (nonzero q.num_pending))
  done (record q { slots = []; queue_size = 0; queue_pending = 0 })

-- `ert_createFileEventQueueActivity()`: the new activity is the last.
unfoldable pub create_activity : EventQueue → Status → Status × EventQueue
create_activity q (err e) = (err e, q)
create_activity q (ok _) = (ok tt, record q { activities = q.activities ++ (idle_activity ∷ []) })

-- `ert_lodgeFileEventQueueActivity_()`
unfoldable pub lodge : EventQueue → ActivityId → Status → Outcome (Status × EventQueue)
unfolding activity
lodge q id reply = do
  a ← activity q id
  ensure (nonzero a.armed)
  elim reply [
    | err e ↦ done (err e, q)
    | ok _ ↦ done (ok tt, record q { num_armed = q.num_armed + 1 })
  ]

-- `ert_armFileEventQueueActivity()`
unfoldable pub arm :
    EventQueue → ActivityId → Trigger → MethodId → Status → Outcome (Status × EventQueue)
unfolding activity lodge put
arm q id trigger method reply = do
  a ← activity q id
  ensure (not (nonzero a.armed))
  ensure (not (is_some a.pending))
  ensure (not (is_some a.method))
  lodge (put q id (record { pending = none; armed = poll_triggers trigger; method = some method }))
      id reply

-- The entry of an event that is purged is cleared.
unfoldable pub purge_slot : EventQueue → Option ℕ → Outcome EventQueue
purge_slot q none = done q
purge_slot q (some ix) = do
  ensure (ltb ix q.queue_size)
  done (record q { slots = set q.slots ix none; num_pending = decrement q.num_pending })

-- `ert_purgeFileEventQueueActivity_()`
unfoldable pub purge : EventQueue → Option ℕ → Status → Outcome EventQueue
unfolding purge_slot
purge q poll_event (err e) = ensure (nonzero q.num_armed) >> abort
purge q poll_event (ok _) = do
  ensure (nonzero q.num_armed)
  purge_slot (record q { num_armed = q.num_armed - 1 }) poll_event

-- `ert_closeFileEventQueueActivity()`
unfoldable pub close_activity : EventQueue → ActivityId → Status → Status → Outcome EventQueue
unfolding activity purge put
close_activity q id purged detached = do
  a ← activity q id
  q' ← if nonzero a.armed then purge q a.pending purged else done q
  elim detached [ ok _ ↦ done (put q' id idle_activity) | err e ↦ abort ]

-- `ert_markFileEventQueueActivityPending_()`
unfoldable pub mark_pending : EventQueue → ActivityId → ℕ → Outcome EventQueue
unfolding activity put
mark_pending q id ix = do
  a ← activity q id
  ensure (nonzero a.armed)
  ensure (not (is_some a.pending))
  done (put q id (record a { pending = some ix }))

-- `ert_disarmFileEventQueueActivity_()`, up to the call of the method that it returns.
unfoldable pub take_method : Option MethodId → Outcome MethodId
take_method none = abort
take_method (some m) = done m

unfoldable pub disarm : EventQueue → ActivityId → Outcome (MethodId × EventQueue)
unfolding activity put take_method
disarm q id = do
  a ← activity q id
  ensure (nonzero a.armed)
  ensure (is_some a.pending)
  m ← take_method a.method
  done (m, put q id idle_activity)
