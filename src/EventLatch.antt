-- ===== src/EventLatch.antt =====
-- src/eventlatch.c and src/eventpipe.c: latches bound to one pipe, which is signalled when one of them
-- is set or disabled. Each call holds the mutexes that it takes to its end, and is one step here. What
-- write() and read() on the pipe return is an argument.
pub mod Wakeups
pub mod Entries
pub mod Polls
mod Tests
use libert.Base.{
  ℕ, zero, suc, ◌+◌, Bool, true, false, not, ◌&&◌, ◌||◌, Option, none, some, List, [], ◌∷◌,
  get_elem?, set, ◌==◌, nonzero, if◌then◌else◌, eintr, eio, Errno, Outcome, done, abort, ◌>>◌,
  ensure, Result, ok, err,
}

abbrev pub LatchId : Type 0
LatchId = ℕ

abbrev pub MethodId : Type 0
MethodId = ℕ

-- `enum Ert_EventLatchSetting`, but for the error.
pub data Setting : Type 0 where
  disabled off on : Setting

-- `struct Ert_EventLatch`: the two bits of `mEvent`, whether `mPipe` points at the pipe, and of the list
-- entry whether `mLatch` still points at the latch, and the method.
pub record Latch : Type 0 where
  pub disable_bit : Bool
  pub data_bit : Bool
  pub bound : Bool
  pub live : Bool
  pub method : Option MethodId

abbrev pub new_latch : Latch
new_latch = record {
  disable_bit = false;
  data_bit = false;
  bound = false;
  live = true;
  method = none;
}

-- `struct Ert_EventPipe`, with the latches there are: `latch_list` has those bound, the last one first.
pub record EventPipe : Type 0 where
  pub signalled : Bool
  pub latch_list : List LatchId
  pub latches : List Latch

abbrev pub setting_of : Latch → Setting
setting_of l = if l.disable_bit then disabled else if l.data_bit then on else off

unfoldable pub put_latch : EventPipe → LatchId → Latch → EventPipe
put_latch p id l = record p { latches = set p.latches id l }

-- `ert_setEventPipe()`: a write of another number of bytes than one is an error.
unfoldable pub set_event_pipe : EventPipe → Result ℕ → Result Bool × EventPipe
set_event_pipe p wrote = if p.signalled then (ok false, p) else elim wrote [
  | err e ↦ (err e, p)
  | ok n ↦ if n == 1 then (ok true, record p { signalled = true }) else (err eio, p)
]

-- `signalEventLatch_()`: the call is repeated where it is interrupted. `none` where the replies end
-- before the loop does.
abbrev pub Signalled : Type 0
Signalled = Option (Result (Unit {0}) × EventPipe)

abbrev pub after_set : Result Bool × EventPipe → Signalled → Signalled
after_set (ok _, p) again = some (ok tt, p)
after_set (err e, p) again = if e == eintr then again else some (err e, p)

unfoldable pub signal_pipe : EventPipe → List (Result ℕ) → Signalled
unfolding set_event_pipe
signal_pipe p [] = if p.signalled then some (ok tt, p) else none
signal_pipe p (wrote ∷ replies) =
    let again = signal_pipe p replies in after_set (set_event_pipe p wrote) again

unfoldable pub signal_latch : EventPipe → Latch → List (Result ℕ) → Signalled
unfolding signal_pipe
signal_latch p l replies = if l.bound then signal_pipe p replies else some (ok tt, p)

-- What a call on a latch returns.
abbrev pub Called : Type 0
Called = Option (Result Setting × EventPipe)

-- A change that is made once the pipe is signalled.
abbrev pub once_signalled : Signalled → Setting → LatchId → Latch → Called
once_signalled none setting id l = none
once_signalled (some (err e, p)) setting id l = some (err e, p)
once_signalled (some (ok _, p)) setting id l = some (ok setting, put_latch p id l)

-- `ert_setEventLatch()`, `ert_disableEventLatch()` and `ert_resetEventLatch()` on a latch there is.
unfoldable pub set_latch : EventPipe → LatchId → Latch → List (Result ℕ) → Called
unfolding signal_latch put_latch
set_latch p id l replies = elim (setting_of l) [
  | disabled ↦ some (ok disabled, p)
  | on ↦ some (ok on, p)
  | off ↦ once_signalled (signal_latch p l replies) off id (record l { data_bit = true })
]

unfoldable pub disable_latch : EventPipe → LatchId → Latch → List (Result ℕ) → Called
unfolding signal_latch put_latch
disable_latch p id l replies = elim (setting_of l) [
  | disabled ↦ some (ok disabled, p)
  | s ↦ once_signalled (signal_latch p l replies) s id (record l { disable_bit = true })
]

unfoldable pub reset_latch : EventPipe → LatchId → Latch → Setting × EventPipe
unfolding put_latch
reset_latch p id l = elim (setting_of l) [
  | disabled ↦ (disabled, p)
  | off ↦ (off, p)
  | on ↦ (on, put_latch p id (record l { data_bit = false }))
]

-- `ert_bindEventLatchPipe()` and `ert_unbindEventLatchPipe()`.
abbrev pub attached : EventPipe → LatchId → Latch → MethodId → EventPipe
attached p id l method = record p {
  latch_list = id ∷ p.latch_list;
  latches = set p.latches id (record l { bound = true; method = some method });
}

abbrev pub bind_signalled : Signalled → Setting → Called
bind_signalled none setting = none
bind_signalled (some (err e, p)) setting = some (err e, p)
bind_signalled (some (ok _, p)) setting = some (ok setting, p)

unfoldable pub bind_latch :
    EventPipe → LatchId → Latch → MethodId → List (Result ℕ) → Outcome Called
unfolding signal_pipe
bind_latch p id l method replies =
    ensure (not l.bound)
    >> done (elim (setting_of l) [
      | off ↦ some (ok off, attached p id l method)
      | s ↦ bind_signalled (signal_pipe (attached p id l method) replies) s
    ])

abbrev pub without : LatchId → List LatchId → List LatchId
without id [] = []
without id (x ∷ xs) = let rest = without id xs in if id == x then xs else x ∷ rest

unfoldable pub unbind_latch : EventPipe → LatchId → Latch → Setting × EventPipe
unbind_latch p id l =
    if l.bound
    then (
      setting_of l,
      record p {
        latch_list = without id p.latch_list;
        latches = set p.latches id (record l { bound = false; method = none });
      },
    )
    else (setting_of l, p)

-- A method is told whether its latch is enabled, and does what it likes.
abbrev pub Method : Type 0
Method = Bool → EventPipe → Result (Unit {0}) × EventPipe

abbrev pub after_method : Result (Unit {0}) → EventPipe → Outcome (Result Bool × EventPipe)
after_method (ok _) p = done (ok true, p)
after_method (err e) p = done (err e, p)

abbrev pub call_method :
    (MethodId → Method) → Option MethodId → Bool → EventPipe → Outcome (Result Bool × EventPipe)
call_method call none enabled p = abort
call_method call (some m) enabled p = let (status, p') = call m enabled p in after_method status p'

-- `ert_pollEventLatchListEntry()`: whether the method was called. The entry of a disabled latch lets go
-- of it.
unfoldable pub poll_entry :
    (MethodId → Method) → EventPipe → LatchId → Latch → Outcome (Result Bool × EventPipe)
unfolding put_latch
poll_entry call p id l =
    if l.live
    then elim (setting_of l) [
      | off ↦ done (ok false, p)
      | on ↦ call_method call l.method true (put_latch p id (record l { data_bit = false }))
      | disabled ↦ call_method call l.method false (put_latch p id (record l { live = false }))
    ]
    else done (ok false, p)

-- How the loop over the entries ends: with an error before any method was called, at an error after
-- that, or at the end of the list; with the number of methods called.
pub data PollEnd : Type 0 where
  failed : Errno → EventPipe → PollEnd
  stopped finished : ℕ → EventPipe → PollEnd

unfoldable pub poll_list : (MethodId → Method) → List LatchId → ℕ → EventPipe → Outcome PollEnd
unfolding poll_entry
poll_list call [] count p = done (finished count p)
poll_list call (id ∷ ids) count p = elim (get_elem? p.latches id) [
  | none ↦ abort
  | some l ↦ elim (poll_entry call p id l) [
    | abort ↦ abort
    | done polled ↦ elim polled.0 [
      | ok called ↦ poll_list call ids (if called then count + 1 else count) polled.1
      | err e ↦ done (if count == 0 then failed e polled.1 else stopped count polled.1)
    ]
  ]
]

-- `resetEventPipe_()` on a pipe that is signalled; the assertion on the byte read is not modelled.
unfoldable pub reset_pipe : EventPipe → Result ℕ → Result Bool × EventPipe
reset_pipe p read =
    if p.signalled
    then elim read [
      | err e ↦ (err e, p)
      | ok n ↦ if n == 1 then (ok true, record p { signalled = false }) else (err eio, p)
    ]
    else (ok false, p)

-- `ert_resetEventPipe()`
unfoldable pub reset_event_pipe : EventPipe → Result ℕ → Result Bool × EventPipe
unfolding reset_pipe
reset_event_pipe p read = reset_pipe p read

-- `ert_pollEventPipe()`
abbrev pub polled_reset : ℕ → Result Bool × EventPipe → Outcome (Result ℕ × EventPipe)
polled_reset count (err e, p) = done (err e, p)
polled_reset count (ok true, p) = done (ok count, p)
polled_reset count (ok false, p) = abort

abbrev pub end_poll : Outcome PollEnd → Result ℕ → Outcome (Result ℕ × EventPipe)
end_poll abort read = abort
end_poll (done (failed e p)) read = done (err e, p)
end_poll (done (stopped count p)) read = done (ok count, p)
end_poll (done (finished count p)) read = polled_reset count (reset_pipe p read)

unfoldable pub poll_pipe :
    (MethodId → Method) → EventPipe → Result ℕ → Outcome (Result ℕ × EventPipe)
unfolding poll_list reset_pipe
poll_pipe call p read =
    if p.signalled then end_poll (poll_list call p.latch_list 0 p) read else done (ok 0, p)
