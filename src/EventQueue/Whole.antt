-- ===== src/EventQueue/Whole.antt =====
-- A whole poll against the counters of the queue.
use libert.Base.{
  ℕ, zero, suc, ◌≡◌, inl, inr, Option, none, some, List, Outcome, done, abort, ok, err, arith, refl,
  sym, ◌∙◌, subst, Bool-cases, Outcome-cases, nonzero,
}
use libert.TimeScale.{Duration}
use libert.TimeKeeping.{EventClockTime}
use libert.EventQueue.{ActivityId, MethodId, Status, EventQueue}
use libert.EventQueue.Poll.{
  Method, Polled, Events, after_method, dispatch, dispatch_one, receive, take_events, after_wait,
  wait_events, poll,
}
use libert.EventQueue.Counts.{IsCounted}
use libert.EventQueue.Rounds.{receive-IsCounted, dispatch_one-IsCounted}

module _ (call : MethodId → Method)
    (keeps : (m : MethodId) (p : EventQueue) (s : Status) (p' : EventQueue)
      → IsCounted p
      → call m p ≡ done (s, p')
      → IsCounted p') where
  after_method-IsCounted :
      (returned : Outcome (Status × EventQueue)) (go_on : EventQueue → Polled) {s : Status}
      {q' : EventQueue}
      → ((p : EventQueue) (t : Status) → returned ≡ done (t, p) → IsCounted p)
      → ((p : EventQueue) → IsCounted p → go_on p ≡ some (done (s, q')) → IsCounted q')
      → after_method returned go_on ≡ some (done (s, q'))
      → IsCounted q'
  after_method-IsCounted abort go_on c k e = absurd (ground (arith, e))
  after_method-IsCounted (done (err x, p)) go_on {s} {q'} c k e =
      let same : p ≡ q' = ground (arith, e) in subst IsCounted same (c p (err x) refl)
  after_method-IsCounted (done (ok u, p)) go_on c k e = k p (c p (ok u) refl) e

  ended :
      {q q' : EventQueue} {s : Status}
      → ◌≡◌ {A = Polled} (some (done (ok tt, q))) (some (done (s, q')))
      → q ≡ q'
  ended e = ground (arith, e)

  stopped_not :
      {q' : EventQueue} {s : Status} → ◌≡◌ {A = Polled} (some abort) (some (done (s, q'))) → ⊥
  stopped_not e = ground (arith, e)

  dispatch-IsCounted :
      (fuel : ℕ) (q : EventQueue) {s : Status} {q' : EventQueue}
      → IsCounted q
      → dispatch call fuel q ≡ some (done (s, q'))
      → IsCounted q'
  unfolding dispatch
  dispatch-IsCounted zero q {s} {q'} c e =
      let same : q ≡ q' = ground (arith, e) in subst IsCounted same c
  dispatch-IsCounted (suc fuel) q {s} {q'} c e = elim (Bool-cases (nonzero q.queue_pending)) [
    | inr empty ↦
        let same : q ≡ q' = ended (sym (rw (dispatch, empty) refl) ∙ e) in subst IsCounted same c
    | inl more ↦ elim (Outcome-cases (dispatch_one q)) [
      | inl stopped ↦ absurd (stopped_not (sym (rw (dispatch, more, stopped) refl) ∙ e))
      | inr ((none, q1), next) ↦
          dispatch-IsCounted fuel q1 {s = s} {q' = q'}
            (dispatch_one-IsCounted q {o = none} {q' = q1} c next)
            (sym (rw (dispatch, more, next) refl) ∙ e)
      | inr ((some m, q1), next) ↦
          let c1 = dispatch_one-IsCounted q {o = some m} {q' = q1} c next in
          after_method-IsCounted (call m q1) (λ p. dispatch call fuel p) {s = s} {q' = q'}
            (λ p t e1. keeps m q1 t p c1 e1)
            (λ p cp e1. dispatch-IsCounted fuel p {s = s} {q' = q'} cp e1)
            (sym (rw (dispatch, more, next) refl) ∙ e)
    ]
  ]

  received-IsCounted :
      (fuel : ℕ) (q : EventQueue) (events : List ActivityId) {s : Status} {q' : EventQueue}
      → IsCounted q
      → take_events call fuel q events ≡ some (done (s, q'))
      → IsCounted q'
  received-IsCounted fuel q events {s} {q'} c e = elim (Outcome-cases (receive q events)) [
    | inl stopped ↦ absurd (stopped_not (sym (rw (take_events, stopped) refl) ∙ e))
    | inr (q1, taken) ↦
        dispatch-IsCounted fuel q1 {s = s} {q' = q'} (receive-IsCounted q events {q' = q1} c taken)
          (sym (rw (take_events, taken) refl) ∙ e)
  ]

  -- Whatever a poll returns, and however its wait went: if the methods that it calls keep the counters
  -- right, then so does the poll.
  pub poll-IsCounted :
      (fuel : ℕ) (timeout : Option Duration) (rounds : List (Outcome EventClockTime × Events))
      (q : EventQueue) {s : Status} {q' : EventQueue}
      → IsCounted q
      → poll call fuel timeout rounds q ≡ some (done (s, q'))
      → IsCounted q'
  unfolding poll
  poll-IsCounted fuel timeout rounds q {s} {q'} c e = elim (Bool-cases (nonzero q.queue_pending)) [
    | inl left ↦ dispatch-IsCounted fuel q {s = s} {q' = q'} c (sym (rw (poll, left) refl) ∙ e)
    | inr empty ↦
        after_wait-IsCounted (wait_events timeout 0 rounds) (sym (rw (poll, empty) refl) ∙ e)
  ]
    where
      after_wait-IsCounted :
          (waited : Option (Outcome Events))
          → after_wait call fuel q waited ≡ some (done (s, q'))
          → IsCounted q'
      after_wait-IsCounted none e1 = absurd (ground (arith, e1))
      after_wait-IsCounted (some abort) e1 = absurd (stopped_not e1)
      after_wait-IsCounted (some (done (err x))) e1 =
          let same : q ≡ q' = ground (arith, e1) in subst IsCounted same c
      after_wait-IsCounted (some (done (ok events))) e1 =
          received-IsCounted fuel q events {s = s} {q' = q'} c e1
