-- ===== src/EventLatch/Tests.antt =====
-- A latch that is bound, set and polled.
use libert.Base.{zero, suc, ◌≡◌, inl, true, false, some, [], ◌∷◌, done, ok, err, eintr, refl, arith}
use libert.EventLatch.{
  MethodId, Method, off, Latch, new_latch, EventPipe, set_event_pipe, signal_pipe, signal_latch,
  set_latch, put_latch, poll_pipe, poll_list, poll_entry, reset_pipe, reset_event_pipe,
}
use libert.EventLatch.Wakeups.{NoneLost, sets, Step-NoneLost}
use libert.EventLatch.Polls.{IsListed, poll_pipe-NoneLost}

abbrev bound_latch : Latch
bound_latch = record new_latch { bound = true; method = some 3 }

abbrev one_bound : EventPipe
one_bound = record { signalled = false; latch_list = 0 ∷ []; latches = bound_latch ∷ [] }

abbrev one_set : EventPipe
one_set = record {
  signalled = true;
  latch_list = 0 ∷ [];
  latches = record bound_latch { data_bit = true } ∷ [];
}

-- The first write is interrupted.
one_set_made : set_latch one_bound 0 bound_latch (err eintr ∷ ok 1 ∷ []) ≡ some (ok off, one_set)
unfolding set_latch signal_latch signal_pipe set_event_pipe put_latch
one_set_made = refl

one_bound-NoneLost : NoneLost one_bound
unfolding NoneLost
one_bound-NoneLost zero l h w = ground (arith, h, w)
one_bound-NoneLost (suc id) l h w = cc

Step-NoneLost_example : NoneLost one_set
Step-NoneLost_example =
    Step-NoneLost {p = one_bound} {p' = one_set} one_bound-NoneLost
      (sets 0 bound_latch (err eintr ∷ ok 1 ∷ []) off refl one_set_made)

-- A method that leaves everything alone.
abbrev quiet : MethodId → Method
quiet m enabled p = (ok tt, p)

one_polled : poll_pipe quiet one_set (ok 1) ≡ done (ok 1, one_bound)
unfolding poll_pipe poll_list poll_entry put_latch reset_pipe
one_polled = refl

-- A reset of the pipe by itself loses the wakeup of the latch that is set.
lost : reset_event_pipe one_set (ok 1) ≡ (ok true, record one_set { signalled = false })
unfolding reset_event_pipe reset_pipe
lost = refl

one_set-NoneLost : NoneLost one_set
unfolding NoneLost
one_set-NoneLost id l h w = refl

one_set-IsListed : IsListed one_set
unfolding IsListed
one_set-IsListed zero l h b = inl refl
one_set-IsListed (suc id) l h b = cc

poll_pipe-NoneLost_example : NoneLost one_bound
poll_pipe-NoneLost_example =
    poll_pipe-NoneLost quiet (λ m enabled p. refl) one_set (ok 1) {n = 1} {p' = one_bound}
      one_set-NoneLost one_set-IsListed one_polled
