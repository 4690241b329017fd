-- ===== src/EventLatch/Polls.antt =====
-- A poll of the pipe loses no wakeup.
use libert.Base.{
  ℕ, ◌+◌, ◌≡◌, ◌⊎◌, inl, inr, Bool, true, false, some, List, [], ◌∷◌, get_elem?, ◌==◌,
  if◌then◌else◌, Errno, Outcome, done, Result, ok, err, arith, refl, sym, ap, ◌∙◌, subst,
  Bool-cases, Option-cases, Outcome-cases,
}
use libert.EventLatch.{
  LatchId, MethodId, Method, Latch, EventPipe, poll_entry, PollEnd, failed, stopped, finished,
  poll_list, poll_pipe, reset_pipe, end_poll,
}
use libert.EventLatch.Entries.{IsCalmer, IsPolled, same-IsCalmer, poll_entry-IsPolled}
use libert.EventLatch.Wakeups.{is_waiting, NoneLost, loud-NoneLost}

abbrev pub IsIn : LatchId → List LatchId → Type 0
IsIn id [] = ⊥
IsIn id (x ∷ xs) = (id ≡ x) ⊎ IsIn id xs

-- The list of the pipe has every latch that is bound to it.
unfoldable pub IsListed : EventPipe → Type 0
IsListed p =
    (id : LatchId) (l : Latch)
    → get_elem? p.latches id ≡ some l
    → l.bound ≡ true
    → IsIn id p.latch_list

waits_not : (l : Latch) → is_waiting l ≡ true → is_waiting l ≡ false → ⊥
waits_not l a b = cc

waits_bound : (l : Latch) → is_waiting l ≡ true → l.bound ≡ true
waits_bound l w = ground (arith, w)

module _ (call : MethodId → Method)
    (quiet : (m : MethodId) (enabled : Bool) (p : EventPipe) → (call m enabled p).1 ≡ p) where
  -- What the loop leaves: the signal and fewer latches that wait; after all entries, none of them.
  pipe_of : PollEnd → EventPipe
  pipe_of (failed e p) = p
  pipe_of (stopped n p) = p
  pipe_of (finished n p) = p

  chain : {p q r : EventPipe} → IsCalmer p q → IsCalmer q r → IsCalmer p r
  chain a b = record {
    signal = b.signal ∙ a.signal;
    before = λ i l h w. a.before i l (b.before i l h w) w;
  }

  record IsServed (ids : List LatchId) (p : EventPipe) (end : PollEnd) : Type 0 where
    pub calmer : IsCalmer p (pipe_of end)
    pub served :
        (n : ℕ) (q : EventPipe)
        → end ≡ finished n q
        → (i : LatchId) (l : Latch) → IsIn i ids
        → get_elem? q.latches i ≡ some l
        → is_waiting l ≡ false

  -- The loop ends at an entry.
  ended :
      (id : LatchId) (ids : List LatchId) (p p1 : EventPipe) (x : Errno) (at end : PollEnd)
      (l : Latch)
      → get_elem? p.latches id ≡ some l
      → poll_entry call p id l ≡ done (err x, p1)
      → ((n : ℕ) (q : EventPipe) → at ≡ finished n q → ⊥)
      → pipe_of at ≡ p1
      → ◌≡◌ {A = Outcome PollEnd} (done at) (done end)
      → IsServed (id ∷ ids) p end
  ended id ids p p1 x at end l h polled unfinished here e =
      let same : at ≡ end = ground (arith, e) in
      subst (λ y. IsServed (id ∷ ids) p y) same
        (record {
          calmer =
              subst (λ y. IsCalmer p y) (sym here)
                (poll_entry-IsPolled call quiet p id l {r = err x} {p' = p1} h polled).calmer;
          served = λ n q e1. absurd (unfinished n q e1);
        })

  first_or_later :
      {p p1 : EventPipe} {id : LatchId} {ids : List LatchId} {end : PollEnd}
      → IsPolled p p1 id
      → IsServed ids p1 end
      → (n : ℕ) (q : EventPipe) → end ≡ finished n q
      → (i : LatchId) (l : Latch) → IsIn i (id ∷ ids)
      → get_elem? q.latches i ≡ some l
      → is_waiting l ≡ false
  unfolding pipe_of
  first_or_later one rest n q e i l (inr later) h = rest.served n q e i l later h
  first_or_later {p1 = p1} one rest n q e i l (inl here) h = elim (Bool-cases (is_waiting l)) [
    | inr calm ↦ calm
    | inl w ↦
        let at_q = ap (λ (y : PollEnd). pipe_of y) e in
        let kept =
          rest.calmer.before i l
            (subst (λ (y : EventPipe). get_elem? y.latches i ≡ some l) (sym at_q) h) w in
        one.served l (subst (λ (y : LatchId). get_elem? p1.latches y ≡ some l) here kept)
  ]

  poll_list-IsServed :
      (ids : List LatchId) (count : ℕ) (p : EventPipe) {end : PollEnd}
      → poll_list call ids count p ≡ done end
      → IsServed ids p end
  unfolding poll_list pipe_of
  poll_list-IsServed [] count p {end} e =
      let same : finished count p ≡ end = ground (arith, e) in
      subst (λ x. IsServed [] p x) same
        (record { calmer = same-IsCalmer p; served = λ n q e1 i l h. absurd h })
  poll_list-IsServed (id ∷ ids) count p {end} e = elim (Option-cases (get_elem? p.latches id)) [
    | inl missing ↦ absurd (ground (arith, e, missing))
    | inr (l, h) ↦ elim (Outcome-cases (poll_entry call p id l)) [
      | inl crashed ↦ absurd (ground (arith, e, h, crashed))
      | inr ((ok called, p1), polled) ↦
          let one = poll_entry-IsPolled call quiet p id l {r = ok called} {p' = p1} h polled in
          let rest =
            poll_list-IsServed ids (if called then count + 1 else count) p1 {end = end}
              (sym (rw (poll_list, h, polled) refl) ∙ e) in
          record {
            calmer = chain one.calmer rest.calmer;
            served = λ n q e1 i l' m h'. first_or_later one rest n q e1 i l' m h';
          }
      | inr ((err x, p1), polled) ↦ elim (Bool-cases (count == 0)) [
        | inl first ↦
            ended id ids p p1 x (failed x p1) end l h polled (λ n q e1. cc) refl
              (sym (rw (poll_list, h, polled, first) refl) ∙ e)
        | inr later ↦
            ended id ids p p1 x (stopped count p1) end l h polled (λ n q e1. cc) refl
              (sym (rw (poll_list, h, polled, later) refl) ∙ e)
      ]
    ]
  ]

  end_poll-NoneLost :
      (p : EventPipe) (end : PollEnd) (read : Result ℕ) {n : ℕ} {p' : EventPipe}
      → p.signalled ≡ true
      → NoneLost p
      → IsListed p
      → IsServed p.latch_list p end
      → end_poll (done end) read ≡ done (ok n, p')
      → NoneLost p'
  unfolding reset_pipe NoneLost IsListed pipe_of
  end_poll-NoneLost p (failed x q) read loud none_lost listed s e = absurd (ground (arith, e))
  end_poll-NoneLost p (stopped k q) read {n} {p'} loud none_lost listed s e =
      let same : q ≡ p' = ground (arith, e) in
      subst NoneLost same (loud-NoneLost q (s.calmer.signal ∙ loud))
  end_poll-NoneLost p (finished k q) (err x) loud none_lost listed s e =
      absurd (ground (arith, e, s.calmer.signal, loud))
  end_poll-NoneLost p (finished k q) (ok m) {n} {p'} loud none_lost listed s e =
      let signal : q.signalled ≡ true = s.calmer.signal ∙ loud in
      elim (Bool-cases (m == 1)) [
        | inr other ↦ absurd (ground (arith, e, signal, other))
        | inl one ↦
            let same : record q { signalled = false } ≡ p' = ground (arith, e, signal, one) in
            subst NoneLost same (λ id l h w. absurd (
              waits_not l w (
                s.served k q refl id l (listed id l (s.calmer.before id l h w) (waits_bound l w))
                  h)))
      ]

  -- A poll loses no wakeup, whichever way it ends without an error, if the methods that it calls leave
  -- the latches and the pipe alone: where the list of the pipe has all the latches bound to it, the pipe is
  -- signalled afterwards if one of them still waits to be polled.
  pub poll_pipe-NoneLost :
      (p : EventPipe) (read : Result ℕ) {n : ℕ} {p' : EventPipe}
      → NoneLost p
      → IsListed p
      → poll_pipe call p read ≡ done (ok n, p')
      → NoneLost p'
  unfolding poll_pipe NoneLost IsListed
  poll_pipe-NoneLost p read {n} {p'} none_lost listed e = elim (Bool-cases p.signalled) [
    | inr silent ↦ let same : p ≡ p' = ground (arith, e, silent) in subst NoneLost same none_lost
    | inl loud ↦ elim (Outcome-cases (poll_list call p.latch_list 0 p)) [
      | inl crashed ↦ absurd (ground (arith, e, loud, crashed))
      | inr (end, polled) ↦
          end_poll-NoneLost p end read {n = n} {p' = p'} loud none_lost listed
            (poll_list-IsServed p.latch_list 0 p {end = end} polled)
            (sym (rw (poll_pipe, polled, loud) refl) ∙ e)
    ]
  ]
