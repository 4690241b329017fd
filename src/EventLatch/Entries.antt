-- ===== src/EventLatch/Entries.antt =====
-- What the poll of one latch of the list leaves.
use libert.Base.{
  ℕ, zero, suc, ◌≡◌, inl, inr, Bool, true, false, Option, none, some, List, [], ◌∷◌, get_elem?, set,
  Outcome, done, Result, ok, err, arith, refl, sym, ap, ◌∙◌, subst, Bool-cases,
}
use libert.EventLatch.{
  LatchId, MethodId, Method, Latch, EventPipe, setting_of, put_latch, call_method, after_method,
  poll_entry,
}
use libert.EventLatch.Wakeups.{is_waiting, set-cases, Setting-cases}

-- The latches that wait are among those that did.
pub record IsCalmer (p p' : EventPipe) : Type 0 where
  pub signal : p'.signalled ≡ p.signalled
  pub before :
      (i : LatchId) (l : Latch)
      → get_elem? p'.latches i ≡ some l
      → is_waiting l ≡ true
      → get_elem? p.latches i ≡ some l

put-IsCalmer :
    (p : EventPipe) (id : LatchId) (b : Latch)
    → is_waiting b ≡ false
    → IsCalmer p (put_latch p id b)
unfolding put_latch
put-IsCalmer p id b calm = record {
  signal = refl;
  before = λ i l h w. elim (set-cases p.latches id i b l h) [
    | inl this ↦ absurd (ground (arith, w, calm, ap (λ (x : Latch). is_waiting x) this))
    | inr same ↦ same
  ];
}

pub same-IsCalmer : (p : EventPipe) → IsCalmer p p
same-IsCalmer p = record { signal = refl; before = λ i l h w. h }

get_elem?-put :
    (ls : List Latch) (id : ℕ) (a b : Latch)
    → get_elem? ls id ≡ some a
    → get_elem? (set ls id b) id ≡ some b
get_elem?-put [] id a b h = cc
get_elem?-put (x ∷ xs) zero a b h = refl
get_elem?-put (x ∷ xs) (suc id) a b h = get_elem?-put xs id a b h

-- What the poll of an entry leaves: fewer latches that wait, and not this one.
pub record IsPolled (p p' : EventPipe) (id : LatchId) : Type 0 where
  pub calmer : IsCalmer p p'
  pub served : (l : Latch) → get_elem? p'.latches id ≡ some l → is_waiting l ≡ false

module _ (call : MethodId → Method)
    (quiet : (m : MethodId) (enabled : Bool) (p : EventPipe) → (call m enabled p).1 ≡ p) where
  after_method-pipe :
      (status : Result (Unit {0})) (p : EventPipe) {r : Result Bool} {p' : EventPipe}
      → after_method status p ≡ done (r, p')
      → p ≡ p'
  after_method-pipe (ok u) p e = ground (arith, e)
  after_method-pipe (err x) p e = ground (arith, e)

  call_method-pipe :
      (m : Option MethodId) (enabled : Bool) (p : EventPipe) {r : Result Bool} {p' : EventPipe}
      → call_method call m enabled p ≡ done (r, p')
      → p ≡ p'
  call_method-pipe none enabled p e = cc
  call_method-pipe (some m) enabled p {r} {p'} e =
      sym (quiet m enabled p)
      ∙ after_method-pipe (call m enabled p).0 (call m enabled p).1 {r = r} {p' = p'} e

  put-IsPolled :
      (p : EventPipe) (id : LatchId) (l b : Latch) {p' : EventPipe}
      → get_elem? p.latches id ≡ some l
      → is_waiting b ≡ false
      → put_latch p id b ≡ p'
      → IsPolled p p' id
  unfolding put_latch
  put-IsPolled p id l b h calm e =
      subst (λ x. IsPolled p x id) e
        (record {
          calmer = put-IsCalmer p id b calm;
          served = λ l' h'. ground (arith, h', get_elem?-put p.latches id l b h, calm);
        })

  same-IsPolled :
      (p : EventPipe) (id : LatchId) (l : Latch) {r s : Result Bool} {p' : EventPipe}
      → get_elem? p.latches id ≡ some l
      → is_waiting l ≡ false
      → ◌≡◌ {A = Outcome (Result Bool × EventPipe)} (done (r, p)) (done (s, p'))
      → IsPolled p p' id
  same-IsPolled p id l {r} {s} {p'} h calm e =
      let same : p ≡ p' = ground (arith, e) in
      subst (λ x. IsPolled p x id) same
        (record { calmer = same-IsCalmer p; served = λ l' h'. ground (arith, h, h', calm) })

  pub poll_entry-IsPolled :
      (p : EventPipe) (id : LatchId) (l : Latch) {r : Result Bool} {p' : EventPipe}
      → get_elem? p.latches id ≡ some l
      → poll_entry call p id l ≡ done (r, p')
      → IsPolled p p' id
  unfolding poll_entry put_latch
  poll_entry-IsPolled p id l {r} {p'} h e = elim (Bool-cases l.live) [
    | inr dead ↦
        same-IsPolled p id l {r = ok false} {s = r} {p' = p'} h (ground (arith, dead))
          (sym (rw (poll_entry, dead) refl) ∙ e)
    | inl live ↦ elim (Setting-cases (setting_of l)) [
      | inr (inl is) ↦
          same-IsPolled p id l {r = ok false} {s = r} {p' = p'} h (ground (arith, is))
            (sym (rw (poll_entry, live, is) refl) ∙ e)
      | inr (inr is) ↦
          let opened : poll_entry call p id l
              ≡ call_method call l.method true (put_latch p id (record l { data_bit = false })) =
            ground (arith, live, is) in
          put-IsPolled p id l (record l { data_bit = false }) {p' = p'} h (ground (arith, is))
            (call_method-pipe l.method true (put_latch p id (record l { data_bit = false })) {r = r}
              {p' = p'} (sym opened ∙ e))
      | inl is ↦
          put-IsPolled p id l (record l { live = false }) {p' = p'} h (ground (arith, is))
            (call_method-pipe l.method false (put_latch p id (record l { live = false })) {r = r}
              {p' = p'} (sym (rw (poll_entry, live, is) refl) ∙ e))
    ]
  ]
