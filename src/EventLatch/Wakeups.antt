-- ===== src/EventLatch/Wakeups.antt =====
-- No wakeup is lost: the pipe is signalled while a latch bound to it waits to be polled.
use libert.Base.{
  ℕ, zero, suc, ◌≡◌, ◌⊎◌, inl, inr, Bool, true, false, ◌&&◌, ◌||◌, none, some, List, [], ◌∷◌,
  get_elem?, set, Outcome, done, Result, ok, err, arith, refl, sym, ap, ◌∙◌, subst, Bool-cases,
}
use libert.EventLatch.{
  LatchId, MethodId, Setting, disabled, off, on, Latch, EventPipe, setting_of, put_latch,
  set_event_pipe, signal_pipe, signal_latch, Signalled, set_latch, disable_latch, reset_latch,
  bind_latch, unbind_latch, reset_pipe, reset_event_pipe, Called, attached, without, bind_signalled,
  once_signalled,
}

-- A bound latch that is set or newly disabled, and has not been polled since.
abbrev pub is_waiting : Latch → Bool
is_waiting l = l.bound && l.live && (l.disable_bit || l.data_bit)

unfoldable pub NoneLost : EventPipe → Type 0
NoneLost p =
    (id : LatchId) (l : Latch)
    → get_elem? p.latches id ≡ some l
    → is_waiting l ≡ true
    → p.signalled ≡ true

-- A latch in a changed list is the changed one or one of before.
pub set-cases :
    (ls : List Latch) (id i : ℕ) (b l : Latch)
    → get_elem? (set ls id b) i ≡ some l
    → (l ≡ b) ⊎ (get_elem? ls i ≡ some l)
set-cases [] id i b l h = inr h
set-cases (x ∷ xs) zero zero b l h = inl (ground (arith, h))
set-cases (x ∷ xs) zero (suc i) b l h = inr h
set-cases (x ∷ xs) (suc id) zero b l h = inr h
set-cases (x ∷ xs) (suc id) (suc i) b l h = set-cases xs id i b l h

-- A change of one latch, and of the signal upwards.
changed-NoneLost :
    (p p' : EventPipe) (id : LatchId) (b : Latch)
    → NoneLost p
    → p'.latches ≡ set p.latches id b
    → ((p.signalled ≡ true) → p'.signalled ≡ true)
    → (is_waiting b ≡ true → p'.signalled ≡ true)
    → NoneLost p'
unfolding NoneLost
changed-NoneLost p p' id b n same up now i l h w =
    elim (set-cases p.latches id i b l (subst (λ ls. get_elem? ls i ≡ some l) same h)) [
      | inl this ↦ now (subst (λ x. is_waiting x ≡ true) this w)
      | inr before ↦ up (n i l before w)
    ]

-- A loop that ends without an error leaves the pipe signalled, and the latches as they were.
signal_pipe-ok :
    (p : EventPipe) (replies : List (Result ℕ)) {p' : EventPipe}
    → signal_pipe p replies ≡ some (ok tt, p')
    → p' ≡ record p { signalled = true }
unfolding signal_pipe set_event_pipe
signal_pipe-ok p [] e = ground (arith, e)
signal_pipe-ok p (ok n ∷ replies) {p'} e = ground (arith, e)
signal_pipe-ok p (err x ∷ replies) {p'} e = ground (arith, e, signal_pipe-ok p replies {p' = p'})

same_pipe :
    {p p' : EventPipe} {s t : Setting}
    → ◌≡◌ {A = Called} (some (ok s, p)) (some (ok t, p'))
    → p ≡ p'
same_pipe e = ground (arith, e)

-- A latch that is marked once the pipe is signalled, if it is bound.
once_signalled-ok :
    (signal : Signalled) (s : Setting) (id : LatchId) (b : Latch) {t : Setting} {p' : EventPipe}
    → once_signalled signal s id b ≡ some (ok t, p')
    → (p1 : EventPipe) × (signal ≡ some (ok tt, p1)) × (p' ≡ put_latch p1 id b)
once_signalled-ok none s id b e = absurd (ground (arith, e))
once_signalled-ok (some (err x, p1)) s id b e = absurd (ground (arith, e))
once_signalled-ok (some (ok tt, p1)) s id b e = (p1, refl, ground (arith, e))

marked-NoneLost :
    (p : EventPipe) (id : LatchId) (l b : Latch) (replies : List (Result ℕ)) (s : Setting)
    {t : Setting} {p' : EventPipe}
    → NoneLost p
    → b.bound ≡ l.bound
    → once_signalled (signal_latch p l replies) s id b ≡ some (ok t, p')
    → NoneLost p'
unfolding signal_latch put_latch
marked-NoneLost p id l b replies s {t} {p'} n same e =
    let (p1, signal, after) =
      once_signalled-ok (signal_latch p l replies) s id b {t = t} {p' = p'} e in
    elim (Bool-cases l.bound) [
      | inl bound ↦
          let loud =
            signal_pipe-ok p replies {p' = p1} (sym (rw (signal_latch, bound) refl) ∙ signal) in
          changed-NoneLost p p' id b n
            (ap (λ (x : EventPipe). x.latches) after
              ∙ ap (λ (x : EventPipe). set x.latches id b) loud)
            (λ _.
              ap (λ (x : EventPipe). x.signalled) after ∙ ap (λ (x : EventPipe). x.signalled) loud)
            (λ _.
              ap (λ (x : EventPipe). x.signalled) after ∙ ap (λ (x : EventPipe). x.signalled) loud)
      | inr loose ↦
          let quiet : p ≡ p1 = ground (arith, loose, signal) in
          changed-NoneLost p p' id b n
            (ap (λ (x : EventPipe). x.latches) after
              ∙ ap (λ (x : EventPipe). set x.latches id b) (sym quiet))
            (λ up.
              ap (λ (x : EventPipe). x.signalled) after
              ∙ ap (λ (x : EventPipe). x.signalled) (sym quiet)
              ∙ up)
            (λ w. absurd (ground (arith, w, same, loose)))
    ]

pub Setting-cases : (s : Setting) → (s ≡ disabled) ⊎ ((s ≡ off) ⊎ (s ≡ on))
Setting-cases disabled = inl refl
Setting-cases off = inr (inl refl)
Setting-cases on = inr (inr refl)

set_latch-NoneLost :
    (p : EventPipe) (id : LatchId) (l : Latch) (replies : List (Result ℕ)) {s : Setting}
    {p' : EventPipe}
    → NoneLost p
    → set_latch p id l replies ≡ some (ok s, p')
    → NoneLost p'
unfolding set_latch
set_latch-NoneLost p id l replies {s} {p'} n e = elim (Setting-cases (setting_of l)) [
  | inl is ↦
      subst NoneLost
        (same_pipe {p = p} {p' = p'} {s = disabled} {t = s} (sym (rw (set_latch, is) refl) ∙ e)) n
  | inr (inr is) ↦
      subst NoneLost
        (same_pipe {p = p} {p' = p'} {s = on} {t = s} (sym (rw (set_latch, is) refl) ∙ e)) n
  | inr (inl is) ↦
      marked-NoneLost p id l (record l { data_bit = true }) replies off {t = s} {p' = p'} n refl
        (sym (rw (set_latch, is) refl) ∙ e)
]

disable_latch-NoneLost :
    (p : EventPipe) (id : LatchId) (l : Latch) (replies : List (Result ℕ)) {s : Setting}
    {p' : EventPipe}
    → NoneLost p
    → disable_latch p id l replies ≡ some (ok s, p')
    → NoneLost p'
unfolding disable_latch
disable_latch-NoneLost p id l replies {s} {p'} n e = elim (Setting-cases (setting_of l)) [
  | inl is ↦
      subst NoneLost
        (same_pipe {p = p} {p' = p'} {s = disabled} {t = s} (sym (rw (disable_latch, is) refl) ∙ e))
        n
  | inr (inl is) ↦
      marked-NoneLost p id l (record l { disable_bit = true }) replies off {t = s} {p' = p'} n refl
        (sym (rw (disable_latch, is) refl) ∙ e)
  | inr (inr is) ↦
      marked-NoneLost p id l (record l { disable_bit = true }) replies on {t = s} {p' = p'} n refl
        (sym (rw (disable_latch, is) refl) ∙ e)
]

reset_latch-NoneLost :
    (p : EventPipe) (id : LatchId) (l : Latch) → NoneLost p → NoneLost (reset_latch p id l).1
unfolding reset_latch put_latch
reset_latch-NoneLost p id l n = elim (Setting-cases (setting_of l)) [
  | inl is ↦ rw (reset_latch, is) n
  | inr (inl is) ↦ rw (reset_latch, is) n
  | inr (inr is) ↦
      rw (reset_latch, is)
        (changed-NoneLost p (put_latch p id (record l { data_bit = false })) id
          (record l { data_bit = false }) n refl (λ up. up) (λ w. absurd (ground (arith, w, is))))
]

unbind_latch-NoneLost :
    (p : EventPipe) (id : LatchId) (l : Latch) → NoneLost p → NoneLost (unbind_latch p id l).1
unfolding unbind_latch
unbind_latch-NoneLost p id l n = elim (Bool-cases l.bound) [
  | inr loose ↦ rw (unbind_latch, loose) n
  | inl bound ↦
      rw (unbind_latch, bound)
        (changed-NoneLost p
          (record p {
            latch_list = without id p.latch_list;
            latches = set p.latches id (record l { bound = false; method = none });
          })
          id (record l { bound = false; method = none }) n refl (λ up. up) (λ w. cc))
]

bind_signalled-ok :
    (signal : Signalled) (s : Setting) {t : Setting} {p' : EventPipe}
    → bind_signalled signal s ≡ some (ok t, p')
    → signal ≡ some (ok tt, p')
bind_signalled-ok none s e = absurd (ground (arith, e))
bind_signalled-ok (some (err x, p1)) s e = absurd (ground (arith, e))
bind_signalled-ok (some (ok tt, p1)) s e = ground (arith, e)

pub loud-NoneLost : (p : EventPipe) → p.signalled ≡ true → NoneLost p
unfolding NoneLost
loud-NoneLost p loud id l h w = loud

bound_loud :
    (q : EventPipe) (replies : List (Result ℕ)) (s : Setting) {t : Setting} {p' : EventPipe}
    → bind_signalled (signal_pipe q replies) s ≡ some (ok t, p')
    → NoneLost p'
bound_loud q replies s {t} {p'} e = loud-NoneLost p' (
    ap (λ (x : EventPipe). x.signalled)
      (signal_pipe-ok q replies {p' = p'}
        (bind_signalled-ok (signal_pipe q replies) s {t = t} {p' = p'} e)))

called_of : {a b : Called} → ◌≡◌ {A = Outcome Called} (done a) (done b) → a ≡ b
called_of e = ground (arith, e)

bind_latch-NoneLost :
    (p : EventPipe) (id : LatchId) (l : Latch) (m : MethodId) (replies : List (Result ℕ))
    {s : Setting} {p' : EventPipe}
    → NoneLost p
    → bind_latch p id l m replies ≡ done (some (ok s, p'))
    → NoneLost p'
unfolding bind_latch
bind_latch-NoneLost p id l m replies {s} {p'} n e = elim (Bool-cases l.bound) [
  | inl bound ↦ absurd (ground (arith, e, bound))
  | inr loose ↦ elim (Setting-cases (setting_of l)) [
    | inl is ↦
        bound_loud (attached p id l m) replies disabled {t = s} {p' = p'}
          (called_of (sym (rw (bind_latch, loose, is) refl) ∙ e))
    | inr (inr is) ↦
        bound_loud (attached p id l m) replies on {t = s} {p' = p'}
          (called_of (sym (rw (bind_latch, loose, is) refl) ∙ e))
    | inr (inl is) ↦
        let same : attached p id l m ≡ p' =
          same_pipe {p = attached p id l m} {p' = p'} {s = off} {t = s}
            (called_of (sym (rw (bind_latch, loose, is) refl) ∙ e)) in
        changed-NoneLost p p' id (record l { bound = true; method = some m }) n
          (ap (λ (x : EventPipe). x.latches) (sym same))
          (λ up. ap (λ (x : EventPipe). x.signalled) (sym same) ∙ up)
          (λ w. absurd (ground (arith, w, is)))
  ]
]

reset_event_pipe-latches :
    (p : EventPipe) (read : Result ℕ) → (reset_event_pipe p read).1.latches ≡ p.latches
unfolding reset_event_pipe reset_pipe
reset_event_pipe-latches p read = ground arith

reset_event_pipe-NoneLost :
    (p : EventPipe) (read : Result ℕ)
    → ((id : LatchId) (l : Latch) → get_elem? p.latches id ≡ some l → is_waiting l ≡ false)
    → NoneLost (reset_event_pipe p read).1
unfolding NoneLost
reset_event_pipe-NoneLost p read idle id l h w =
    let before = subst (λ ls. get_elem? ls id ≡ some l) (reset_event_pipe-latches p read) h in
    absurd (clash (sym (idle id l before) ∙ w))
  where
    clash : false ≡ true → ⊥
    clash e = cc

-- A call on a latch that returns without an error, or a reset of the pipe while no latch waits.
pub data Step (p p' : EventPipe) : Type 0 where
  sets :
      (id : LatchId) (l : Latch) (replies : List (Result ℕ)) (s : Setting)
      → get_elem? p.latches id ≡ some l
      → set_latch p id l replies ≡ some (ok s, p')
      → Step p p'
  disables :
      (id : LatchId) (l : Latch) (replies : List (Result ℕ)) (s : Setting)
      → get_elem? p.latches id ≡ some l
      → disable_latch p id l replies ≡ some (ok s, p')
      → Step p p'
  resets :
      (id : LatchId) (l : Latch)
      → get_elem? p.latches id ≡ some l
      → (reset_latch p id l).1 ≡ p'
      → Step p p'
  binds :
      (id : LatchId) (l : Latch) (m : MethodId) (replies : List (Result ℕ)) (s : Setting)
      → get_elem? p.latches id ≡ some l
      → bind_latch p id l m replies ≡ done (some (ok s, p'))
      → Step p p'
  unbinds :
      (id : LatchId) (l : Latch)
      → get_elem? p.latches id ≡ some l
      → (unbind_latch p id l).1 ≡ p'
      → Step p p'
  empties :
      (read : Result ℕ)
      → ((id : LatchId) (l : Latch) → get_elem? p.latches id ≡ some l → is_waiting l ≡ false)
      → (reset_event_pipe p read).1 ≡ p'
      → Step p p'

-- Setting, disabling, resetting, binding and unbinding a latch, where it returns without an error,
-- loses no wakeup: if the pipe was signalled where a latch bound to it is set or newly disabled and
-- has not been polled since, it is so afterwards. So it is after a reset of the pipe itself while no
-- such latch waits; a reset while one waits is not among the steps.
pub Step-NoneLost : {p p' : EventPipe} → NoneLost p → Step p p' → NoneLost p'
Step-NoneLost {p} {p'} n (sets id l replies s h e) =
    set_latch-NoneLost p id l replies {s = s} {p' = p'} n e
Step-NoneLost {p} {p'} n (disables id l replies s h e) =
    disable_latch-NoneLost p id l replies {s = s} {p' = p'} n e
Step-NoneLost {p} {p'} n (resets id l h e) = subst NoneLost e (reset_latch-NoneLost p id l n)
Step-NoneLost {p} {p'} n (binds id l m replies s h e) =
    bind_latch-NoneLost p id l m replies {s = s} {p' = p'} n e
Step-NoneLost {p} {p'} n (unbinds id l h e) = subst NoneLost e (unbind_latch-NoneLost p id l n)
Step-NoneLost {p} {p'} n (empties read idle e) =
    subst NoneLost e (reset_event_pipe-NoneLost p read idle)
