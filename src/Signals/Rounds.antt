-- ===== src/Signals/Rounds.antt =====
-- The loops that put actions back, slot by slot.
use libert.Base.{
  ℕ, ◌≡◌, refl, ◌∙◌, ap, Bool, true, false, List, [], ◌∷◌, if◌then◌else◌, Errno, Outcome, done,
  abort, ◌>>=◌, Result, ok, err, Bool-cases, inl, inr,
}
use libert.Signals.{
  SigAction, Signals, is_allowed, install_action, SignalWatch, change_sig_action, watch_slots,
  revert_slots, reset_slots, first_error,
}
use libert.Signals.Restore.{entry, Distinct, Succeeds, Allowed, restored, changed, restored-changed}

pub change-ok :
    (r : Result (Unit {0})) (signal : ℕ) (a : SigAction) (s : Signals)
    → r ≡ ok tt
    → is_allowed a ≡ true
    → change_sig_action r signal a s ≡ (ok (s.actions signal), changed signal a s)
unfolding change_sig_action install_action
change-ok r signal a s h allowed = rw (change_sig_action, allowed, h) refl

pub change-err :
    (r : Result (Unit {0})) (signal : ℕ) (a : SigAction) (s : Signals) (e : Errno)
    → r ≡ err e
    → is_allowed a ≡ true
    → change_sig_action r signal a s ≡ (err e, s)
unfolding change_sig_action install_action
change-err r signal a s e h allowed = rw (change_sig_action, allowed, h) refl

-- One round of each loop, over the change that it makes.
reset_round :
    (ℕ → Result (Unit {0}))
    → SignalWatch
    → List SignalWatch
    → Result SigAction × Signals
    → Result (Unit {0}) × List SignalWatch × Signals
reset_round reply w ws c =
    let rest = reset_slots reply ws c.1 in
    elim c.0 [
      | err e ↦ (first_error (err e) rest.0, record w { watched = false } ∷ rest.1, rest.2)
      | ok old ↦ (rest.0, w ∷ rest.1, rest.2)
    ]

revert_round :
    (ℕ → Result (Unit {0}))
    → SignalWatch
    → List SignalWatch
    → Result SigAction × Signals
    → Outcome (List SignalWatch × Signals)
revert_round reply w ws c =
    let rest = revert_slots reply ws c.1 in
    elim c.0 [
      | err e ↦ abort
      | ok old ↦ rest >>= λ r. done (record w { watched = false } ∷ r.0, r.1)
    ]

unfoldable pub watch_round :
    (ℕ → Result (Unit {0}))
    → SignalWatch
    → List SignalWatch
    → Result SigAction × Signals
    → Result (Unit {0}) × List SignalWatch × Signals
watch_round reply w ws c =
    let rest = watch_slots reply ws c.1 in
    elim c.0 [
      | err e ↦ (err e, w ∷ ws, c.1)
      | ok old ↦ (rest.0, record w { sig_action = old; watched = true } ∷ rest.1, rest.2)
    ]

reset_slots-watched :
    (reply : ℕ → Result (Unit {0})) (w : SignalWatch) (ws : List SignalWatch) (s : Signals)
    → Succeeds reply
    → is_allowed w.sig_action ≡ true
    → w.watched ≡ true
    → reset_slots reply (w ∷ ws) s ≡ (
      (reset_slots reply ws (changed w.sig_num w.sig_action s)).0,
      w ∷ (reset_slots reply ws (changed w.sig_num w.sig_action s)).1,
      (reset_slots reply ws (changed w.sig_num w.sig_action s)).2,
    )
unfolding reset_slots reset_round
reset_slots-watched reply w ws s granted allowed on =
    ap
      (λ (b : Bool).
        if b
        then reset_round reply w ws (change_sig_action (reply w.sig_num) w.sig_num w.sig_action s)
        else (
          (reset_slots reply ws s).0,
          w ∷ (reset_slots reply ws s).1,
          (reset_slots reply ws s).2,
        ))
      on
    ∙ ap (reset_round reply w ws)
        (change-ok (reply w.sig_num) w.sig_num w.sig_action s (granted w.sig_num) allowed)

reset_slots-unwatched :
    (reply : ℕ → Result (Unit {0})) (w : SignalWatch) (ws : List SignalWatch) (s : Signals)
    → w.watched ≡ false
    → reset_slots reply (w ∷ ws) s
      ≡ ((reset_slots reply ws s).0, w ∷ (reset_slots reply ws s).1, (reset_slots reply ws s).2)
unfolding reset_slots
reset_slots-unwatched reply w ws s off = rw (reset_slots, off) refl

-- The loop of the unwatch keeps the table, and puts the actions back.
pub reset_slots-kept :
    (reply : ℕ → Result (Unit {0})) (ws : List SignalWatch) (s : Signals)
    → Succeeds reply
    → Allowed ws
    → (reset_slots reply ws s).1 ≡ ws
unfolding reset_slots
reset_slots-kept reply [] s granted allowed = refl
reset_slots-kept reply (w ∷ ws) s granted allowed = elim (Bool-cases w.watched) [
  | inl on ↦
      rw
        (
          reset_slots-watched reply w ws s granted allowed.0 on,
          reset_slots-kept reply ws (changed w.sig_num w.sig_action s) granted allowed.1,
        )
        refl
  | inr off ↦
      rw (reset_slots-unwatched reply w ws s off, reset_slots-kept reply ws s granted allowed.1)
        refl
]

pub reset_slots-restored :
    (reply : ℕ → Result (Unit {0})) (ws : List SignalWatch) (s : Signals) (n : ℕ)
    → Succeeds reply
    → Allowed ws
    → Distinct ws
    → entry (reset_slots reply ws s).2 n ≡ restored ws (entry s) n
unfolding reset_slots
reset_slots-restored reply [] s n granted allowed h = refl
reset_slots-restored reply (w ∷ ws) s n granted allowed h = elim (Bool-cases w.watched) [
  | inl on ↦
      ap (λ (r : Result (Unit {0}) × List SignalWatch × Signals). entry r.2 n)
        (reset_slots-watched reply w ws s granted allowed.0 on)
      ∙ reset_slots-restored reply ws (changed w.sig_num w.sig_action s) n granted allowed.1 h.1
      ∙ restored-changed w ws s n on h.0
  | inr off ↦
      ap (λ (r : Result (Unit {0}) × List SignalWatch × Signals). entry r.2 n)
        (reset_slots-unwatched reply w ws s off)
      ∙ reset_slots-restored reply ws s n granted allowed.1 h.1
      ∙ rw off refl
]

-- The reverts after a watch that failed do the same.
pub revert_slots-restored :
    (reply : ℕ → Result (Unit {0})) (ws : List SignalWatch) (s : Signals) (n : ℕ)
    → Succeeds reply
    → Allowed ws
    → Distinct ws
    → (r : List SignalWatch × Signals) × (revert_slots reply ws s ≡ done r)
      × (entry r.1 n ≡ restored ws (entry s) n)
unfolding revert_slots revert_round
revert_slots-restored reply [] s n granted allowed h = (([], s), refl, refl)
revert_slots-restored reply (w ∷ ws) s n granted allowed h = elim (Bool-cases w.watched) [
  | inl on ↦
      let rest =
        revert_slots-restored reply ws (changed w.sig_num w.sig_action s) n granted allowed.1 h.1 in
      (
        (record w { watched = false } ∷ rest.0.0, rest.0.1),
        ap
              (λ (b : Bool).
                if b
                then revert_round reply w ws
                    (change_sig_action (reply w.sig_num) w.sig_num w.sig_action s)
                else (revert_slots reply ws s >>= λ r. done (w ∷ r.0, r.1)))
              on
            ∙ ap (revert_round reply w ws)
                (change-ok (reply w.sig_num) w.sig_num w.sig_action s (granted w.sig_num) allowed.0)
            ∙ ap
                (λ (o : Outcome (List SignalWatch × Signals)).
                  o >>= λ r. done (record w { watched = false } ∷ r.0, r.1))
                rest.1,
        rest.2 ∙ restored-changed w ws s n on h.0,
      )
  | inr off ↦
      let rest = revert_slots-restored reply ws s n granted allowed.1 h.1 in
      ((w ∷ rest.0.0, rest.0.1), rw (revert_slots, off, rest.1) refl, rest.2 ∙ rw off refl)
]

pub reset_slots-granted :
    (reply : ℕ → Result (Unit {0})) (ws : List SignalWatch) (s : Signals)
    → Succeeds reply
    → Allowed ws
    → (reset_slots reply ws s).0 ≡ ok tt
unfolding reset_slots
reset_slots-granted reply [] s granted allowed = refl
reset_slots-granted reply (w ∷ ws) s granted allowed = elim (Bool-cases w.watched) [
  | inl on ↦
      rw (reset_slots-watched reply w ws s granted allowed.0 on)
        (reset_slots-granted reply ws (changed w.sig_num w.sig_action s) granted allowed.1)
  | inr off ↦
      rw (reset_slots-unwatched reply w ws s off) (reset_slots-granted reply ws s granted allowed.1)
]
