-- ===== src/Signals/Ends.antt =====
-- The actions after a watch that ends, or fails.
use libert.Base.{
  ℕ, ◌≡◌, ◌⊎◌, refl, ◌∙◌, ap, true, false, none, some, List, Errno, done, Result, ok, err,
  if◌then◌else◌, inl, inr, Bool-cases,
}
use libert.Signals.{
  Signals, SignalWatch, Watches, MethodId, next_action, watch_slots, watch_signals, reset_slots,
  unwatch_signals,
}
use libert.Signals.Restore.{Entry, entry, installed, listed, Distinct, Unwatched, Succeeds, Allowed}
use libert.Signals.Rounds.{
  reset_slots-kept, reset_slots-granted, reset_slots-restored, revert_slots-restored,
}
use libert.Signals.Slots.{
  Restorable, watch_slots-Distinct, watch_slots-Allowed, watch_slots-failed, watch_slots-granted,
  watch_slots-listed, watch_slots-unlisted,
}

-- What a watch that succeeds leaves.
watch_signals-ok :
    (reply revert : ℕ → Result (Unit {0})) (method : MethodId) (p : Watches)
    → Succeeds reply
    → watch_signals reply revert method p
      ≡ done (
        ok tt,
        record {
          method = some method;
          slots = (watch_slots reply p.slots p.signals).1;
          signals = (watch_slots reply p.slots p.signals).2;
        },
      )
unfolding watch_signals
watch_signals-ok reply revert method p granted =
    rw (watch_signals, watch_slots-granted reply p.slots p.signals granted) refl

-- What the loop of an unwatch leaves for a signal, from any actions on.
unwatch-listed :
    (reply unwatch : ℕ → Result (Unit {0})) (p : Watches) (since : Signals) (n : ℕ)
    → Succeeds reply
    → Succeeds unwatch
    → Distinct p.slots
    → Restorable p.signals p.slots
    → listed n p.slots ≡ true
    → entry (reset_slots unwatch (watch_slots reply p.slots p.signals).1 since).2 n
      ≡ installed (p.signals.actions n)
unwatch-listed reply unwatch p since n granted undone h restorable among =
    reset_slots-restored unwatch (watch_slots reply p.slots p.signals).1 since n undone
      (watch_slots-Allowed reply p.slots p.signals (inl granted) h restorable)
      (watch_slots-Distinct reply p.slots p.signals h)
    ∙ watch_slots-listed reply p.slots p.signals (entry since) n granted among

unwatch-granted :
    (reply unwatch : ℕ → Result (Unit {0})) (p : Watches)
    → Succeeds reply
    → Succeeds unwatch
    → Distinct p.slots
    → Restorable p.signals p.slots
    → (reset_slots unwatch
        (watch_slots reply p.slots p.signals).1
        (watch_slots reply p.slots p.signals).2).0
      ≡ ok tt
unwatch-granted reply unwatch p granted undone h restorable =
    reset_slots-granted unwatch (watch_slots reply p.slots p.signals).1
      (watch_slots reply p.slots p.signals).2 undone
      (watch_slots-Allowed reply p.slots p.signals (inl granted) h restorable)

-- A watch and an unwatch of a table of different signals succeed. Then the system has for each of
-- these the former action itself if it is SIG_DFL or SIG_IGN, and otherwise, as `next_action` says,
-- the library's function with the action's flags but SA_NODEFER, and with all signals but SIGABRT in
-- the mask; and the library has the former action. For any other signal both have what they had. All
-- calls of sigaction() succeed, and no handler among the former actions has SA_RESTART.
pub watch_signals-unwatch :
    (reply revert unwatch : ℕ → Result (Unit {0})) (method : MethodId) (p : Watches) (n : ℕ)
    → Succeeds reply
    → Succeeds unwatch
    → Distinct p.slots
    → Restorable p.signals p.slots
    → (q : Watches) × (watch_signals reply revert method p ≡ done (ok tt, q))
      × ((unwatch_signals unwatch q).0 ≡ ok tt)
      × ((unwatch_signals unwatch q).1.signals.actions n
          ≡ (if listed n p.slots then next_action (p.signals.actions n) else p.signals.actions n))
      × ((unwatch_signals unwatch q).1.signals.handlers n
          ≡ (if listed n p.slots then p.signals.actions n else p.signals.handlers n))
unfolding unwatch_signals
watch_signals-unwatch reply revert unwatch method p n granted undone h restorable = (
  _,
  watch_signals-ok reply revert method p granted,
  unwatch-granted reply unwatch p granted undone h restorable,
  elim (Bool-cases (listed n p.slots)) [
    | inl among ↦ rw among (ap (λ (e : Entry). e.0) (inside among))
    | inr apart ↦ rw apart (ap (λ (e : Entry). e.0) (outside apart))
  ],
  elim (Bool-cases (listed n p.slots)) [
    | inl among ↦ rw among (ap (λ (e : Entry). e.1) (inside among))
    | inr apart ↦ rw apart (ap (λ (e : Entry). e.1) (outside apart))
  ],
)
  where
    after : Signals
    after =
        (reset_slots unwatch (watch_slots reply p.slots p.signals).1
          (watch_slots reply p.slots p.signals).2).2

    inside : listed n p.slots ≡ true → entry after n ≡ installed (p.signals.actions n)
    inside among =
        unwatch-listed reply unwatch p (watch_slots reply p.slots p.signals).2 n granted undone h
          restorable among

    outside : listed n p.slots ≡ false → entry after n ≡ entry p.signals n
    outside apart =
        reset_slots-restored unwatch (watch_slots reply p.slots p.signals).1
          (watch_slots reply p.slots p.signals).2 n undone
          (watch_slots-Allowed reply p.slots p.signals (inl granted) h restorable)
          (watch_slots-Distinct reply p.slots p.signals h)
        ∙ watch_slots-unlisted reply p.slots p.signals n granted apart

-- A watch that fails leaves for each signal what there was before, or what installing the former
-- action gives, where no slot was watched before, the reverts succeed, and no handler among the
-- actions of the signals and of the slots has SA_RESTART.
pub watch_signals-failed :
    (reply revert : ℕ → Result (Unit {0})) (method : MethodId) (p : Watches) (n : ℕ) (e : Errno)
    → (watch_slots reply p.slots p.signals).0 ≡ err e
    → Succeeds revert
    → Unwatched p.slots
    → Allowed p.slots
    → Distinct p.slots
    → Restorable p.signals p.slots
    → (q : Watches) × (watch_signals reply revert method p ≡ done (err e, q))
      × ((entry q.signals n ≡ entry p.signals n)
          ⊎ (entry q.signals n ≡ installed (p.signals.actions n)))
unfolding watch_signals
watch_signals-failed reply revert method p n e fails undone off kept h restorable =
    let after = watch_slots reply p.slots p.signals in
    let r =
      revert_slots-restored revert after.1 after.2 n undone
        (watch_slots-Allowed reply p.slots p.signals (inr kept) h restorable)
        (watch_slots-Distinct reply p.slots p.signals h) in
    (
      record { method = none; slots = r.0.0; signals = r.0.1 },
      rw (watch_signals, fails, r.1) refl,
      elim (watch_slots-failed reply p.slots p.signals n off) [
        | inl same ↦ inl (r.2 ∙ same)
        | inr back ↦ inr (r.2 ∙ back)
      ],
    )

-- After a watch and an unwatch that succeed, a second unwatch installs the actions again that the
-- watch has saved, whatever the program has set since, for each signal of a table of different ones.
-- All calls of sigaction() succeed, and no handler among the actions saved has SA_RESTART.
pub unwatch_signals-again :
    (reply revert unwatch : ℕ → Result (Unit {0})) (method : MethodId) (p : Watches)
    (since : Signals) (n : ℕ)
    → Succeeds reply
    → Succeeds unwatch
    → Distinct p.slots
    → Restorable p.signals p.slots
    → listed n p.slots ≡ true
    → (q : Watches) × (watch_signals reply revert method p ≡ done (ok tt, q))
      × ((unwatch_signals unwatch q).0 ≡ ok tt)
      × ((unwatch_signals unwatch
              (record (unwatch_signals unwatch q).1 { signals = since })).1.signals.actions
            n
          ≡ next_action (p.signals.actions n))
      × ((unwatch_signals unwatch
              (record (unwatch_signals unwatch q).1 { signals = since })).1.signals.handlers
            n
          ≡ p.signals.actions n)
unfolding unwatch_signals
unwatch_signals-again reply revert unwatch method p since n granted undone h restorable among = (
  _,
  watch_signals-ok reply revert method p granted,
  unwatch-granted reply unwatch p granted undone h restorable,
  ap (λ (e : Entry). e.0) again,
  ap (λ (e : Entry). e.1) again,
)
  where
    ws : List SignalWatch
    ws = (watch_slots reply p.slots p.signals).1

    again :
        entry
          (reset_slots unwatch
            (reset_slots unwatch ws (watch_slots reply p.slots p.signals).2).1
            since).2
          n
        ≡ installed (p.signals.actions n)
    again =
        ap (λ (l : List SignalWatch). entry (reset_slots unwatch l since).2 n)
          (reset_slots-kept unwatch ws (watch_slots reply p.slots p.signals).2 undone
            (watch_slots-Allowed reply p.slots p.signals (inl granted) h restorable))
        ∙ unwatch-listed reply unwatch p since n granted undone h restorable among
