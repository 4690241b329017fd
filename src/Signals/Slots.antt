-- ===== src/Signals/Slots.antt =====
-- The loop that starts a watch, slot by slot.
use libert.Base.{
  ℕ, ◌≡◌, ◌⊎◌, refl, sym, ◌∙◌, ap, true, false, List, [], ◌∷◌, All, ◌==◌, Errno, Result, ok, err,
  arith, Bool-cases, Result-cases, inl, inr, ==→eq,
}
use libert.Signals.{
  SigAction, catch_action, is_handler, is_allowed, Signals, SignalWatch, watch_slots,
}
use libert.Signals.Restore.{
  Entry, entry, installed, listed, Differs, Distinct, Unwatched, Succeeds, Allowed, restored,
  changed, changed-other, restored-Unwatched,
}
use libert.Signals.Rounds.{change-ok, change-err, watch_round}

catch_allowed : is_allowed catch_action ≡ true
unfolding is_allowed is_handler
catch_allowed = refl

watch_slots-ok :
    (reply : ℕ → Result (Unit {0})) (w : SignalWatch) (ws : List SignalWatch) (s : Signals)
    → reply w.sig_num ≡ ok tt
    → watch_slots reply (w ∷ ws) s ≡ (
      (watch_slots reply ws (changed w.sig_num catch_action s)).0,
      record w { sig_action = s.actions w.sig_num; watched = true }
          ∷ (watch_slots reply ws (changed w.sig_num catch_action s)).1,
      (watch_slots reply ws (changed w.sig_num catch_action s)).2,
    )
unfolding watch_slots watch_round
watch_slots-ok reply w ws s granted =
    ap (watch_round reply w ws)
      (change-ok (reply w.sig_num) w.sig_num catch_action s granted catch_allowed)

watch_slots-err :
    (reply : ℕ → Result (Unit {0})) (w : SignalWatch) (ws : List SignalWatch) (s : Signals)
    (e : Errno)
    → reply w.sig_num ≡ err e
    → watch_slots reply (w ∷ ws) s ≡ (err e, w ∷ ws, s)
unfolding watch_slots watch_round
watch_slots-err reply w ws s e refused =
    ap (watch_round reply w ws)
      (change-err (reply w.sig_num) w.sig_num catch_action s e refused catch_allowed)

watch_slots-Differs :
    (reply : ℕ → Result (Unit {0})) (k : ℕ) (ws : List SignalWatch) (s : Signals)
    → Differs k ws
    → Differs k (watch_slots reply ws s).1
unfolding watch_slots
watch_slots-Differs reply k [] s h = tt
watch_slots-Differs reply k (w ∷ ws) s h = elim (Result-cases (reply w.sig_num)) [
  | inl r ↦
      rw (watch_slots-ok reply w ws s r.1)
        (h.0, watch_slots-Differs reply k ws (changed w.sig_num catch_action s) h.1)
  | inr r ↦ rw (watch_slots-err reply w ws s r.0 r.1) h
]

pub watch_slots-Distinct :
    (reply : ℕ → Result (Unit {0})) (ws : List SignalWatch) (s : Signals)
    → Distinct ws
    → Distinct (watch_slots reply ws s).1
unfolding watch_slots
watch_slots-Distinct reply [] s h = tt
watch_slots-Distinct reply (w ∷ ws) s h = elim (Result-cases (reply w.sig_num)) [
  | inl r ↦ rw (watch_slots-ok reply w ws s r.1) (
    watch_slots-Differs reply w.sig_num ws (changed w.sig_num catch_action s) h.0,
    watch_slots-Distinct reply ws (changed w.sig_num catch_action s) h.1,
  )
  | inr r ↦ rw (watch_slots-err reply w ws s r.0 r.1) h
]

clash : {A : Type 0} (r : Result (Unit {0})) (e : Errno) → r ≡ ok tt → r ≡ err e → A
clash r e h k = absurd cc

-- The actions that the system has for the signals of the table can be put back.
abbrev pub Restorable : Signals → List SignalWatch → Type 0
Restorable s ws = All (λ w. is_allowed (s.actions w.sig_num) ≡ true) ws

Restorable-changed :
    (k : ℕ) (a : SigAction) (s : Signals) (ws : List SignalWatch)
    → Differs k ws
    → Restorable s ws
    → Restorable (changed k a s) ws
Restorable-changed k a s [] d h = tt
Restorable-changed k a s (w ∷ ws) d h =
    let other : (w.sig_num == k) ≡ false = ground (arith, d.0) in
    (
      ap (λ (e : Entry). is_allowed e.0) (changed-other k a s w.sig_num other) ∙ h.0,
      Restorable-changed k a s ws d.1 h.1,
    )

-- So can those that the loop saves.
pub watch_slots-Allowed :
    (reply : ℕ → Result (Unit {0})) (ws : List SignalWatch) (s : Signals)
    → (Succeeds reply) ⊎ (Allowed ws)
    → Distinct ws
    → Restorable s ws
    → Allowed (watch_slots reply ws s).1
unfolding watch_slots
watch_slots-Allowed reply [] s ends d h = tt
watch_slots-Allowed reply (w ∷ ws) s ends d h = elim (Result-cases (reply w.sig_num)) [
  | inl r ↦ rw (watch_slots-ok reply w ws s r.1) (
    h.0,
    watch_slots-Allowed reply ws (changed w.sig_num catch_action s) (rest ends) d.1
        (Restorable-changed w.sig_num catch_action s ws d.0 h.1),
  )
  | inr r ↦ rw (watch_slots-err reply w ws s r.0 r.1) (only ends r.1)
]
  where
    rest : (Succeeds reply) ⊎ (Allowed (w ∷ ws)) → (Succeeds reply) ⊎ (Allowed ws)
    rest (inl granted) = inl granted
    rest (inr kept) = inr kept.1

    only :
        {e : Errno}
        → (Succeeds reply) ⊎ (Allowed (w ∷ ws))
        → reply w.sig_num ≡ err e
        → Allowed (w ∷ ws)
    only {e} (inr kept) refused = kept
    only {e} (inl granted) refused = clash (reply w.sig_num) e (granted w.sig_num) refused

-- The saved actions, put back where the loop fails in a table without a watched slot, are those
-- before it.
pub watch_slots-failed :
    (reply : ℕ → Result (Unit {0})) (ws : List SignalWatch) (s : Signals) (n : ℕ)
    → Unwatched ws
    → (restored (watch_slots reply ws s).1 (entry (watch_slots reply ws s).2) n ≡ entry s n)
      ⊎ (restored (watch_slots reply ws s).1 (entry (watch_slots reply ws s).2) n
          ≡ installed (s.actions n))
unfolding watch_slots
watch_slots-failed reply [] s n off = inl refl
watch_slots-failed reply (w ∷ ws) s n off = elim (Result-cases (reply w.sig_num)) [
  | inl r ↦ rw (watch_slots-ok reply w ws s r.1) (elim (Bool-cases (n == w.sig_num)) [
    | inl same ↦ rw (same, sym (==→eq n w.sig_num same)) (inr refl)
    | inr other ↦
        let before = changed-other w.sig_num catch_action s n other in
        rw other (elim (watch_slots-failed reply ws (changed w.sig_num catch_action s) n off.1) [
          | inl h ↦ inl (h ∙ before)
          | inr h ↦ inr (h ∙ ap (λ (e : Entry). installed e.0) before)
        ])
  ])
  | inr r ↦
      rw (watch_slots-err reply w ws s r.0 r.1) (inl (restored-Unwatched (w ∷ ws) (entry s) n off))
]

-- Where all changes succeed, the slots have what a watched signal had.
pub watch_slots-granted :
    (reply : ℕ → Result (Unit {0})) (ws : List SignalWatch) (s : Signals)
    → Succeeds reply
    → (watch_slots reply ws s).0 ≡ ok tt
unfolding watch_slots
watch_slots-granted reply [] s granted = refl
watch_slots-granted reply (w ∷ ws) s granted =
    rw (watch_slots-ok reply w ws s (granted w.sig_num))
      (watch_slots-granted reply ws (changed w.sig_num catch_action s) granted)

-- They are put back for the signals of the table.
pub watch_slots-listed :
    (reply : ℕ → Result (Unit {0})) (ws : List SignalWatch) (s : Signals) (f : ℕ → Entry) (n : ℕ)
    → Succeeds reply
    → listed n ws ≡ true
    → restored (watch_slots reply ws s).1 f n ≡ installed (s.actions n)
unfolding watch_slots
watch_slots-listed reply [] s f n granted h = absurd cc
watch_slots-listed reply (w ∷ ws) s f n granted h =
    rw (watch_slots-ok reply w ws s (granted w.sig_num)) (elim (Bool-cases (n == w.sig_num)) [
      | inl same ↦ rw (same, sym (==→eq n w.sig_num same)) refl
      | inr other ↦ rw other (
          watch_slots-listed reply ws (changed w.sig_num catch_action s) f n granted
            (sym (rw other refl) ∙ h)
          ∙ ap (λ (e : Entry). installed e.0) (changed-other w.sig_num catch_action s n other))
    ])

-- Another signal is left alone.
pub watch_slots-unlisted :
    (reply : ℕ → Result (Unit {0})) (ws : List SignalWatch) (s : Signals) (n : ℕ)
    → Succeeds reply
    → listed n ws ≡ false
    → restored (watch_slots reply ws s).1 (entry (watch_slots reply ws s).2) n ≡ entry s n
unfolding watch_slots
watch_slots-unlisted reply [] s n granted h = refl
watch_slots-unlisted reply (w ∷ ws) s n granted h =
    rw (watch_slots-ok reply w ws s (granted w.sig_num)) (elim (Bool-cases (n == w.sig_num)) [
      | inl same ↦ absurd (ground (arith, same, h))
      | inr other ↦ rw other (
          watch_slots-unlisted reply ws (changed w.sig_num catch_action s) n granted
            (sym (rw other refl) ∙ h)
          ∙ changed-other w.sig_num catch_action s n other)
    ])
