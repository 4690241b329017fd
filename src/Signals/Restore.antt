-- ===== src/Signals/Restore.antt =====
-- What a watch leaves behind when it ends.
use libert.Base.{
  ℕ, ◌≡◌, refl, sym, ◌∙◌, subst, Bool, true, false, ◌&&◌, ◌||◌, List, [], ◌∷◌, All, ◌==◌,
  if◌then◌else◌, Result, ok, Bool-cases, inl, inr, ==→eq,
}
use libert.Signals.{
  SigAction, Signals, SignalWatch, is_allowed, next_action, set_action, install_action,
}

-- What the system and the library have for a signal.
abbrev pub Entry : Type 0
Entry = SigAction × SigAction

abbrev pub entry : Signals → ℕ → Entry
entry s n = (s.actions n, s.handlers n)

-- What they have when the action is installed.
abbrev pub installed : SigAction → Entry
installed a = (next_action a, a)

-- Whether a signal is among the watched ones of the table.
abbrev pub listed : ℕ → List SignalWatch → Bool
listed n [] = false
listed n (w ∷ ws) = n == w.sig_num || listed n ws

abbrev pub Differs : ℕ → List SignalWatch → Type 0
Differs k ws = All (λ v. (k == v.sig_num) ≡ false) ws

abbrev pub Distinct : List SignalWatch → Type 0
Distinct [] = Unit {0}
Distinct (w ∷ ws) = (Differs w.sig_num ws) × (Distinct ws)

abbrev pub Unwatched : List SignalWatch → Type 0
Unwatched ws = All (λ w. w.watched ≡ false) ws

abbrev pub Succeeds : (ℕ → Result (Unit {0})) → Type 0
Succeeds reply = (signal : ℕ) → reply signal ≡ ok tt

-- The saved actions can be put back.
abbrev pub Allowed : List SignalWatch → Type 0
Allowed ws = All (λ w. is_allowed w.sig_action ≡ true) ws

-- The entries after the saved actions are put back.
abbrev pub restored : List SignalWatch → (ℕ → Entry) → ℕ → Entry
restored [] f n = f n
restored (w ∷ ws) f n =
    if w.watched && n == w.sig_num then installed w.sig_action else restored ws f n

-- The actions after one change.
abbrev pub changed : ℕ → SigAction → Signals → Signals
changed signal a s = (install_action (ok tt) signal a s).1

pub changed-same :
    (signal : ℕ) (a : SigAction) (s : Signals) (n : ℕ)
    → (n == signal) ≡ true
    → entry (changed signal a s) n ≡ installed a
unfolding install_action set_action
changed-same signal a s n h = rw h refl

pub changed-other :
    (signal : ℕ) (a : SigAction) (s : Signals) (n : ℕ)
    → (n == signal) ≡ false
    → entry (changed signal a s) n ≡ entry s n
unfolding install_action set_action
changed-other signal a s n h = rw h refl

restored-Differs :
    (ws : List SignalWatch) (f : ℕ → Entry) (n : ℕ) → Differs n ws → restored ws f n ≡ f n
restored-Differs [] f n h = refl
restored-Differs (w ∷ ws) f n h = elim (Bool-cases w.watched) [
  | inl on ↦ rw (on, h.0) (restored-Differs ws f n h.1)
  | inr off ↦ rw off (restored-Differs ws f n h.1)
]

pub restored-Unwatched :
    (ws : List SignalWatch) (f : ℕ → Entry) (n : ℕ) → Unwatched ws → restored ws f n ≡ f n
restored-Unwatched [] f n h = refl
restored-Unwatched (w ∷ ws) f n h = rw h.0 (restored-Unwatched ws f n h.1)

pub restored-ap :
    (ws : List SignalWatch) (f g : ℕ → Entry) (n : ℕ)
    → f n ≡ g n
    → restored ws f n ≡ restored ws g n
restored-ap [] f g n h = h
restored-ap (w ∷ ws) f g n h = elim (Bool-cases (w.watched && n == w.sig_num)) [
  | inl here ↦ rw here refl
  | inr there ↦ rw there (restored-ap ws f g n h)
]

-- Putting one action back, and then those behind it.
pub restored-changed :
    (w : SignalWatch) (ws : List SignalWatch) (s : Signals) (n : ℕ)
    → w.watched ≡ true
    → Differs w.sig_num ws
    → restored ws (entry (changed w.sig_num w.sig_action s)) n ≡ restored (w ∷ ws) (entry s) n
restored-changed w ws s n on h = elim (Bool-cases (n == w.sig_num)) [
  | inl same ↦
      let here : Differs n ws = subst (λ (k : ℕ). Differs k ws) (sym (==→eq n w.sig_num same)) h in
      rw (on, same) (restored-Differs ws _ n here ∙ changed-same w.sig_num w.sig_action s n same)
  | inr other ↦
      rw (on, other)
        (restored-ap ws (entry (changed w.sig_num w.sig_action s)) (entry s) n
          (changed-other w.sig_num w.sig_action s n other))
]
