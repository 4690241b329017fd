-- ===== src/Fd/Listed/Kept.antt =====
-- Which descriptors are open afterwards.
use libert.Base.{
  ℕ, suc, ◌≤◌, ◌<◌, ◌≡◌, refl, sym, ◌∙◌, Bool, true, false, ◌||◌, not, List, [], ◌∷◌, length, ◌==◌,
  Result, ok, arith, All, Bool-cases, inl, inr, ==→eq, ==→ne,
}
use libert.Parse.{ℤ, pos, negsuc}
use libert.Fd.Swept.{those}
use libert.Fd.Listed.{skip_same, open_outputs, open_missing, open_std_fds}

-- Where `ert_openStdFds()` succeeds, it has opened exactly those of 0, 1 and 2 that were not open, in
-- order.
pub open_std_fds-those :
    (is_open : ℕ → Bool) (blocked : ℕ → Result (Unit {0})) (dup : Result (Unit {0}))
    → (open_std_fds (λ fd. ok (is_open fd)) blocked dup).0 ≡ ok tt
    → (open_std_fds (λ fd. ok (is_open fd)) blocked dup).1 ≡ those (λ fd. not (is_open fd)) 3 0
unfolding open_std_fds open_missing open_outputs
open_std_fds-those is_open blocked dup h = ground (arith, h)

-- Whether a descriptor is in a list of numbers.
abbrev pub is_fd : ℕ → ℤ → Bool
is_fd fd (negsuc m) = false
is_fd fd (pos w) = w == fd

abbrev pub listed : ℕ → List ℤ → Bool
listed fd [] = false
listed fd (w ∷ ws) = is_fd fd w || listed fd ws

-- The order of `rankFd_()`.
infix 50 ◌≤ℤ◌
abbrev pub ◌≤ℤ◌ : ℤ → ℤ → Type 0
negsuc a ≤ℤ negsuc b = b ≤ a
negsuc a ≤ℤ pos b = Unit {0}
pos a ≤ℤ negsuc b = 1 ≤ 0
pos a ≤ℤ pos b = a ≤ b

abbrev pub Sorted : List ℤ → Type 0
Sorted [] = Unit {0}
Sorted (w ∷ ws) = (All (λ v. w ≤ℤ v) ws) × (Sorted ws)

abbrev pub FromFd : ℕ → List ℤ → Type 0
FromFd fd ws = All (λ v. pos fd ≤ℤ v) ws

abbrev pub UpTo : ℕ → List ℤ → Type 0
UpTo limit ws = All (λ v. v ≤ℤ pos limit) ws

pub FromFd-weaken : (a b : ℕ) (ws : List ℤ) → a ≤ b → FromFd b ws → FromFd a ws
FromFd-weaken a b [] le h = tt
FromFd-weaken a b (negsuc m ∷ ws) le h = absurd (omega (arith, h.0))
FromFd-weaken a b (pos w ∷ ws) le h = (omega (arith, le, h.0), FromFd-weaken a b ws le h.1)

pub listed_from : (fd x : ℕ) (ws : List ℤ) → FromFd fd ws → listed x ws ≡ true → fd ≤ x
listed_from fd x [] h l = absurd cc
listed_from fd x (negsuc m ∷ ws) h l = listed_from fd x ws h.1 l
listed_from fd x (pos w ∷ ws) h l = elim (Bool-cases (w == x)) [
  | inl same ↦ omega (arith, ==→eq w x same, h.0)
  | inr other ↦ listed_from fd x ws h.1 (sym (rw other refl) ∙ l)
]

pub unlisted : (fd x : ℕ) (ws : List ℤ) → FromFd fd ws → x < fd → listed x ws ≡ false
unlisted fd x [] h lt = refl
unlisted fd x (negsuc m ∷ ws) h lt = unlisted fd x ws h.1 lt
unlisted fd x (pos w ∷ ws) h lt = elim (Bool-cases (w == x)) [
  | inl same ↦ absurd (omega (arith, ==→eq w x same, h.0, lt))
  | inr other ↦ rw other (unlisted fd x ws h.1 lt)
]

-- The list without the duplicates of its first descriptor.
pub skip_same-UpTo : (limit w : ℕ) (ws : List ℤ) → UpTo limit ws → UpTo limit (skip_same w ws)
unfolding skip_same
skip_same-UpTo limit w [] h = tt
skip_same-UpTo limit w (negsuc m ∷ ws) h = h
skip_same-UpTo limit w (pos x ∷ ws) h = elim (Bool-cases (x == w)) [
  | inl same ↦ rw same (skip_same-UpTo limit w ws h.1)
  | inr other ↦ rw other h
]

pub skip_same-Sorted : (w : ℕ) (ws : List ℤ) → Sorted ws → Sorted (skip_same w ws)
unfolding skip_same
skip_same-Sorted w [] h = tt
skip_same-Sorted w (negsuc m ∷ ws) h = h
skip_same-Sorted w (pos x ∷ ws) h = elim (Bool-cases (x == w)) [
  | inl same ↦ rw same (skip_same-Sorted w ws h.1)
  | inr other ↦ rw other h
]

pub skip_same-length : (w : ℕ) (ws : List ℤ) → length (skip_same w ws) ≤ length ws
unfolding skip_same
skip_same-length w [] = omega arith
skip_same-length w (negsuc m ∷ ws) = omega arith
skip_same-length w (pos x ∷ ws) = elim (Bool-cases (x == w)) [
  | inl same ↦ rw same (omega (arith, skip_same-length w ws))
  | inr other ↦ rw other (omega arith)
]

pub skip_same-FromFd :
    (w : ℕ) (ws : List ℤ) → FromFd w ws → Sorted ws → FromFd (suc w) (skip_same w ws)
unfolding skip_same
skip_same-FromFd w [] h s = tt
skip_same-FromFd w (negsuc m ∷ ws) h s = absurd (omega (arith, h.0))
skip_same-FromFd w (pos x ∷ ws) h s = elim (Bool-cases (x == w)) [
  | inl same ↦ rw same (skip_same-FromFd w ws h.1 s.1)
  | inr other ↦
      let lt : w < x = omega (arith, ==→ne x w other, h.0) in
      rw other (lt, FromFd-weaken (suc w) x ws lt s.0)
]

pub skip_same-listed : (w x : ℕ) (ws : List ℤ) → w < x → listed x (skip_same w ws) ≡ listed x ws
unfolding skip_same
skip_same-listed w x [] lt = refl
skip_same-listed w x (negsuc m ∷ ws) lt = refl
skip_same-listed w x (pos y ∷ ws) lt = elim (Bool-cases (y == w)) [
  | inl same ↦ rw (same, differs y (==→eq y w same)) (skip_same-listed w x ws lt)
  | inr other ↦ rw other refl
]
  where
    differs : (y : ℕ) → y ≡ w → (y == x) ≡ false
    differs y h = ground (arith, h, lt)
