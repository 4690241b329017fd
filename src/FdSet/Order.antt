-- ===== src/FdSet/Order.antt =====
-- Where a range stands in a valid list, and the last element of a list.
use libert.Base.{ℕ, ◌+◌, ◌≡◌, refl, ap, ◌⊎◌, inl, inr, List, [], ◌∷◌, ◌++◌, All, arith}
use libert.FdSet.Range.{FdRange, ◌≺◌}
use libert.FdSet.Valid.{Gaps, Gaps-above}

pub data Position (r : FdRange) (l : List FdRange) : Type 0 where
  absent :
      (before after : List FdRange)
      → l ≡ before ++ after
      → All (λ x. x ≺ r) before
      → All (λ x. r ≺ x) after
      → Position r l
  present :
      (before after : List FdRange)
      → l ≡ before ++ (r ∷ after)
      → All (λ x. x ≺ r) before
      → Position r l

pub ≺_cases : (a b : FdRange) → (a ≺ b) ⊎ (b ≺ a) ⊎ (a ≡ b)
≺_cases a b = ground arith

Position-cons : (x r : FdRange) (l : List FdRange) → x ≺ r → Position r l → Position r (x ∷ l)
Position-cons x r l h (absent before after e lo hi) =
    absent (x ∷ before) after (ap (λ t. x ∷ t) e) (h, lo) hi
Position-cons x r l h (present before after e lo) =
    present (x ∷ before) after (ap (λ t. x ∷ t) e) (h, lo)

pub position : (b : ℕ) (r : FdRange) (l : List FdRange) → Gaps b l → Position r l
position b r [] g = absent [] [] refl tt tt
position b r (x ∷ xs) g = place (≺_cases x r) (position (x.rhs + 2) r xs g.2)
  where
    place : (x ≺ r) ⊎ (r ≺ x) ⊎ (x ≡ r) → Position r xs → Position r (x ∷ xs)
    place (inl lower) p = Position-cons x r xs lower p
    place (inr (inl higher)) p =
        absent [] (x ∷ xs) refl tt (higher, Gaps-above (x.rhs + 2) xs r g.2 (ground arith))
    place (inr (inr same)) p = present [] xs (ap (λ t. t ∷ xs) same) tt

-- A list is empty, or has a last element.
pub data LastView : List FdRange → Type 0 where
  empty : LastView []
  last : (before : List FdRange) (p : FdRange) → LastView (before ++ (p ∷ []))

last_cons : (x : FdRange) {l : List FdRange} → LastView l → LastView (x ∷ l)
last_cons x empty = last [] x
last_cons x (last before p) = last (x ∷ before) p

pub last_view : (l : List FdRange) → LastView l
last_view [] = empty
last_view (x ∷ xs) = last_cons x (last_view xs)
