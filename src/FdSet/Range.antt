-- ===== src/FdSet/Range.antt =====
-- `struct Ert_FdRange` and the functions on it. Its bounds are `int`s that are not negative
-- (`ert_ensure()` in `Ert_FdRange_()`), and so natural numbers here.
use libert.Base.{
  ℕ, ◌+◌, ◌-◌, ◌≤◌, ◌<◌, ◌≡◌, ◌⊎◌, Bool, true, false, ◌&&◌, ltb, leb, ◌==◌, nonzero, if◌then◌else◌,
  int_max, Outcome, done, ensure, ◌>>◌,
}

pub record FdRange : Type 0 where
  pub lhs : ℕ
  pub rhs : ℕ

-- `Ert_FdRange_()`
unfoldable pub fd_range : ℕ → ℕ → Outcome FdRange
fd_range lhs rhs = ensure (leb lhs rhs) >> done (record { lhs = lhs; rhs = rhs })

-- The ranges that it makes, with bounds that are `int`s.
pub record IsRange (r : FdRange) : Type 0 where
  pub ordered : r.lhs ≤ r.rhs
  pub bounded : r.rhs ≤ int_max

-- `rankFdSetElement_()` orders by the left bound, and then by the right one: `rank < 0`.
unfoldable pub rank_lt : FdRange → FdRange → Bool
rank_lt a b = if ltb a.lhs b.lhs then true else if ltb b.lhs a.lhs then false else ltb a.rhs b.rhs

-- The order as a statement.
infix 50 ◌≺◌
abbrev pub ◌≺◌ : FdRange → FdRange → Type 0
a ≺ b = (a.lhs < b.lhs) ⊎ ((a.lhs ≡ b.lhs) × (a.rhs < b.rhs))

-- `containsFdRange_()`
abbrev pub covers : FdRange → ℕ → Bool
covers r fd = leb r.lhs fd && leb fd r.rhs

-- The returns of `ert_containsFdRange()`: 0, 1, 2, 3 and -1.
pub data Contained : Type 0 where
  outside at_left at_right whole inside : Contained

-- `ert_containsFdRange()`
unfoldable pub contains_range : FdRange → FdRange → Contained
contains_range self other =
    if covers self other.lhs && covers self other.rhs
    then if self.lhs == other.lhs
      then if self.rhs == other.rhs then whole else at_left
      else if self.rhs == other.rhs
      then at_right
      else inside
    else outside

-- `ert_leftFdRangeOf()` and `ert_rightFdRangeOf()`
unfoldable pub left_of : FdRange → FdRange → Bool
left_of self other = ltb other.rhs self.lhs

unfoldable pub right_of : FdRange → FdRange → Bool
right_of self other = ltb self.rhs other.lhs

-- `ert_leftFdRangeNeighbour()`: for a left bound of 0 the source compares -1, which is no bound.
unfoldable pub left_neighbour : FdRange → FdRange → Bool
left_neighbour self other = nonzero self.lhs && self.lhs - 1 == other.rhs

-- `ert_rightFdRangeNeighbour()`
unfoldable pub right_neighbour : FdRange → FdRange → Bool
right_neighbour self other = self.rhs + 1 == other.lhs
