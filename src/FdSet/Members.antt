-- ===== src/FdSet/Members.antt =====
-- `ert_removeFdSetRange()`: a range leaves the set exactly if all of it is in the set.
use libert.Base.{
  ℕ, ◌+◌, ◌≤◌, ◌≡◌, refl, sym, ap, subst, inl, inr, Bool, true, false, List, [], ◌∷◌, ◌++◌, All,
  err, enoent, arith, Bool-cases, leb, leb→le,
}
use libert.FdSet.Range.{FdRange, IsRange, covers, outside, contains_range}
use libert.FdSet.Tree.{RangeTree}
use libert.FdSet.Ops.{remove_range}
use libert.FdSet.Valid.{Gaps, IsValid, contains, contains-above}
use libert.FdSet.Cut.{IsWithin, RemovedOrFull, not-within}
use libert.FdSet.Remove.{remove_range-element, remove_range-outside}

-- Every descriptor of the range is in the set.
abbrev pub IsSubset : FdRange → List FdRange → Type 0
IsSubset r l = (fd : ℕ) → covers r fd ≡ true → contains l fd ≡ true

-- The place of an element that the range lies within.
record Holder (r : FdRange) (l : List FdRange) : Type 0 where
  before : List FdRange
  after : List FdRange
  element : FdRange
  place : l ≡ before ++ (element ∷ after)
  within : IsWithin r element

-- Since no two ranges touch, a range that is a subset lies within one of them.
holder : (b : ℕ) (l : List FdRange) (r : FdRange) → Gaps b l → IsRange r → IsSubset r l → Holder r l
holder b [] r g v s = absurd (ground (arith, s r.lhs (ground (arith, v.ordered))))
holder b (x ∷ xs) r g v s = elim (Bool-cases (covers x r.lhs)) [
  | inl here ↦ record {
    before = [];
    after = xs;
    element = x;
    place = refl;
    within = (ground arith, reaches here);
  }
  | inr elsewhere ↦
      let h = holder (x.rhs + 2) xs r g.2 v (λ fd c. beyond elsewhere fd c) in
      record {
        before = x ∷ h.before;
        after = h.after;
        element = h.element;
        place = ap (λ l. x ∷ l) h.place;
        within = h.within;
      }
]
  where
    at_lhs : contains (x ∷ xs) r.lhs ≡ true
    at_lhs = s r.lhs (ground (arith, v.ordered))

    reaches : covers x r.lhs ≡ true → r.rhs ≤ x.rhs
    reaches here = elim (Bool-cases (leb r.rhs x.rhs)) [
      | inl le ↦ leb→le _ _ le
      | inr over ↦ absurd (
          ground (
            arith,
            here,
            over,
            contains-above (x.rhs + 2) xs (x.rhs + 1) g.2 (omega arith),
            s (x.rhs + 1) (ground (arith, here, over)),
          ))
    ]

    beyond : covers x r.lhs ≡ false → (fd : ℕ) → covers r fd ≡ true → contains xs fd ≡ true
    beyond elsewhere fd c =
        ground (
          arith,
          elsewhere,
          at_lhs,
          c,
          s fd c,
          contains-above (x.rhs + 2) xs r.lhs g.2,
          g.1.ordered,
        )

none_holds :
    (l : List FdRange) (r : FdRange) (fd : ℕ)
    → IsRange r
    → covers r fd ≡ true
    → contains l fd ≡ false
    → All (λ x. contains_range x r ≡ outside) l
none_holds [] r fd v c h = tt
none_holds (x ∷ xs) r fd v c h = (
  not-within x r v (λ w. ground (arith, w.0, w.1, c, h)),
  none_holds xs r fd v c (ground (arith, h)),
)

module _ (T : RangeTree) where
  open T use {Tree, ranges}

  -- A range (ordered, up to `INT_MAX`) that is a subset of a valid set is removed: the set stays
  -- valid, and holds what it held without what the range covers. Only where a range has to be
  -- split and there is no memory for its second part, the result is `ENOMEM`, and the set is as it
  -- was.
  pub remove_range-subset :
      (alloc : Bool) (t : Tree) (r : FdRange)
      → IsValid (ranges t)
      → IsRange r
      → IsSubset r (ranges t)
      → RemovedOrFull T alloc (remove_range T alloc t r) (ranges t) r
  remove_range-subset alloc t r g v s =
      let h = holder 0 (ranges t) r g v s in
      subst (λ l. RemovedOrFull T alloc (remove_range T alloc t r) l r) (sym h.place)
        (remove_range-element T t h.before h.after h.element r h.place
          (subst (λ l. Gaps 0 l) h.place g) v h.within alloc)

  -- A range (ordered, up to `INT_MAX`) with a descriptor that is not in a valid set is refused
  -- with `ENOENT`, and the tree is not touched.
  pub remove_range-missing :
      (alloc : Bool) (t : Tree) (r : FdRange) (fd : ℕ)
      → IsValid (ranges t)
      → IsRange r
      → covers r fd ≡ true
      → contains (ranges t) fd ≡ false
      → remove_range T alloc t r ≡ (err enoent, t)
  remove_range-missing alloc t r fd g v c h =
      remove_range-outside T alloc t r g v (none_holds (ranges t) r fd v c h)
