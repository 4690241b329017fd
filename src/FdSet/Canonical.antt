-- ===== src/FdSet/Canonical.antt =====
-- A valid list of ranges is the only one with its descriptors: inverses and round trips.
use libert.Base.{
  ℕ, ◌+◌, ◌≤◌, ◌≡◌, refl, sym, ap₂, true, List, [], ◌∷◌, ltb, ltb→le, Bool-cases, arith, ok, inl,
  inr,
}
use libert.FdSet.Range.{FdRange, IsRange, covers}
use libert.FdSet.Tree.{RangeTree}
use libert.FdSet.Ops.{insert_range, remove_range, invert}
use libert.FdSet.Valid.{Gaps, IsValid, contains, contains-above, contains-beyond}
use libert.FdSet.Disjoint.{IsDisjoint, insert_range-disjoint}
use libert.FdSet.Cut.{Removed, RemovedOrFull}
use libert.FdSet.Members.{remove_range-subset}
use libert.FdSet.Invert.{invert-Complement}

-- The first range of a valid list begins at its least descriptor, and ends before the first gap.
module _ (a b : ℕ) (x y : FdRange) (xs ys : List FdRange) (g : Gaps a (x ∷ xs))
    (h : Gaps b (y ∷ ys)) (same : (fd : ℕ) → contains (x ∷ xs) fd ≡ contains (y ∷ ys) fd) where
  lhs-le : y.lhs ≤ x.lhs
  lhs-le = elim (Bool-cases (ltb x.lhs y.lhs)) [
    | inl lt ↦ absurd (
        ground (
          arith,
          lt,
          same x.lhs,
          g.1.ordered,
          h.1.ordered,
          contains-above (y.rhs + 2) ys x.lhs h.2,
        ))
    | inr le ↦ ltb→le _ _ le
  ]

  rhs-le : x.lhs ≡ y.lhs → y.rhs ≤ x.rhs
  rhs-le e = elim (Bool-cases (ltb x.rhs y.rhs)) [
    | inl lt ↦ absurd (
        ground (
          arith,
          lt,
          e,
          same (x.rhs + 1),
          g.1.ordered,
          contains-above (x.rhs + 2) xs (x.rhs + 1) g.2 (omega arith),
        ))
    | inr le ↦ ltb→le _ _ le
  ]

  tails : x.lhs ≡ y.lhs → x.rhs ≡ y.rhs → (fd : ℕ) → contains xs fd ≡ contains ys fd
  tails el er fd = ground (
    arith,
    el,
    er,
    same fd,
    contains-above (x.rhs + 2) xs fd g.2,
    contains-above (y.rhs + 2) ys fd h.2,
  )

-- Two valid lists with the same descriptors are the same list.
pub canonical :
    (a b : ℕ) (l m : List FdRange)
    → Gaps a l
    → Gaps b m
    → ((fd : ℕ) → contains l fd ≡ contains m fd)
    → l ≡ m
canonical a b [] [] g h same = refl
canonical a b [] (y ∷ ys) g h same = absurd (ground (arith, same y.lhs, h.1.ordered))
canonical a b (x ∷ xs) [] g h same = absurd (ground (arith, same x.lhs, g.1.ordered))
canonical a b (x ∷ xs) (y ∷ ys) g h same =
    ap₂ ◌∷◌ (ground (arith, el, er))
      (canonical (x.rhs + 2) (y.rhs + 2) xs ys g.2 h.2 (tails a b x y xs ys g h same el er))
  where
    el : x.lhs ≡ y.lhs
    el =
        omega (arith, lhs-le a b x y xs ys g h same, lhs-le b a y x ys xs h g (λ fd. sym (same fd)))

    er : x.rhs ≡ y.rhs
    er = omega (
      arith,
      rhs-le a b x y xs ys g h same el,
      rhs-le b a y x ys xs h g (λ fd. sym (same fd)) (sym el),
    )

module _ (T : RangeTree) where
  open T use {Tree, ranges}

  -- With the memory for it, inverting a valid set twice succeeds and gives its very ranges back.
  pub invert-invert :
      (t : Tree)
      → IsValid (ranges t)
      → (t' t'' : Tree) × (invert T true t ≡ (ok tt, t'))
        × (invert T true t' ≡ (ok tt, t''))
        × (ranges t'' ≡ ranges t)
  invert-invert t g =
      let (t', status, c) = invert-Complement T t g in
      let (t'', status', c') = invert-Complement T t' c.valid in
      (
        t',
        t'',
        status,
        status',
        canonical 0 0 (ranges t'') (ranges t) c'.valid g
            (λ fd. ground (arith, c'.members fd, c.members fd, contains-beyond 0 (ranges t) fd g)),
      )

  -- With the memory for it, inserting a range (ordered, up to `INT_MAX`) that overlaps nothing in
  -- a valid set, and removing it again, succeeds and gives the very ranges back.
  pub remove_range-insert_range :
      (t : Tree) (r : FdRange)
      → IsValid (ranges t)
      → IsRange r
      → IsDisjoint r (ranges t)
      → (t' : Tree) × (insert_range T true t r ≡ (ok tt, t'))
        × ((remove_range T true t' r).0 ≡ ok tt)
        × (ranges (remove_range T true t' r).1 ≡ ranges t)
  remove_range-insert_range t r g v d =
      let (t', status, i) = insert_range-disjoint T t r g v d in
      let removed =
        with_memory
          (remove_range-subset T true t' r i.valid v (λ fd c. ground (arith, i.members fd, c))) in
      (
        t',
        status,
        removed.0,
        canonical 0 0 (ranges (remove_range T true t' r).1) (ranges t) removed.1.valid g (λ fd.
            elim (Bool-cases (covers r fd)) [
              | inl mine ↦ ground (arith, removed.1.members fd, i.members fd, d fd mine, mine)
              | inr other ↦ ground (arith, removed.1.members fd, i.members fd, other)
            ]),
      )
    where
      with_memory :
          {t' : Tree}
          → RemovedOrFull T true (remove_range T true t' r) (ranges t') r
          → ((remove_range T true t' r).0 ≡ ok tt)
            × Removed T (remove_range T true t' r).1 (ranges t') r
      with_memory (inl x) = x
      with_memory (inr y) = absurd (cc y.0)
