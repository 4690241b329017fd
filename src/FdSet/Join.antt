-- ===== src/FdSet/Join.antt =====
-- The joins of `ert_insertFdSetRange()`: a new element with its left and its right neighbour.
use mathlib.Core.List.{append_assoc}
use libert.Base.{
  ℕ, ◌+◌, ◌≤◌, ◌<◌, ◌≡◌, ◌≢◌, ◌∙◌, refl, inl, inr, true, false, ◌||◌, Option, none, some, List, [],
  ◌∷◌, ◌++◌, arith, Bool-cases,
}
use libert.FdSet.Range.{FdRange, IsRange, covers, left_neighbour, right_neighbour}
use libert.FdSet.Tree.{RangeTree}
use libert.FdSet.Ops.{join_prev, join_next}
use libert.FdSet.Valid.{
  Gaps, IsValid, contains, end, Gaps-split, Gaps-join, end-append, Gaps-below, contains-append,
}

pub snoc-append :
    (xs : List FdRange) (p : FdRange) (ys : List FdRange) → (xs ++ (p ∷ [])) ++ ys ≡ xs ++ (p ∷ ys)
snoc-append xs p ys = append_assoc xs (p ∷ []) ys

right_neighbour-true : (e n : FdRange) → right_neighbour e n ≡ true → n.lhs ≡ e.rhs + 1
unfolding right_neighbour
right_neighbour-true e n h = ground arith

right_neighbour-false : (e n : FdRange) → right_neighbour e n ≡ false → n.lhs ≢ e.rhs + 1
unfolding right_neighbour
right_neighbour-false e n h = ground arith

left_neighbour-true : (e p : FdRange) → left_neighbour e p ≡ true → e.lhs ≡ p.rhs + 1
unfolding left_neighbour
left_neighbour-true e p h = ground arith

left_neighbour-false : (e p : FdRange) → left_neighbour e p ≡ false → e.lhs ≢ p.rhs + 1
unfolding left_neighbour
left_neighbour-false e p h = ground arith

-- The element that follows.
abbrev pub first : List FdRange → Option FdRange
first [] = none
first (n ∷ ns) = some n

module _ (T : RangeTree) where
  open T use {Tree, ranges, insert, remove, assign, prev, next}
  open T use {
    ranges-remove, ranges-assign, insert-absent, insert-present, prev-none, prev-some, next-none,
    next-some,
  }

  -- After the left neighbour has been joined, or not: the element `elem` stands between `before` and
  -- `after`, with room on its left, and holds what `r` brings.
  pub record LeftJoined (t : Tree) (elem : FdRange) (bs after : List FdRange) (r : FdRange)
      : Type 0 where
    pub before : List FdRange
    pub place : ranges t ≡ before ++ (elem ∷ after)
    pub gaps : Gaps 0 before
    pub room : end 0 before ≤ elem.lhs
    pub same_rhs : elem.rhs ≡ r.rhs
    pub ordered : elem.lhs ≤ elem.rhs
    pub members :
        (fd : ℕ) → (contains before fd || covers elem fd) ≡ (contains bs fd || covers r fd)

  pub join_prev-first :
      (t : Tree) (after : List FdRange) (r : FdRange)
      → ranges t ≡ r ∷ after
      → IsRange r
      → LeftJoined t r [] after r
  join_prev-first t after r e v = record {
    before = [];
    place = e;
    gaps = tt;
    room = omega arith;
    same_rhs = refl;
    ordered = v.ordered;
    members = λ fd. refl;
  }

  join_prev-apart :
      (t : Tree) (bs after : List FdRange) (p r : FdRange)
      → ranges t ≡ (bs ++ (p ∷ [])) ++ (r ∷ after)
      → IsRange r
      → Gaps 0 (bs ++ (p ∷ []))
      → p.rhs + 2 ≤ r.lhs
      → LeftJoined t r (bs ++ (p ∷ [])) after r
  join_prev-apart t bs after p r e v g h = record {
    before = bs ++ (p ∷ []);
    place = e;
    gaps = g;
    room = rw (end-append 0 bs (p ∷ [])) h;
    same_rhs = refl;
    ordered = v.ordered;
    members = λ fd. refl;
  }

  join_prev-touching :
      (t : Tree) (bs after : List FdRange) (p r : FdRange)
      → ranges t ≡ (bs ++ (p ∷ [])) ++ (r ∷ after)
      → IsRange r
      → Gaps 0 (bs ++ (p ∷ []))
      → r.lhs ≡ p.rhs + 1
      → let joined : FdRange = record { lhs = p.lhs; rhs = r.rhs } in
        LeftJoined (assign p joined (remove r t)) joined (bs ++ (p ∷ [])) after r
  join_prev-touching t bs after p r e v g h = record {
    before = bs;
    place =
        ranges-assign (remove r t) bs after p joined
          (ranges-remove t (bs ++ (p ∷ [])) after r e
              (Gaps-below 0 (bs ++ (p ∷ [])) r g (rw (end-append 0 bs (p ∷ [])) (omega arith)))
            ∙ snoc-append bs p after)
          (Gaps-below 0 bs p g'.0 (omega (arith, g'.1.0)));
    gaps = g'.0;
    room = g'.1.0;
    same_rhs = refl;
    ordered = omega (arith, g'.1.1.ordered);
    members = λ fd. rw (contains-append bs (p ∷ []) fd) (merged fd);
  }
    where
      g' : Gaps 0 bs × Gaps (end 0 bs) (p ∷ [])
      g' = Gaps-split 0 bs (p ∷ []) g

      joined : FdRange
      joined = record { lhs = p.lhs; rhs = r.rhs }

      merged :
          (fd : ℕ)
          → (contains bs fd || covers joined fd)
            ≡ ((contains bs fd || (covers p fd || false)) || covers r fd)
      merged fd = ground (arith, g'.1.1.ordered)

  -- A valid set that holds what the parts before and after `r` held, and what `r` covers.
  pub record Inserted (t : Tree) (l : List FdRange) (r : FdRange) : Type 0 where
    pub valid : IsValid (ranges t)
    pub members : (fd : ℕ) → contains (ranges t) fd ≡ (contains l fd || covers r fd)

  join_next-apart :
      (t : Tree) (elem : FdRange) (bs after : List FdRange) (r : FdRange)
      → LeftJoined t elem bs after r
      → IsRange r
      → Gaps (r.rhs + 2) after
      → Inserted t (bs ++ after) r
  join_next-apart t elem bs after r j v g = record {
    valid = rw j.place (
        Gaps-join 0 j.before (elem ∷ after) j.gaps (
          j.room,
          record { ordered = j.ordered; bounded = rw j.same_rhs v.bounded },
          rw j.same_rhs g,
        ));
    members = λ fd.
        rw (j.place, contains-append j.before (elem ∷ after) fd, contains-append bs after fd)
          (ground (arith, j.members fd));
  }

  join_next-touching :
      (t : Tree) (elem : FdRange) (bs after : List FdRange) (r n : FdRange)
      → LeftJoined t elem bs (n ∷ after) r
      → IsRange n
      → Gaps (n.rhs + 2) after
      → n.lhs ≡ elem.rhs + 1
      → Inserted
          (assign n (record { lhs = elem.lhs; rhs = n.rhs }) (remove elem t))
          (bs ++ (n ∷ after))
          r
  join_next-touching t elem bs after r n j v g h = record {
    valid = rw place (
        Gaps-join 0 j.before (joined ∷ after) j.gaps (
          j.room,
          record { ordered = omega (arith, j.ordered, v.ordered); bounded = v.bounded },
          g,
        ));
    members = λ fd.
        rw (place, contains-append j.before (joined ∷ after) fd, contains-append bs (n ∷ after) fd)
          (ground (arith, j.members fd, j.ordered, v.ordered));
  }
    where
      joined : FdRange
      joined = record { lhs = elem.lhs; rhs = n.rhs }

      place : ranges (assign n joined (remove elem t)) ≡ j.before ++ (joined ∷ after)
      place =
          ranges-assign (remove elem t) j.before after n joined
            (ranges-remove t j.before (n ∷ after) elem j.place
              (Gaps-below 0 j.before elem j.gaps (omega (arith, j.room))))
            (Gaps-below 0 j.before n j.gaps (omega (arith, j.room, j.ordered)))

  pub join_next-Inserted :
      (t : Tree) (elem : FdRange) (bs after : List FdRange) (r : FdRange)
      → LeftJoined t elem bs after r
      → IsRange r
      → Gaps (r.rhs + 1) after
      → Inserted (join_next T t elem (first after)) (bs ++ after) r
  unfolding join_next
  join_next-Inserted t elem bs [] r j v g = join_next-apart t elem bs [] r j v tt
  join_next-Inserted t elem bs (n ∷ after) r j v g = elim (Bool-cases (right_neighbour elem n)) [
    | inl touching ↦
        rw touching (join_next-touching t elem bs after r n j g.1 g.2 (touches touching))
    | inr apart ↦ rw apart (join_next-apart t elem bs (n ∷ after) r j v (room apart, g.1, g.2))
  ]
    where
      touches : right_neighbour elem n ≡ true → n.lhs ≡ elem.rhs + 1
      touches h = right_neighbour-true elem n h

      room : right_neighbour elem n ≡ false → r.rhs + 2 ≤ n.lhs
      room h = omega (arith, right_neighbour-false elem n h, j.same_rhs, g.0)

  pub join_prev-LeftJoined :
      (t : Tree) (bs after : List FdRange) (p r : FdRange)
      → ranges t ≡ (bs ++ (p ∷ [])) ++ (r ∷ after)
      → IsRange r
      → Gaps 0 (bs ++ (p ∷ []))
      → p.rhs < r.lhs
      → let (t', elem) = join_prev T t r (some p) in LeftJoined t' elem (bs ++ (p ∷ [])) after r
  unfolding join_prev
  join_prev-LeftJoined t bs after p r e v g h = elim (Bool-cases (left_neighbour r p)) [
    | inl touching ↦
        rw touching (join_prev-touching t bs after p r e v g (left_neighbour-true r p touching))
    | inr apart ↦
        rw apart
          (join_prev-apart t bs after p r e v g (omega (arith, left_neighbour-false r p apart, h)))
  ]
