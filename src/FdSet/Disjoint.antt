-- ===== src/FdSet/Disjoint.antt =====
-- `ert_insertFdSetRange()`: a range joins the set exactly if it overlaps nothing in it.
use libert.Base.{
  ℕ, ◌+◌, ◌≤◌, ◌≡◌, ◌∙◌, refl, sym, subst, inl, inr, true, false, ◌&&◌, List, [], ◌∷◌, ◌++◌, All,
  All-last, ok, err, eexist, arith, Bool-cases,
}
use libert.FdSet.Range.{FdRange, IsRange, covers, ◌≺◌, left_of, right_of}
use libert.FdSet.Tree.{RangeTree}
use libert.FdSet.Ops.{clear_of_prev, clear_of_next, settle, insert_range}
use libert.FdSet.Valid.{
  Gaps, IsValid, contains, end, Gaps-split, end-append, contains-append, contains-below,
  contains-above,
}
use libert.FdSet.Order.{Position, absent, present, position, LastView, empty, last, last_view}
use libert.FdSet.Join.{snoc-append, first, Inserted}
use libert.FdSet.Insert.{next-first, insert_range-settle, insert_range-between}

-- No descriptor of the range is in the set.
abbrev pub IsDisjoint : FdRange → List FdRange → Type 0
IsDisjoint r l = (fd : ℕ) → covers r fd ≡ true → contains l fd ≡ false

-- A range that is disjoint from the set begins behind what is lower, and ends before what is higher.
room_before :
    {bs : List FdRange}
    → LastView bs
    → (after : List FdRange) (r : FdRange) → IsRange r
    → Gaps 0 bs
    → All (λ x. x ≺ r) bs
    → IsDisjoint r (bs ++ after)
    → end 0 bs ≤ r.lhs + 1
room_before empty after r v g lo d = omega arith
room_before (last bs p) after r v g lo d =
    let below = All-last (λ x. x ≺ r) bs p lo in
    let apart = d r.lhs (ground (arith, v.ordered)) in
    ground (
      arith,
      below.1,
      apart,
      end-append 0 bs (p ∷ []),
      contains-append (bs ++ (p ∷ [])) after r.lhs,
      contains-append bs (p ∷ []) r.lhs,
    )

room_after :
    (bs after : List FdRange) (b : ℕ) (r : FdRange)
    → IsRange r
    → Gaps b after
    → All (λ x. r ≺ x) after
    → IsDisjoint r (bs ++ after)
    → Gaps (r.rhs + 1) after
room_after bs [] b r v g hi d = tt
room_after bs (n ∷ after) b r v g hi d = (beyond, g.1, g.2)
  where
    beyond : r.rhs + 1 ≤ n.lhs
    beyond = elim (Bool-cases (covers r n.lhs)) [
      | inl inside ↦
          ground (arith, d n.lhs inside, contains-append bs (n ∷ after) n.lhs, g.1.ordered)
      | inr outside ↦ ground (arith, hi.0)
    ]

module _ (T : RangeTree) where
  open T use {Tree, ranges, insert, remove, prev, next}
  open T use {ranges-remove, insert-absent, insert-present, prev-none, prev-some}

  -- With the memory for it, a range (ordered, up to `INT_MAX`) that overlaps nothing in a valid
  -- set is inserted: the set stays valid, in the form in which no two ranges could be joined, and
  -- holds what it held and what the range covers.
  pub insert_range-disjoint :
      (t : Tree) (r : FdRange)
      → IsValid (ranges t)
      → IsRange r
      → IsDisjoint r (ranges t)
      → (t' : Tree) × (insert_range T true t r ≡ (ok tt, t')) × Inserted T t' (ranges t) r
  insert_range-disjoint t r g v d = at_position (position 0 r (ranges t) g)
    where
      at_position :
          Position r (ranges t)
          → (t' : Tree) × (insert_range T true t r ≡ (ok tt, t')) × Inserted T t' (ranges t) r
      at_position (absent bs after e lo hi) =
          let parts = Gaps-split 0 bs after (subst (λ l. Gaps 0 l) e g) in
          let d' : IsDisjoint r (bs ++ after) = subst (λ l. IsDisjoint r l) e d in
          let room = room_before (last_view bs) after r v parts.0 lo d' in
          let room' = room_after bs after (end 0 bs) r v parts.1 hi d' in
          let (t', done_, inserted) = insert_range-between T t bs after r e v parts.0 room room' in
          (t', done_, subst (λ l. Inserted T t' l r) (sym e) inserted)
      at_position (present bs after e lo) =
          let d' : IsDisjoint r (bs ++ (r ∷ after)) = subst (λ l. IsDisjoint r l) e d in
          absurd (
            ground (
              arith,
              d' r.lhs (ground (arith, v.ordered)),
              contains-append bs (r ∷ after) r.lhs,
              v.ordered,
            ))

  -- The checks against the neighbours pass only where the range has room.
  clear-room :
      {bs : List FdRange}
      → LastView bs
      → (t : Tree) (after : List FdRange) (r : FdRange) → ranges t ≡ bs ++ (r ∷ after)
      → All (λ x. x ≺ r) bs
      → clear_of_prev r (prev r t) ≡ true
      → end 0 bs ≤ r.lhs + 1
  unfolding left_of
  clear-room empty t after r e lo c = omega arith
  clear-room (last bs p) t after r e lo c =
      let below = All-last (λ x. x ≺ r) bs p lo in
      let found = prev-some t bs after p r (e ∙ snoc-append bs p (r ∷ after)) below.0 below.1 in
      ground (arith, found, c, end-append 0 bs (p ∷ []))

  clear-room_after :
      (after : List FdRange) (b : ℕ) (r : FdRange)
      → Gaps b after
      → clear_of_next r (first after) ≡ true
      → Gaps (r.rhs + 1) after
  unfolding right_of
  clear-room_after [] b r g c = tt
  clear-room_after (n ∷ after) b r g c = (ground arith, g.1, g.2)

  -- With the memory for it, a range (ordered, up to `INT_MAX`) that shares a descriptor with a
  -- valid set is refused with `EEXIST`, and the set is left with the ranges that it had.
  pub insert_range-overlap :
      (t : Tree) (r : FdRange) (fd : ℕ)
      → IsValid (ranges t)
      → IsRange r
      → covers r fd ≡ true
      → contains (ranges t) fd ≡ true
      → (t' : Tree) × (insert_range T true t r ≡ (err eexist, t')) × (ranges t' ≡ ranges t)
  unfolding insert_range
  insert_range-overlap t r fd g v c h = at_position (position 0 r (ranges t) g)
    where
      parts : (bs after : List FdRange) → ranges t ≡ bs ++ after → Gaps 0 bs × Gaps (end 0 bs) after
      parts bs after e = Gaps-split 0 bs after (subst (λ l. Gaps 0 l) e g)

      clash :
          (bs after : List FdRange)
          → ranges t ≡ bs ++ after
          → end 0 bs ≤ r.lhs + 1
          → Gaps (r.rhs + 1) after
          → ⊥
      clash bs after e room room' =
          let held : contains (bs ++ after) fd ≡ true = subst (λ l. contains l fd ≡ true) e h in
          ground (
            arith,
            c,
            held,
            contains-append bs after fd,
            contains-below 0 bs fd (parts bs after e).0 (ground (arith, room, c)),
            contains-above (r.rhs + 1) after fd room' (ground (arith, c)),
          )

      refused :
          (t1 : Tree) (bs after : List FdRange)
          → ranges t ≡ bs ++ after
          → ranges t1 ≡ bs ++ (r ∷ after)
          → All (λ x. x ≺ r) bs
          → (clear_of_prev r (prev r t1) && clear_of_next r (first after)) ≡ false
      refused t1 bs after e e1 lo = elim (Bool-cases (clear_of_prev r (prev r t1))) [
        | inl p ↦ elim (Bool-cases (clear_of_next r (first after))) [
          | inl n ↦ absurd (
              clash bs after e (clear-room (last_view bs) t1 after r e1 lo p)
                (clear-room_after after (end 0 bs) r (parts bs after e).1 n))
          | inr n ↦ rw (p, n)
        ]
        | inr p ↦ rw p
      ]

      at_position :
          Position r (ranges t)
          → (t' : Tree) × (insert_range T true t r ≡ (err eexist, t')) × (ranges t' ≡ ranges t)
      at_position (absent bs after e lo hi) =
          let (t1, inserted, place) = insert-absent t bs after r e lo hi in
          (
            remove r t1,
            rw (insert_range-settle T t t1 r inserted, next-first T t1 bs after r place lo)
                (rw (settle, refused t1 bs after e place lo)),
            ranges-remove t1 bs after r place lo ∙ sym e,
          )
      at_position (present bs after e lo) =
          (t, rw (insert-present t bs after r e lo, insert_range), refl)
