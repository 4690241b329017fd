-- ===== src/FdSet/Insert.antt =====
-- `ert_insertFdSetRange()`: a range joins the set exactly if it overlaps nothing in it.
use libert.Base.{
  ◌+◌, ◌≤◌, ◌<◌, ◌≡◌, ◌∙◌, refl, true, none, some, List, [], ◌∷◌, ◌++◌, All, All-last, ok, arith,
  lt→ltb,
}
use libert.FdSet.Range.{FdRange, IsRange, ◌≺◌, left_of, right_of}
use libert.FdSet.Tree.{RangeTree}
use libert.FdSet.Ops.{clear_of_next, join_prev, join_next, settle, insert_range}
use libert.FdSet.Valid.{Gaps, end, end-append, Gaps-below, Gaps-above}
use libert.FdSet.Order.{LastView, empty, last, last_view}
use libert.FdSet.Join.{
  snoc-append, first, Inserted, join_prev-first, join_prev-LeftJoined, join_next-Inserted,
}

clear_of_next-first :
    (r : FdRange) (after : List FdRange)
    → Gaps (r.rhs + 1) after
    → clear_of_next r (first after) ≡ true
unfolding right_of
clear_of_next-first r [] g = refl
clear_of_next-first r (n ∷ after) g = ground (arith, g.0)

module _ (T : RangeTree) where
  open T use {Tree, ranges, insert, remove, prev, next}
  open T use {
    ranges-remove, insert-absent, insert-present, prev-none, prev-some, next-none, next-some,
  }

  pub next-first :
      (t : Tree) (bs after : List FdRange) (r : FdRange)
      → ranges t ≡ bs ++ (r ∷ after)
      → All (λ x. x ≺ r) bs
      → next r t ≡ first after
  next-first t bs [] r e lo = next-none t bs r e lo
  next-first t bs (n ∷ after) r e lo = next-some t bs after r n e lo

  -- The element is clear of both neighbours: it is joined to those that it touches.
  settle-first :
      (t : Tree) (after : List FdRange) (r : FdRange)
      → ranges t ≡ r ∷ after
      → IsRange r
      → Gaps (r.rhs + 1) after
      → (t' : Tree) × (settle T t r none (first after) ≡ (ok tt, t')) × Inserted T t' after r
  unfolding settle
  settle-first t after r e v g = (
    join_next T t r (first after),
    rw (clear_of_next-first r after g),
    join_next-Inserted T t r [] after r (join_prev-first T t after r e v) v g,
  )

  settle-last :
      (t : Tree) (bs after : List FdRange) (p r : FdRange)
      → ranges t ≡ (bs ++ (p ∷ [])) ++ (r ∷ after)
      → IsRange r
      → Gaps 0 (bs ++ (p ∷ []))
      → p.rhs < r.lhs
      → Gaps (r.rhs + 1) after
      → (t' : Tree) × (settle T t r (some p) (first after) ≡ (ok tt, t'))
        × Inserted T t' ((bs ++ (p ∷ [])) ++ after) r
  unfolding settle
  settle-last t bs after p r e v g h ga =
      let joined = join_prev T t r (some p) in
      (
        join_next T joined.0 joined.1 (first after),
        rw (clear, clear_of_next-first r after ga),
        join_next-Inserted T joined.0 joined.1 (bs ++ (p ∷ [])) after r
            (join_prev-LeftJoined T t bs after p r e v g h) v ga,
      )
    where
      clear : left_of r p ≡ true
      clear = unfold left_of in lt→ltb _ _ h

  settle-between :
      {bs : List FdRange}
      → LastView bs
      → (t : Tree) (after : List FdRange) (r : FdRange) → ranges t ≡ bs ++ (r ∷ after)
      → IsRange r
      → Gaps 0 bs
      → end 0 bs ≤ r.lhs + 1
      → Gaps (r.rhs + 1) after
      → (t' : Tree) × (settle T t r (prev r t) (first after) ≡ (ok tt, t'))
        × Inserted T t' (bs ++ after) r
  settle-between empty t after r e v g room ga =
      rw (prev-none t after r e) (settle-first t after r e v ga)
  settle-between (last before p) t after r e v g room ga =
      let lower = All-last (λ x. x ≺ r) before p (Gaps-below 0 (before ++ (p ∷ [])) r g room) in
      rw (prev-some t before after p r (e ∙ snoc-append before p (r ∷ after)) lower.0 lower.1)
        (settle-last t before after p r e v g (omega (arith, end-append 0 before (p ∷ []))) ga)

  pub insert_range-settle :
      (t t1 : Tree) (r : FdRange)
      → insert r t ≡ some t1
      → insert_range T true t r ≡ settle T t1 r (prev r t1) (next r t1)
  unfolding insert_range
  insert_range-settle t t1 r e = rw (e, insert_range)

  -- A range that begins behind what is before it, and ends before what is after it, is inserted.
  pub insert_range-between :
      (t : Tree) (bs after : List FdRange) (r : FdRange)
      → ranges t ≡ bs ++ after
      → IsRange r
      → Gaps 0 bs
      → end 0 bs ≤ r.lhs + 1
      → Gaps (r.rhs + 1) after
      → (t' : Tree) × (insert_range T true t r ≡ (ok tt, t')) × Inserted T t' (bs ++ after) r
  insert_range-between t bs after r e v g room ga =
      let (t1, inserted, place) =
        insert-absent t bs after r e (Gaps-below 0 bs r g room)
          (Gaps-above (r.rhs + 1) after r ga (omega (arith, v.ordered))) in
      rw
        (
          insert_range-settle t t1 r inserted,
          next-first t1 bs after r place (Gaps-below 0 bs r g room),
        )
        (settle-between (last_view bs) t1 after r place v g room ga)
