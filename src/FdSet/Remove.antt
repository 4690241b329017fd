-- ===== src/FdSet/Remove.antt =====
-- `ert_removeFdSetRange()`: which element the search finds, and when it fails.
use native.Mathlib.Decide.{ℕ_discrete}
use libert.Base.{
  ◌+◌, ◌<◌, ◌≡◌, ◌≢◌, ◌∙◌, refl, sym, ap, subst, inl, Bool, Option, none, some, List, [], ◌∷◌, ◌++◌,
  All, All-last, All-append, All-split, err, enoent, arith,
}
use libert.FdSet.Range.{FdRange, IsRange, ◌≺◌, Contained, outside, contains_range}
use libert.FdSet.Tree.{RangeTree}
use libert.FdSet.Ops.{cut_element, cut_prev, cut_found, cut_first, remove_range}
use libert.FdSet.Valid.{Gaps, IsValid, end, Gaps-split, Gaps-below}
use libert.FdSet.Order.{Position, absent, present, position, LastView, empty, last, last_view}
use libert.FdSet.Join.{snoc-append}
use libert.FdSet.Cut.{IsWithin, RemovedOrFull, cut_element-removes, within-outside, not-within}

module _ (T : RangeTree) where
  open T use {
    Tree, ranges, nfind, max, prev, next, nfind-some, nfind-none, max-none, max-some, prev-none,
    prev-some,
  }

  cut_found-element :
      (c : Contained) (alloc : Bool) (t : Tree) (e r : FdRange)
      → c ≢ outside
      → cut_found T c alloc t e r ≡ cut_element T c alloc t e r
  unfolding cut_found
  cut_found-element outside alloc t e r h = absurd (h refl)
  cut_found-element _ alloc t e r h = refl

  -- The search ends at the element that the range lies within.
  module _ (t : Tree) (bs after : List FdRange) (e r : FdRange)
      (place : ranges t ≡ bs ++ (e ∷ after)) (g : Gaps 0 (bs ++ (e ∷ after))) (v : IsRange r)
      (w : IsWithin r e) where
    parts : Gaps 0 bs × Gaps (end 0 bs) (e ∷ after)
    parts = Gaps-split 0 bs (e ∷ after) g

    below : All (λ x. x ≺ r) bs
    below = Gaps-below 0 bs r parts.0 (omega (arith, parts.1.0))

    found_at_once :
        (alloc : Bool) (l : Option FdRange)
        → cut_first T (some e) l alloc t r ≡ cut_element T (contains_range e r) alloc t e r
    unfolding cut_first
    found_at_once alloc l =
        cut_found-element (contains_range e r) alloc t e r (λ o. within-outside e r v o w)

    -- The element has the left bound of the range: the search finds it.
    same_left :
        (alloc : Bool)
        → e.lhs ≡ r.lhs
        → remove_range T alloc t r ≡ cut_element T (contains_range e r) alloc t e r
    unfolding remove_range
    same_left alloc h =
        rw (nfind-some t bs after r e place below (λ lt. ground (arith, lt)))
          (found_at_once alloc (max t))

    -- The element begins before the range, and is the last one: nothing is found but the last.
    as_last :
        (alloc : Bool)
        → after ≡ []
        → e.lhs < r.lhs
        → remove_range T alloc t r ≡ cut_element T (contains_range e r) alloc t e r
    unfolding remove_range cut_first
    as_last alloc h lt =
        let alone : ranges t ≡ bs ++ (e ∷ []) = place ∙ ap (λ l. bs ++ (e ∷ l)) h in
        rw
          (
            nfind-none t r (rw alone (All-append (λ x. x ≺ r) bs (e ∷ []) below (inl lt, tt))),
            max-some t bs e alone,
          )
          (cut_found-element (contains_range e r) alloc t e r (λ o. within-outside e r v o w))

    -- The element begins before the range, and another follows it: that is found, and the one before it
    -- is tried.
    as_prev :
        (alloc : Bool) (n : FdRange) (rest : List FdRange)
        → after ≡ n ∷ rest
        → Gaps (e.rhs + 2) (n ∷ rest)
        → e.lhs < r.lhs
        → remove_range T alloc t r ≡ cut_element T (contains_range e r) alloc t e r
    unfolding remove_range cut_first cut_found cut_prev
    as_prev alloc n rest h gn lt =
        let here : ranges t ≡ bs ++ (e ∷ n ∷ rest) = place ∙ ap (λ l. bs ++ (e ∷ l)) h in
        rw (
          nfind-some t (bs ++ (e ∷ [])) rest r n (here ∙ sym (snoc-append bs e (n ∷ rest)))
              (All-append (λ x. x ≺ r) bs (e ∷ []) below (inl lt, tt))
              (λ p. ground (arith, p, gn.0, v.ordered)),
          not-within n r v (λ p. ground (arith, p.0, gn.0, v.ordered)),
          prev-some t bs rest e n here
              (Gaps-below 0 bs n parts.0 (ground (arith, parts.1.0, parts.1.1.ordered, gn.0)))
              (ground (arith, gn.0, parts.1.1.ordered)),
        )

    search_ends :
        (alloc : Bool) (rest : List FdRange)
        → after ≡ rest
        → e.lhs < r.lhs
        → remove_range T alloc t r ≡ cut_element T (contains_range e r) alloc t e r
    search_ends alloc [] h lt = as_last alloc h lt
    search_ends alloc (n ∷ rest) h lt =
        as_prev alloc n rest h (subst (λ l. Gaps (e.rhs + 2) l) h parts.1.2) lt

    pub remove_range-element :
        (alloc : Bool) → RemovedOrFull T alloc (remove_range T alloc t r) (bs ++ (e ∷ after)) r
    remove_range-element alloc = elim (ℕ_discrete e.lhs r.lhs) [
      | yes same ↦
          rw (same_left alloc same) (cut_element-removes T t bs after e r place g v w alloc)
      | no other ↦
          rw (search_ends alloc after refl (omega arith))
            (cut_element-removes T t bs after e r place g v w alloc)
    ]

  -- No element holds the range: every way of the search ends in `ENOENT`.
  prev_fails :
      {bs : List FdRange}
      → LastView bs
      → (alloc : Bool) (t : Tree) (after : List FdRange) (n r : FdRange)
      → ranges t ≡ bs ++ (n ∷ after)
      → All (λ x. x ≺ n) bs
      → All (λ x. contains_range x r ≡ outside) bs
      → cut_prev T (prev n t) alloc t r ≡ (err enoent, t)
  unfolding cut_prev cut_element
  prev_fails empty alloc t after n r e lo o = rw (prev-none t after n e)
  prev_fails (last bs p) alloc t after n r e lo o =
      let lower = All-last (λ x. x ≺ n) bs p lo in
      let out = All-last (λ x. contains_range x r ≡ outside) bs p o in
      rw (prev-some t bs after p n (e ∙ snoc-append bs p (n ∷ after)) lower.0 lower.1, out.1)

  max_fails :
      {bs : List FdRange}
      → LastView bs
      → (alloc : Bool) (t : Tree) (r : FdRange) → ranges t ≡ bs
      → Gaps 0 bs
      → All (λ x. contains_range x r ≡ outside) bs
      → cut_first T none (max t) alloc t r ≡ (err enoent, t)
  unfolding cut_first cut_found
  max_fails empty alloc t r e g o = rw (max-none t e)
  max_fails (last bs p) alloc t r e g o =
      let out = All-last (λ x. contains_range x r ≡ outside) bs p o in
      let parts = Gaps-split 0 bs (p ∷ []) g in
      rw (max-some t bs p e, out.1)
        (prev_fails (last_view bs) alloc t [] p r e
          (Gaps-below 0 bs p parts.0 (omega (arith, parts.1.0))) out.0)

  search_fails :
      (alloc : Bool) (t : Tree) (bs after : List FdRange) (r : FdRange)
      → ranges t ≡ bs ++ after
      → Gaps 0 (bs ++ after)
      → All (λ x. x ≺ r) bs
      → All (λ x. r ≺ x) after
      → All (λ x. contains_range x r ≡ outside) (bs ++ after)
      → remove_range T alloc t r ≡ (err enoent, t)
  unfolding remove_range cut_first cut_found
  search_fails alloc t bs [] r e g lo hi o =
      rw (nfind-none t r (rw e (All-append (λ x. x ≺ r) bs [] lo tt)))
        (max_fails (last_view (bs ++ [])) alloc t r e g o)
  search_fails alloc t bs (n ∷ after) r e g lo hi o =
      let parts = Gaps-split 0 bs (n ∷ after) g in
      let out = All-split (λ x. contains_range x r ≡ outside) bs (n ∷ after) o in
      rw (nfind-some t bs after r n e lo (λ p. ground (arith, p, hi.0)), out.1.0)
        (prev_fails (last_view bs) alloc t after n r e
          (Gaps-below 0 bs n parts.0 (omega (arith, parts.1.0))) out.0)

  pub remove_range-outside :
      (alloc : Bool) (t : Tree) (r : FdRange)
      → IsValid (ranges t)
      → IsRange r
      → All (λ x. contains_range x r ≡ outside) (ranges t)
      → remove_range T alloc t r ≡ (err enoent, t)
  remove_range-outside alloc t r g v o = at_position (position 0 r (ranges t) g)
    where
      at_position : Position r (ranges t) → remove_range T alloc t r ≡ (err enoent, t)
      at_position (absent bs after e lo hi) =
          search_fails alloc t bs after r e (subst (λ l. Gaps 0 l) e g) lo hi
            (subst (λ l. All (λ x. contains_range x r ≡ outside) l) e o)
      at_position (present bs after e lo) =
          let out =
            All-split (λ x. contains_range x r ≡ outside) bs (r ∷ after)
              (subst (λ l. All (λ x. contains_range x r ≡ outside) l) e o) in
          absurd (within-outside r r v out.1.0 (omega arith, omega arith))
