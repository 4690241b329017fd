-- ===== src/FdSet/Invert.antt =====
-- `ert_invertFdSet()` and `ert_fillFdSet()` against the complement.
use mathlib.Core.List.{append-nil}
use native.Mathlib.Decide.{ℕ_discrete, dec_le}
use libert.Base.{
  ℕ, ◌+◌, ◌-◌, ◌≤◌, ◌<◌, ◌≡◌, ◌≢◌, ◌∙◌, refl, sym, ap, inl, inr, true, false, not, ◌&&◌, List, [],
  ◌∷◌, ◌++◌, All, length, length-append, int_max, nonzero, leb, ◌==◌, lt→ltb, ltb→lt, ltb→le, arith,
  Bool-cases, some, ok,
}
use libert.FdSet.Range.{FdRange}
use libert.FdSet.Tree.{RangeTree}
use libert.FdSet.Ops.{invert_down, invert_up, invert_from, invert_last, invert, clear, fill}
use libert.FdSet.Valid.{
  Gaps, IsValid, contains, end, Gaps-split, Gaps-weaken, end-append, end-ge, Gaps-above,
  contains-append, contains-above, contains-beyond,
}
use libert.FdSet.Order.{LastView, empty, last, last_view}
use libert.FdSet.Insert.{insert_range-between}
use libert.FdSet.Gap.{invert_up-GapsAbove, invert_down-GapsBelow}

module _ (T : RangeTree) where
  open T use {
    Tree, ranges, insert, init, min, max, insert-absent, min-some, max-none, max-some, ranges-init,
  }

  -- A valid set that holds exactly the descriptors up to `INT_MAX` that the list does not hold.
  pub record Complement (t : Tree) (l : List FdRange) : Type 0 where
    pub valid : IsValid (ranges t)
    pub members : (fd : ℕ) → contains (ranges t) fd ≡ (leb fd int_max && not (contains l fd))

  -- No descriptor above `INT_MAX` has to be looked at.
  complement :
      {t : Tree} {l : List FdRange}
      → IsValid (ranges t)
      → ((fd : ℕ) → fd ≤ int_max → contains (ranges t) fd ≡ not (contains l fd))
      → Complement t l
  complement {t} {l} valid members = record {
    valid = valid;
    members = λ fd. elim (dec_le fd int_max) [
      | yes h ↦ ground (arith, members fd h)
      | no h ↦ ground (arith, contains-beyond 0 (ranges t) fd valid)
    ];
  }

  -- What a set becomes that has nothing.
  invert_empty :
      (t : Tree) → ranges t ≡ [] → (t' : Tree) × (invert T true t ≡ (ok tt, t')) × Complement t' []
  unfolding invert invert_last
  invert_empty t e =
      let (t', status, i) =
        insert_range-between T t [] [] (record { lhs = 0; rhs = int_max }) e (omega arith) tt
          (omega arith) tt in
      (t', rw (max-none t e) status, complement i.valid (λ fd b. rw (i.members fd) (ground arith)))

  -- The last range reaches `INT_MAX`.
  invert_full :
      (bs : List FdRange) (p : FdRange) (t : Tree)
      → ranges t ≡ bs ++ (p ∷ [])
      → Gaps 0 (bs ++ (p ∷ []))
      → p.rhs ≡ int_max
      → (t' : Tree) × (invert T true t ≡ (ok tt, t')) × Complement t' (bs ++ (p ∷ []))
  unfolding invert invert_last
  invert_full bs p t e g full =
      let parts = Gaps-split 0 bs (p ∷ []) g in
      let b =
        invert_down-GapsBelow T (length (ranges t)) (last_view bs) t [] p
          (rw e (omega (arith, length-append {0} bs (p ∷ [])))) e parts.0 parts.1.0 parts.1.1 in
      (
        invert_down T (length (ranges t)) t (some p),
        rw (max-some t bs p e) (ground (arith, full)),
        complement (rw (b.place ∙ append-nil b.gaps) b.valid) (λ fd h.
            rw (b.place ∙ append-nil b.gaps, b.members fd, contains-append bs (p ∷ []) fd)
              (ground (arith, full, h, parts.1.1.ordered))),
      )

  -- The last range ends before `INT_MAX`, and so do all.
  below_max :
      (b : ℕ) (l : List FdRange) → Gaps b l → end b l ≤ int_max + 1 → All (λ x. x.rhs < int_max) l
  below_max b [] g h = tt
  below_max b (x ∷ xs) g h =
      (omega (arith, end-ge (x.rhs + 2) xs g.2), below_max (x.rhs + 2) xs g.2 h)

  -- The upward loop from the first range, with what is put before it.
  module _ (t : Tree) (x : FdRange) (xs : List FdRange) (e : ranges t ≡ x ∷ xs)
      (g : Gaps 0 (x ∷ xs)) (hx : x.rhs < int_max) (hxs : All (λ y. y.rhs < int_max) xs) where
    enough : length xs < length (ranges t)
    enough = rw e (omega arith)

    from_zero : x.lhs ≡ 0 → Complement (invert_up T (length (ranges t)) t (some x)) (x ∷ xs)
    from_zero h =
        let a =
          invert_up-GapsAbove T (length (ranges t)) t [] xs x enough e tt (omega arith) g.1 g.2 hx
            hxs in
        complement (rw a.place (Gaps-weaken 0 (x.rhs + 1) a.gaps (omega arith) a.valid)) (λ fd b.
          rw (a.place, a.members fd b) (ground (arith, h, contains-above (x.rhs + 2) xs fd g.2)))

    low : FdRange
    low = record { lhs = 0; rhs = x.lhs - 1 }

    from_low :
        (t1 : Tree)
        → 0 < x.lhs
        → ranges t1 ≡ low ∷ x ∷ xs
        → Complement (invert_up T (length (ranges t)) t1 (some x)) (x ∷ xs)
    unfolding low
    from_low t1 h e1 =
        let a =
          invert_up-GapsAbove T (length (ranges t)) t1 (low ∷ []) xs x enough e1
            (omega arith, omega (arith, g.1.bounded, g.1.ordered), tt) (omega arith) g.1 g.2 hx
            hxs in
        complement
          (rw a.place (
            omega arith,
            omega (arith, g.1.bounded, g.1.ordered),
            Gaps-weaken (x.lhs - 1 + 2) (x.rhs + 1) a.gaps (omega (arith, g.1.ordered)) a.valid,
          ))
          (λ fd b.
            rw (a.place) (
              ground (arith, h, a.members fd b, contains-above (x.rhs + 2) xs fd g.2, g.1.ordered)))

    from_inserted :
        (t1 : Tree)
        → 0 < x.lhs
        → insert low t ≡ some t1
        → invert_from T true t (some x) ≡ (ok tt, invert_up T (length (ranges t)) t1 (some x))
    unfolding invert_from low
    from_inserted t1 h e1 = rw (lt→ltb _ _ h, e1, invert_from)

    invert_from-Complement :
        (t' : Tree) × (invert_from T true t (some x) ≡ (ok tt, t')) × Complement t' (x ∷ xs)
    unfolding invert_from low
    invert_from-Complement = elim (Bool-cases (nonzero x.lhs)) [
      | inl pos ↦
          let (t1, inserted, place) =
            insert-absent t [] (x ∷ xs) low e tt
              (inl (ltb→lt _ _ pos), Gaps-above (x.rhs + 2) xs low g.2 (omega arith)) in
          (
            invert_up T (length (ranges t)) t1 (some x),
            from_inserted t1 (ltb→lt _ _ pos) inserted,
            from_low t1 (ltb→lt _ _ pos) place,
          )
      | inr none_low ↦ (
        invert_up T (length (ranges t)) t (some x),
        rw none_low,
        from_zero (omega (arith, ltb→le _ _ none_low)),
      )
    ]

  invert_open :
      (bs : List FdRange) (p : FdRange) (t : Tree) (l : List FdRange)
      → ranges t ≡ bs ++ (p ∷ [])
      → ranges t ≡ l
      → Gaps 0 l
      → Gaps 0 (bs ++ (p ∷ []))
      → p.rhs ≢ int_max
      → (t' : Tree) × (invert T true t ≡ (ok tt, t')) × Complement t' l
  unfolding invert invert_last
  invert_open bs p t [] e el g gp h =
      absurd (omega (arith, length-append {0} bs (p ∷ []), ap (λ l. length l) (sym e ∙ el)))
  invert_open bs p t (x ∷ xs) e el g gp h =
      rw (max-some t bs p e, other, min-some t xs x el)
        (invert_from-Complement t x xs el g bounds.0 bounds.1)
    where
      parts : Gaps 0 bs × Gaps (end 0 bs) (p ∷ [])
      parts = Gaps-split 0 bs (p ∷ []) gp

      bounds : All (λ y. y.rhs < int_max) (x ∷ xs)
      bounds = below_max 0 (x ∷ xs) g (
          omega
            (arith, h, parts.1.1.bounded, end-append 0 bs (p ∷ []), ap (λ l. end 0 l) (sym e ∙ el)))

      other : (int_max == p.rhs) ≡ false
      other = ground (arith, h)

  -- With the memory for it, a valid set is inverted: the result is valid, and holds exactly the
  -- descriptors from 0 to `INT_MAX` that the set did not hold.
  pub invert-Complement :
      (t : Tree)
      → IsValid (ranges t)
      → (t' : Tree) × (invert T true t ≡ (ok tt, t')) × Complement t' (ranges t)
  invert-Complement t g = by_last (ranges t) (last_view (ranges t)) refl g
    where
      by_last :
          (l : List FdRange)
          → LastView l
          → ranges t ≡ l
          → Gaps 0 l
          → (t' : Tree) × (invert T true t ≡ (ok tt, t')) × Complement t' l
      by_last _ empty e gl = invert_empty t e
      by_last _ (last bs p) e gl = elim (ℕ_discrete p.rhs int_max) [
        | yes full ↦ invert_full bs p t e gl full
        | no other ↦ invert_open bs p t (bs ++ (p ∷ [])) e e gl gl other
      ]

  -- With the memory for it, filling, whatever the set was, gives a valid set of exactly the
  -- descriptors from 0 to `INT_MAX`.
  pub fill-all :
      (t : Tree)
      → (t' : Tree) × (fill T true t ≡ (ok tt, t'))
        × IsValid (ranges t')
        × ((fd : ℕ) → contains (ranges t') fd ≡ leb fd int_max)
  unfolding fill clear
  fill-all t =
      let (t', status, c) = invert_empty init ranges-init in
      (t', status, c.valid, λ fd. ground (arith, c.members fd))
