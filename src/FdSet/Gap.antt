-- ===== src/FdSet/Gap.antt =====
-- The two loops of `ert_invertFdSet()`: what is left of them is the gaps.
use libert.Base.{
  ℕ, zero, suc, ◌+◌, ◌-◌, ◌≤◌, ◌<◌, ◌≡◌, ◌∙◌, sym, inl, inr, not, ◌&&◌, List, [], ◌∷◌, ◌++◌, All,
  All-last, length, length-append, int_max, nonzero, ltb, lt→ltb, ltb→lt, ltb→le, arith, Bool-cases,
  Option, some, none,
}
use libert.FdSet.Range.{FdRange, IsRange, ◌≺◌}
use libert.FdSet.Tree.{RangeTree}
use libert.FdSet.Ops.{invert_down, invert_up}
use libert.FdSet.Valid.{
  Gaps, contains, end, Gaps-split, Gaps-weaken, Gaps-join, end-append, Gaps-below, contains-append,
  contains-below, contains-above,
}
use libert.FdSet.Order.{LastView, empty, last, last_view}
use libert.FdSet.Join.{snoc-append}

module _ (T : RangeTree) where
  open T use {
    Tree, ranges, remove, assign, prev, next, ranges-remove, ranges-assign, prev-none, prev-some,
    next-none, next-some,
  }

  -- What the upward loop leaves behind `front`: the gaps above `r` between the ranges of `rest`.
  pub record GapsAbove (t : Tree) (front : List FdRange) (r : FdRange) (rest : List FdRange)
      : Type 0 where
    pub gaps : List FdRange
    pub place : ranges t ≡ front ++ gaps
    pub valid : Gaps (r.rhs + 1) gaps
    pub members :
        (fd : ℕ) → fd ≤ int_max → contains gaps fd ≡ (ltb r.rhs fd && not (contains rest fd))

  up_last :
      (fuel : ℕ) (t : Tree) (r : FdRange)
      → next r t ≡ none
      → invert_up T (suc fuel) t (some r) ≡ assign r (record { lhs = r.rhs + 1; rhs = int_max }) t
  unfolding invert_up
  up_last fuel t r e = rw (e, invert_up)

  up_next :
      (fuel : ℕ) (t : Tree) (r n : FdRange)
      → next r t ≡ some n
      → invert_up T (suc fuel) t (some r)
        ≡ invert_up T fuel (assign r (record { lhs = r.rhs + 1; rhs = n.lhs - 1 }) t) (some n)
  unfolding invert_up
  up_next fuel t r n e = step (next r t) e
    where
      step :
          (o : Option FdRange)
          → o ≡ some n
          → elim o as (λ _. Tree) [
            | none ↦ assign r (record { lhs = r.rhs + 1; rhs = int_max }) t
            | some m ↦
                invert_up T fuel (assign r (record { lhs = r.rhs + 1; rhs = m.lhs - 1 }) t) (some m)
          ]
            ≡ invert_up T fuel (assign r (record { lhs = r.rhs + 1; rhs = n.lhs - 1 }) t) (some n)
      step o h = rw h

  pub invert_up-GapsAbove :
      (fuel : ℕ) (t : Tree) (front rest : List FdRange) (r : FdRange)
      → length rest < fuel
      → ranges t ≡ front ++ (r ∷ rest)
      → Gaps 0 front
      → end 0 front ≤ r.lhs + 1
      → IsRange r
      → Gaps (r.rhs + 2) rest
      → r.rhs < int_max
      → All (λ x. x.rhs < int_max) rest
      → GapsAbove (invert_up T fuel t (some r)) front r rest
  invert_up-GapsAbove zero t front rest r h e g room v gr hr hrest = elim h [ ]
  invert_up-GapsAbove (suc fuel) t front [] r h e g room v gr hr hrest =
      rw (up_last fuel t r (next-none t front r e (Gaps-below 0 front r g room))) (record {
        gaps = record { lhs = r.rhs + 1; rhs = int_max } ∷ [];
        place = ranges-assign t front [] r _ e (Gaps-below 0 front r g room);
        valid = (omega arith, omega arith, tt);
        members = λ fd b. ground arith;
      })
  invert_up-GapsAbove (suc fuel) t front (n ∷ rest) r h e g room v gr hr hrest =
      let gap : FdRange = record { lhs = r.rhs + 1; rhs = n.lhs - 1 } in
      let ih =
        invert_up-GapsAbove fuel (assign r gap t) (front ++ (gap ∷ [])) rest n (omega arith)
          (ranges-assign t front (n ∷ rest) r gap e (Gaps-below 0 front r g room)
            ∙ sym (snoc-append front gap (n ∷ rest)))
          (Gaps-join 0 front (gap ∷ []) g
            (omega (arith, room, v.ordered), omega (arith, gr.0, gr.1.bounded, gr.1.ordered), tt))
          (rw (end-append 0 front (gap ∷ [])) (omega (arith, gr.0))) gr.1 gr.2 hrest.0 hrest.1 in
      rw (up_next fuel t r n (next-some t front rest r n e (Gaps-below 0 front r g room))) (record {
        gaps = gap ∷ ih.gaps;
        place = ih.place ∙ snoc-append front gap ih.gaps;
        valid = (
          omega arith,
          omega (arith, gr.0, gr.1.bounded, gr.1.ordered),
          Gaps-weaken (n.lhs - 1 + 2) (n.rhs + 1) ih.gaps (omega (arith, gr.0, gr.1.ordered))
              ih.valid,
        );
        members = λ fd b.
            ground
              (arith, ih.members fd b, gr.0, gr.1.ordered, contains-above (n.rhs + 2) rest fd gr.2);
      })

  -- What the downward loop leaves before `back`: the gaps below `r` between the ranges before it.
  pub record GapsBelow (t : Tree) (bs : List FdRange) (r : FdRange) (back : List FdRange)
      : Type 0 where
    pub gaps : List FdRange
    pub place : ranges t ≡ gaps ++ back
    pub valid : Gaps 0 gaps
    pub room : end 0 gaps ≤ r.lhs + 1
    pub members : (fd : ℕ) → contains gaps fd ≡ (ltb fd r.lhs && not (contains bs fd))

  down_zero :
      (fuel : ℕ) (t : Tree) (r : FdRange)
      → r.lhs ≡ 0
      → invert_down T (suc fuel) t (some r) ≡ remove r t
  unfolding invert_down
  down_zero fuel t r e = ground arith

  down_first :
      (fuel : ℕ) (t : Tree) (r : FdRange)
      → 0 < r.lhs
      → prev r t ≡ none
      → invert_down T (suc fuel) t (some r) ≡ assign r (record { lhs = 0; rhs = r.lhs - 1 }) t
  unfolding invert_down
  down_first fuel t r h e = rw (lt→ltb _ _ h, e, invert_down)

  down_prev :
      (fuel : ℕ) (t : Tree) (r p : FdRange)
      → 0 < r.lhs
      → prev r t ≡ some p
      → invert_down T (suc fuel) t (some r)
        ≡ invert_down T fuel (assign r (record { lhs = p.rhs + 1; rhs = r.lhs - 1 }) t) (some p)
  unfolding invert_down
  down_prev fuel t r p h e = ground (arith, e)

  pub invert_down-GapsBelow :
      (fuel : ℕ) {bs : List FdRange}
      → LastView bs
      → (t : Tree) (back : List FdRange) (r : FdRange) → length bs < fuel
      → ranges t ≡ bs ++ (r ∷ back)
      → Gaps 0 bs
      → end 0 bs ≤ r.lhs
      → IsRange r
      → GapsBelow (invert_down T fuel t (some r)) bs r back
  invert_down-GapsBelow zero view t back r h e g room v = elim h [ ]
  invert_down-GapsBelow (suc fuel) empty t back r h e g room v = elim (Bool-cases (nonzero r.lhs)) [
    | inl pos ↦ rw (down_first fuel t r (ltb→lt _ _ pos) (prev-none t back r e)) (record {
      gaps = record { lhs = 0; rhs = r.lhs - 1 } ∷ [];
      place = ranges-assign t [] back r _ e tt;
      valid = (omega arith, omega (arith, v.bounded, v.ordered), tt);
      room = omega (arith, ltb→lt _ _ pos);
      members = λ fd. ground (arith, pos);
    })
    | inr zero_lhs ↦ rw (down_zero fuel t r (omega (arith, ltb→le _ _ zero_lhs))) (record {
      gaps = [];
      place = ranges-remove t [] back r e tt;
      valid = tt;
      room = omega arith;
      members = λ fd. ground (arith, zero_lhs);
    })
  ]
  invert_down-GapsBelow (suc fuel) (last bs p) t back r h e g room v =
      let gap : FdRange = record { lhs = p.rhs + 1; rhs = r.lhs - 1 } in
      let parts = Gaps-split 0 bs (p ∷ []) g in
      let apart : p.rhs + 2 ≤ r.lhs = omega (arith, room, end-append 0 bs (p ∷ [])) in
      let lower = Gaps-below 0 (bs ++ (p ∷ [])) r g (omega (arith, room)) in
      let below = All-last (λ x. x ≺ r) bs p lower in
      let ih =
        invert_down-GapsBelow fuel (last_view bs) (assign r gap t) (gap ∷ back) p
          (omega (arith, h, length-append {0} bs (p ∷ [])))
          (ranges-assign t (bs ++ (p ∷ [])) back r gap e lower ∙ snoc-append bs p (gap ∷ back))
          parts.0 parts.1.0 parts.1.1 in
      rw
        (down_prev fuel t r p (omega (arith, apart))
          (prev-some t bs back p r (e ∙ snoc-append bs p (r ∷ back)) below.0 below.1))
        (record {
          gaps = ih.gaps ++ (gap ∷ []);
          place = ih.place ∙ sym (snoc-append ih.gaps gap back);
          valid = Gaps-join 0 ih.gaps (gap ∷ []) ih.valid (
            omega (arith, ih.room, parts.1.1.ordered),
            omega (arith, apart, v.bounded, v.ordered),
            tt,
          );
          room = rw (end-append 0 ih.gaps (gap ∷ [])) (omega (arith, apart));
          members = λ fd.
              rw (contains-append ih.gaps (gap ∷ []) fd, contains-append bs (p ∷ []) fd)
                (ground (
                  arith,
                  ih.members fd,
                  apart,
                  parts.1.0,
                  parts.1.1.ordered,
                  contains-below 0 bs fd parts.0,
                ));
        })
