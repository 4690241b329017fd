-- ===== src/FdSet/Cut.antt =====
-- The `switch` of `ert_removeFdSetRange()`: a range is cut out of the element that contains it.
use libert.Base.{
  ℕ, ◌+◌, ◌-◌, ◌≤◌, ◌<◌, ◌≡◌, ◌≢◌, ◌∙◌, refl, sym, ◌⊎◌, inl, inr, Bool, true, false, not, ◌&&◌,
  List, [], ◌∷◌, ◌++◌, All, ok, err, enomem, arith,
}
use native.Mathlib.Decide.{ℕ_discrete, dec_le}
use libert.FdSet.Range.{
  FdRange, IsRange, covers, ◌≺◌, outside, at_left, at_right, whole, inside, contains_range,
}
use libert.FdSet.Tree.{RangeTree}
use libert.FdSet.Ops.{Status, split_element, cut_element, insert_range}
use libert.FdSet.Valid.{
  Gaps, IsValid, contains, end, Gaps-split, Gaps-join, Gaps-weaken, end-append, Gaps-below,
  contains-append, contains-below, contains-above,
}
use libert.FdSet.Join.{snoc-append, Inserted}
use libert.FdSet.Insert.{insert_range-between}

-- The range lies within the element.
abbrev pub IsWithin : FdRange → FdRange → Type 0
IsWithin r e = (e.lhs ≤ r.lhs) × (r.rhs ≤ e.rhs)

module _ (e r : FdRange) (v : IsRange r) where
  is_whole : e.lhs ≡ r.lhs → e.rhs ≡ r.rhs → contains_range e r ≡ whole
  unfolding contains_range
  is_whole hl hr = ground (arith, v.ordered)

  is_left : IsWithin r e → e.lhs ≡ r.lhs → e.rhs ≢ r.rhs → contains_range e r ≡ at_left
  unfolding contains_range
  is_left w hl hr = ground (arith, v.ordered)

  is_right : IsWithin r e → e.lhs ≢ r.lhs → e.rhs ≡ r.rhs → contains_range e r ≡ at_right
  unfolding contains_range
  is_right w hl hr = ground (arith, v.ordered)

  is_inside : IsWithin r e → e.lhs ≢ r.lhs → e.rhs ≢ r.rhs → contains_range e r ≡ inside
  unfolding contains_range
  is_inside w hl hr = ground (arith, v.ordered)

  -- The comparison says `outside` of a range that the element does not hold, and of no other.
  pub within-outside : (contains_range e r ≡ outside) → IsWithin r e → ⊥
  unfolding contains_range
  within-outside h w = ground (arith, v.ordered)

  pub not-within : ¬ IsWithin r e → contains_range e r ≡ outside
  unfolding contains_range
  not-within h = elim (dec_le e.lhs r.lhs) [
    | yes hl ↦ elim (dec_le r.rhs e.rhs) [ yes hr ↦ absurd (h (hl, hr)) | no hr ↦ ground arith ]
    | no hl ↦ ground arith
  ]

module _ (T : RangeTree) where
  open T use {Tree, ranges, remove, assign, ranges-remove, ranges-assign}

  -- A valid set that holds what the list held, without what the range covers.
  pub record Removed (t : Tree) (l : List FdRange) (r : FdRange) : Type 0 where
    pub valid : IsValid (ranges t)
    pub members : (fd : ℕ) → contains (ranges t) fd ≡ (contains l fd && not (covers r fd))

  -- The range was removed, or there was no memory for the second part of an element: then the set is as
  -- it was.
  abbrev pub RemovedOrFull : Bool → Status × Tree → List FdRange → FdRange → Type 0
  RemovedOrFull alloc out l r =
      ((out.0 ≡ ok tt) × Removed out.1 l r)
      ⊎ ((alloc ≡ false) × (out.0 ≡ err enomem) × (ranges out.1 ≡ l))

  -- The list with one element at a place.
  module _ (t : Tree) (bs after : List FdRange) (e r : FdRange)
      (place : ranges t ≡ bs ++ (e ∷ after)) (g : Gaps 0 (bs ++ (e ∷ after))) (v : IsRange r)
      (w : IsWithin r e) where
    parts : Gaps 0 bs × Gaps (end 0 bs) (e ∷ after)
    parts = Gaps-split 0 bs (e ∷ after) g

    lower : All (λ x. x ≺ e) bs
    lower = Gaps-below 0 bs e parts.0 (omega (arith, parts.1.0))

    -- An element is put in the place of `e`.
    replaced :
        (e' : FdRange)
        → IsRange e'
        → e.lhs ≤ e'.lhs
        → e'.rhs ≤ e.rhs
        → ((fd : ℕ) → covers e' fd ≡ (covers e fd && not (covers r fd)))
        → Removed (assign e e' t) (bs ++ (e ∷ after)) r
    replaced e' v' hl hr m = record {
      valid = rw (ranges-assign t bs after e e' place lower) (
          Gaps-join 0 bs (e' ∷ after) parts.0 (
            omega (arith, parts.1.0),
            v',
            Gaps-weaken (e'.rhs + 2) (e.rhs + 2) after (omega arith) parts.1.2,
          ));
      members = λ fd.
          rw
            (
              ranges-assign t bs after e e' place lower,
              contains-append bs (e' ∷ after) fd,
              contains-append bs (e ∷ after) fd,
            )
            (ground (
              arith,
              m fd,
              contains-below 0 bs fd parts.0,
              contains-above (e.rhs + 2) after fd parts.1.2,
              parts.1.0,
            ));
    }

    cut_left :
        r.rhs < e.rhs
        → e.lhs ≡ r.lhs
        → Removed (assign e (record { lhs = r.rhs + 1; rhs = e.rhs }) t) (bs ++ (e ∷ after)) r
    cut_left h same =
        replaced (record { lhs = r.rhs + 1; rhs = e.rhs }) (omega (arith, parts.1.1.bounded))
          (omega (arith, v.ordered)) (omega arith) (λ fd. ground arith)

    cut_right :
        e.lhs < r.lhs
        → e.rhs ≡ r.rhs
        → Removed (assign e (record { lhs = e.lhs; rhs = r.lhs - 1 }) t) (bs ++ (e ∷ after)) r
    cut_right h same =
        replaced (record { lhs = e.lhs; rhs = r.lhs - 1 })
          (omega (arith, parts.1.1.bounded, v.ordered)) (omega arith) (omega (arith, v.ordered))
          (λ fd. ground (arith, v.ordered))

    cut_whole : e.lhs ≡ r.lhs → e.rhs ≡ r.rhs → Removed (remove e t) (bs ++ (e ∷ after)) r
    cut_whole hl hr = record {
      valid = rw (ranges-remove t bs after e place lower) (
          Gaps-join 0 bs after parts.0 (
            Gaps-weaken (end 0 bs) (e.rhs + 2) after (omega (arith, parts.1.0, parts.1.1.ordered))
              parts.1.2));
      members = λ fd.
          rw
            (
              ranges-remove t bs after e place lower,
              contains-append bs after fd,
              contains-append bs (e ∷ after) fd,
            )
            (ground (
              arith,
              contains-below 0 bs fd parts.0,
              contains-above (e.rhs + 2) after fd parts.1.2,
              parts.1.0,
            ));
    }

    -- The middle is cut out.
    lh_side : FdRange
    lh_side = record { lhs = e.lhs; rhs = r.lhs - 1 }

    rh_side : FdRange
    rh_side = record { lhs = r.rhs + 1; rhs = e.rhs }

    lh_place : ranges (assign e lh_side t) ≡ bs ++ (lh_side ∷ after)
    lh_place = ranges-assign t bs after e lh_side place lower

    split_lower : e.lhs < r.lhs → r.rhs < e.rhs → Gaps 0 (bs ++ (lh_side ∷ []))
    unfolding lh_side
    split_lower hl hr =
        Gaps-join 0 bs (lh_side ∷ []) parts.0
          (parts.1.0, omega (arith, parts.1.1.bounded, v.ordered), tt)

    split-Inserted :
        (t' : Tree)
        → Inserted T t' ((bs ++ (lh_side ∷ [])) ++ after) rh_side
        → e.lhs < r.lhs
        → r.rhs < e.rhs
        → Removed t' (bs ++ (e ∷ after)) r
    unfolding lh_side rh_side
    split-Inserted t' i hl hr = record {
      valid = i.valid;
      members = λ fd.
          rw
            (
              i.members fd,
              snoc-append bs lh_side after,
              contains-append bs (lh_side ∷ after) fd,
              contains-append bs (e ∷ after) fd,
            )
            (ground (
              arith,
              contains-below 0 bs fd parts.0,
              contains-above (e.rhs + 2) after fd parts.1.2,
              parts.1.0,
              v.ordered,
            ));
    }

    split_element-ok :
        {t' : Tree}
        → insert_range T true (assign e lh_side t) rh_side ≡ (ok tt, t')
        → split_element T true t e r ≡ (ok tt, t')
    unfolding split_element lh_side rh_side
    split_element-ok h = rw (h, split_element)

    cut_inside :
        (alloc : Bool)
        → e.lhs < r.lhs
        → r.rhs < e.rhs
        → RemovedOrFull alloc (split_element T alloc t e r) (bs ++ (e ∷ after)) r
    unfolding split_element insert_range lh_side rh_side
    cut_inside false hl hr = inr (
      refl,
      refl,
      ranges-assign (assign e lh_side t) bs after lh_side e lh_place
          (Gaps-below 0 bs lh_side parts.0 (omega (arith, parts.1.0))),
    )
    cut_inside true hl hr =
        let (t', status, i) =
          insert_range-between T (assign e lh_side t) (bs ++ (lh_side ∷ [])) after rh_side
            (lh_place ∙ sym (snoc-append bs lh_side after)) (omega (arith, parts.1.1.bounded))
            (split_lower hl hr) (rw (end-append 0 bs (lh_side ∷ [])) (omega (arith, v.ordered)))
            (Gaps-weaken (e.rhs + 1) (e.rhs + 2) after (omega arith) parts.1.2) in
        rw (split_element-ok status) (inl (refl, split-Inserted t' i hl hr))

    -- The `switch` removes the range from an element that it lies within.
    pub cut_element-removes :
        (alloc : Bool)
        → RemovedOrFull alloc (cut_element T (contains_range e r) alloc t e r) (bs ++ (e ∷ after)) r
    unfolding cut_element
    cut_element-removes alloc = elim (ℕ_discrete e.lhs r.lhs) [
      | yes hl ↦ elim (ℕ_discrete e.rhs r.rhs) [
        | yes hr ↦ rw (is_whole e r v hl hr) (inl (refl, cut_whole hl hr))
        | no hr ↦ rw (is_left e r v w hl hr) (inl (refl, cut_left (omega arith) hl))
      ]
      | no hl ↦ elim (ℕ_discrete e.rhs r.rhs) [
        | yes hr ↦ rw (is_right e r v w hl hr) (inl (refl, cut_right (omega arith) hr))
        | no hr ↦ rw (is_inside e r v w hl hr) (cut_inside alloc (omega arith) (omega arith))
      ]
    ]
