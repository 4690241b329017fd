-- ===== src/FdSet/Ops.antt =====
-- The operations of src/fdset.c over a tree.
use libert.Base.{
  ℕ, zero, suc, ◌+◌, ◌-◌, Bool, true, false, ◌&&◌, Option, none, some, List, [], ◌∷◌, length, ◌==◌,
  nonzero, if◌then◌else◌, int_max, Result, ok, err, enoent, enomem, eexist,
}
use libert.FdSet.Range.{
  FdRange, Contained, outside, at_left, at_right, whole, inside, contains_range, left_of, right_of,
  left_neighbour, right_neighbour,
}
use libert.FdSet.Tree.{RangeTree}

-- A status, and the tree left.
abbrev pub Status : Type 0
Status = Result (Unit {0})

-- The checks against a neighbour that need not be there.
abbrev pub clear_of_prev : FdRange → Option FdRange → Bool
clear_of_prev elem none = true
clear_of_prev elem (some p) = left_of elem p

abbrev pub clear_of_next : FdRange → Option FdRange → Bool
clear_of_next elem none = true
clear_of_next elem (some n) = right_of elem n

module _ (T : RangeTree) where
  open T use {Tree, ranges, init, insert, remove, assign, nfind, min, max, prev, next}

  -- The new element is joined to its left neighbour: the tree and the element that stands for both.
  unfoldable pub join_prev : Tree → FdRange → Option FdRange → Tree × FdRange
  join_prev t elem none = (t, elem)
  join_prev t elem (some p) =
      let joined : FdRange = record { lhs = p.lhs; rhs = elem.rhs } in
      if left_neighbour elem p then (assign p joined (remove elem t), joined) else (t, elem)

  unfoldable pub join_next : Tree → FdRange → Option FdRange → Tree
  join_next t elem none = t
  join_next t elem (some n) =
      if right_neighbour elem n
      then assign n (record { lhs = elem.lhs; rhs = n.rhs }) (remove elem t)
      else t

  unfoldable pub settle : Tree → FdRange → Option FdRange → Option FdRange → Status × Tree
  unfolding join_prev join_next
  settle t elem p n =
      if clear_of_prev elem p && clear_of_next elem n
      then (ok tt, (let (t', elem') = join_prev t elem p in join_next t' elem' n))
      else (err eexist, remove elem t)

  -- `ert_insertFdSetRange()`
  unfoldable pub insert_range : Bool → Tree → FdRange → Status × Tree
  unfolding settle
  insert_range false t range = (err enomem, t)
  insert_range true t range = elim (insert range t) [
    | none ↦ (err eexist, t)
    | some t' ↦ settle t' range (prev range t') (next range t')
  ]

  -- The middle of a range is taken out: its left part stays in the element, its right part is a new
  -- element. The element is put back as it was if there is none.
  unfoldable pub put_back : FdRange → FdRange → Status × Tree → Status × Tree
  put_back lh_side elem (ok _, t) = (ok tt, t)
  put_back lh_side elem (err e, t) = (err e, assign lh_side elem t)

  unfoldable pub split_element : Bool → Tree → FdRange → FdRange → Status × Tree
  unfolding insert_range put_back
  split_element alloc t elem range =
      let lh_side : FdRange = record { lhs = elem.lhs; rhs = range.lhs - 1 } in
      let rh_side : FdRange = record { lhs = range.rhs + 1; rhs = elem.rhs } in
      put_back lh_side elem (insert_range alloc (assign elem lh_side t) rh_side)

  -- The `switch` of `ert_removeFdSetRange()`, on an element that contains the range.
  unfoldable pub cut_element : Contained → Bool → Tree → FdRange → FdRange → Status × Tree
  unfolding split_element
  cut_element outside alloc t elem range = (err enoent, t)
  cut_element at_left alloc t elem range =
      (ok tt, assign elem (record { lhs = range.rhs + 1; rhs = elem.rhs }) t)
  cut_element at_right alloc t elem range =
      (ok tt, assign elem (record { lhs = elem.lhs; rhs = range.lhs - 1 }) t)
  cut_element whole alloc t elem range = (ok tt, remove elem t)
  cut_element inside alloc t elem range = split_element alloc t elem range

  -- The element found does not contain the range: the one before it is tried.
  unfoldable pub cut_prev : Option FdRange → Bool → Tree → FdRange → Status × Tree
  unfolding cut_element
  cut_prev none alloc t range = (err enoent, t)
  cut_prev (some p) alloc t range = cut_element (contains_range p range) alloc t p range

  unfoldable pub cut_found : Contained → Bool → Tree → FdRange → FdRange → Status × Tree
  unfolding cut_prev cut_element
  cut_found outside alloc t elem range = cut_prev (prev elem t) alloc t range
  cut_found c alloc t elem range = cut_element c alloc t elem range

  unfoldable pub cut_first : Option FdRange → Option FdRange → Bool → Tree → FdRange → Status × Tree
  unfolding cut_found
  cut_first (some elem) last alloc t range =
      cut_found (contains_range elem range) alloc t elem range
  cut_first none (some elem) alloc t range =
      cut_found (contains_range elem range) alloc t elem range
  cut_first none none alloc t range = (err enoent, t)

  -- `ert_removeFdSetRange()`: an empty tree has no last element.
  unfoldable pub remove_range : Bool → Tree → FdRange → Status × Tree
  unfolding cut_first
  remove_range alloc t range = cut_first (nfind range t) (max t) alloc t range

  -- `ert_insertFdSet()`, `ert_removeFdSet()`, and the same with the descriptor of a file.
  unfoldable pub insert_fd : Bool → Tree → ℕ → Status × Tree
  insert_fd alloc t fd = insert_range alloc t (record { lhs = fd; rhs = fd })

  unfoldable pub remove_fd : Bool → Tree → ℕ → Status × Tree
  remove_fd alloc t fd = remove_range alloc t (record { lhs = fd; rhs = fd })

  -- `ert_clearFdSet()` frees every element, and starts with an empty tree again.
  unfoldable pub clear : Tree → Tree
  clear t = init

  -- The loop of `ert_invertFdSet()` from the last range downwards: each becomes the gap below it, and
  -- a range that begins at 0 goes. The fuel is the number of elements.
  unfoldable pub invert_down : ℕ → Tree → Option FdRange → Tree
  invert_down zero t next = t
  invert_down (suc fuel) t none = t
  invert_down (suc fuel) t (some r) = elim (nonzero r.lhs) [
    | false ↦ remove r t
    | true ↦ elim (prev r t) [
      | none ↦ assign r (record { lhs = 0; rhs = r.lhs - 1 }) t
      | some p ↦
          invert_down fuel (assign r (record { lhs = p.rhs + 1; rhs = r.lhs - 1 }) t) (some p)
    ]
  ]

  -- The loop from the first range upwards: each becomes the gap above it.
  unfoldable pub invert_up : ℕ → Tree → Option FdRange → Tree
  invert_up zero t prev = t
  invert_up (suc fuel) t none = t
  invert_up (suc fuel) t (some r) = elim (next r t) [
    | none ↦ assign r (record { lhs = r.rhs + 1; rhs = int_max }) t
    | some n ↦ invert_up fuel (assign r (record { lhs = r.rhs + 1; rhs = n.lhs - 1 }) t) (some n)
  ]

  -- The gap below the first range is a new element.
  unfoldable pub invert_from : Bool → Tree → Option FdRange → Status × Tree
  unfolding invert_up
  invert_from alloc t none = (ok tt, t)
  invert_from alloc t (some r) =
      if nonzero r.lhs
      then if alloc
        then elim (insert (record { lhs = 0; rhs = r.lhs - 1 }) t) [
          | none ↦ (err eexist, t)
          | some t' ↦ (ok tt, invert_up (length (ranges t)) t' (some r))
        ]
        else (err enomem, t)
      else (ok tt, invert_up (length (ranges t)) t (some r))

  unfoldable pub invert_last : Bool → Tree → Option FdRange → Status × Tree
  unfolding insert_range invert_down invert_from
  invert_last alloc t none = insert_range alloc t (record { lhs = 0; rhs = int_max })
  invert_last alloc t (some last) =
      if int_max == last.rhs
      then (ok tt, invert_down (length (ranges t)) t (some last))
      else invert_from alloc t (min t)

  -- `ert_invertFdSet()`: an empty tree has no last element.
  unfoldable pub invert : Bool → Tree → Status × Tree
  unfolding invert_last
  invert alloc t = invert_last alloc t (max t)

  -- `ert_fillFdSet()`
  unfoldable pub fill : Bool → Tree → Status × Tree
  unfolding clear invert
  fill alloc t = invert alloc (clear t)

unfoldable pub count_visit : Result ℕ → Result ℕ
count_visit (ok k) = ok (k + 1)
count_visit (err e) = err e

unfoldable pub visit_step : Result ℕ → FdRange → Result ℕ × List FdRange → Result ℕ × List FdRange
unfolding count_visit
visit_step (err e) r rest = (err e, r ∷ [])
visit_step (ok n) r rest = if nonzero n then (ok 1, r ∷ []) else (count_visit rest.0, r ∷ rest.1)

-- `ert_visitFdSet()`: the visitor is called for each range in order, and returns the errno of a -1,
-- or a number, which ends the visit unless it is 0. The ranges visited are listed.
unfoldable pub visit_ranges : (FdRange → Result ℕ) → List FdRange → Result ℕ × List FdRange
unfolding visit_step
visit_ranges visitor [] = (ok 0, [])
visit_ranges visitor (r ∷ rs) = visit_step (visitor r) r (visit_ranges visitor rs)
