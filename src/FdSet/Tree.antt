-- ===== src/FdSet/Tree.antt =====
-- What src/fdset.c uses of the tree macros of src/ert/tree.h (a copy of the BSD sys/tree.h), as an
-- interface. An element is named by its range, which no other element of the tree has; `ranges` lists
-- the elements in the tree's order. A law is about an element at a place, `before ++ r ∷ after`, that
-- only lower elements precede.
use libert.Base.{◌≡◌, Option, none, some, List, [], ◌∷◌, ◌++◌, All}
use libert.FdSet.Range.{FdRange, ◌≺◌}

-- Not below `r` in rank.
abbrev pub ◌⪯◌ : FdRange → FdRange → Type 0
◌⪯◌ r s = ¬ (s ≺ r)

pub record RangeTree : Type 1 where
  pub Tree : Type 0
  pub ranges : Tree → List FdRange
  -- `RB_INIT`
  pub init : Tree
  -- `RB_INSERT`: none where an element of that rank stands in the tree.
  pub insert : FdRange → Tree → Option Tree
  -- `RB_REMOVE`
  pub remove : FdRange → Tree → Tree
  -- An assignment to `mRange` of an element: its range, the new range.
  pub assign : FdRange → FdRange → Tree → Tree
  -- `RB_NFIND`: the first element that is not below.
  pub nfind : FdRange → Tree → Option FdRange
  -- `RB_MIN`, `RB_MAX`, `RB_PREV` and `RB_NEXT`
  pub min : Tree → Option FdRange
  pub max : Tree → Option FdRange
  pub prev : FdRange → Tree → Option FdRange
  pub next : FdRange → Tree → Option FdRange
  pub ranges-init : ranges init ≡ []
  pub insert-absent :
      (t : Tree) (before after : List FdRange) (r : FdRange)
      → ranges t ≡ before ++ after
      → All (λ x. x ≺ r) before
      → All (λ x. r ≺ x) after
      → (t' : Tree) × (insert r t ≡ some t') × (ranges t' ≡ before ++ (r ∷ after))
  pub insert-present :
      (t : Tree) (before after : List FdRange) (r : FdRange)
      → ranges t ≡ before ++ (r ∷ after)
      → All (λ x. x ≺ r) before
      → insert r t ≡ none
  pub ranges-remove :
      (t : Tree) (before after : List FdRange) (r : FdRange)
      → ranges t ≡ before ++ (r ∷ after)
      → All (λ x. x ≺ r) before
      → ranges (remove r t) ≡ before ++ after
  pub ranges-assign :
      (t : Tree) (before after : List FdRange) (r s : FdRange)
      → ranges t ≡ before ++ (r ∷ after)
      → All (λ x. x ≺ r) before
      → ranges (assign r s t) ≡ before ++ (s ∷ after)
  pub nfind-some :
      (t : Tree) (before after : List FdRange) (r s : FdRange)
      → ranges t ≡ before ++ (s ∷ after)
      → All (λ x. x ≺ r) before
      → ◌⪯◌ r s
      → nfind r t ≡ some s
  pub nfind-none : (t : Tree) (r : FdRange) → All (λ x. x ≺ r) (ranges t) → nfind r t ≡ none
  pub min-none : (t : Tree) → ranges t ≡ [] → min t ≡ none
  pub min-some :
      (t : Tree) (after : List FdRange) (r : FdRange) → ranges t ≡ r ∷ after → min t ≡ some r
  pub max-none : (t : Tree) → ranges t ≡ [] → max t ≡ none
  pub max-some :
      (t : Tree) (before : List FdRange) (r : FdRange)
      → ranges t ≡ before ++ (r ∷ [])
      → max t ≡ some r
  pub prev-none :
      (t : Tree) (after : List FdRange) (r : FdRange) → ranges t ≡ r ∷ after → prev r t ≡ none
  pub prev-some :
      (t : Tree) (before after : List FdRange) (p r : FdRange)
      → ranges t ≡ before ++ (p ∷ r ∷ after)
      → All (λ x. x ≺ r) before
      → p ≺ r
      → prev r t ≡ some p
  pub next-none :
      (t : Tree) (before : List FdRange) (r : FdRange)
      → ranges t ≡ before ++ (r ∷ [])
      → All (λ x. x ≺ r) before
      → next r t ≡ none
  pub next-some :
      (t : Tree) (before after : List FdRange) (r n : FdRange)
      → ranges t ≡ before ++ (r ∷ n ∷ after)
      → All (λ x. x ≺ r) before
      → next r t ≡ some n
