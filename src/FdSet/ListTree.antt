-- ===== src/FdSet/ListTree.antt =====
-- A tree of ranges as the sorted list of its elements: the interface can be met.
use libert.Base.{
  ◌≡◌, refl, ap, ◌∙◌, true, false, if◌then◌else◌, Option, none, some, List, [], ◌∷◌, ◌++◌, All,
  arith,
}
use libert.FdSet.Range.{FdRange, rank_lt, ◌≺◌}
use libert.FdSet.Tree.{RangeTree, ◌⪯◌}

rank_lt-true : (a b : FdRange) → a ≺ b → rank_lt a b ≡ true
unfolding rank_lt
rank_lt-true a b h = ground arith

rank_lt-false : (a b : FdRange) → ¬ (a ≺ b) → rank_lt a b ≡ false
unfolding rank_lt
rank_lt-false a b h = ground arith

rank_lt_self : (a : FdRange) → rank_lt a a ≡ false
unfolding rank_lt
rank_lt_self a = ground arith

rank_lt-asym : (a b : FdRange) → a ≺ b → rank_lt b a ≡ false
unfolding rank_lt
rank_lt-asym a b h = ground arith

unfoldable pub insert : FdRange → List FdRange → Option (List FdRange)
unfolding rank_lt
insert r [] = some (r ∷ [])
insert r (x ∷ xs) =
    let rest = elim (insert r xs) as (λ _. Option (List FdRange)) [
      | none ↦ none
      | some l ↦ some (x ∷ l)
    ] in
    if rank_lt r x then some (r ∷ x ∷ xs) else if rank_lt x r then rest else none

unfoldable pub remove : FdRange → List FdRange → List FdRange
remove r [] = []
remove r (x ∷ xs) = if rank_lt x r then x ∷ remove r xs else xs

unfoldable pub assign : FdRange → FdRange → List FdRange → List FdRange
assign r s [] = []
assign r s (x ∷ xs) = if rank_lt x r then x ∷ assign r s xs else s ∷ xs

unfoldable pub nfind : FdRange → List FdRange → Option FdRange
nfind r [] = none
nfind r (x ∷ xs) = if rank_lt x r then nfind r xs else some x

unfoldable pub first : List FdRange → Option FdRange
first [] = none
first (x ∷ xs) = some x

unfoldable pub final : List FdRange → Option FdRange
final [] = none
final (x ∷ []) = some x
final (x ∷ y ∷ ys) = final (y ∷ ys)

unfoldable pub prev_from : Option FdRange → FdRange → List FdRange → Option FdRange
prev_from p r [] = none
prev_from p r (x ∷ xs) = if rank_lt x r then prev_from (some x) r xs else p

unfoldable pub next : FdRange → List FdRange → Option FdRange
unfolding first
next r [] = none
next r (x ∷ xs) = if rank_lt x r then next r xs else first xs

module _ (r : FdRange) where
  pub insert-absent :
      (bs as' : List FdRange)
      → All (λ x. x ≺ r) bs
      → All (λ x. r ≺ x) as'
      → insert r (bs ++ as') ≡ some (bs ++ (r ∷ as'))
  unfolding insert
  insert-absent [] [] lo hi = refl
  insert-absent [] (x ∷ xs) lo hi = rw (rank_lt-true r x hi.0)
  insert-absent (b ∷ bs) as' lo hi =
      rw (rank_lt-asym b r lo.0, rank_lt-true b r lo.0, insert-absent bs as' lo.1 hi)

  pub insert-present :
      (bs as' : List FdRange) → All (λ x. x ≺ r) bs → insert r (bs ++ (r ∷ as')) ≡ none
  unfolding insert
  insert-present [] as' lo = rw (rank_lt_self r)
  insert-present (b ∷ bs) as' lo =
      rw (rank_lt-asym b r lo.0, rank_lt-true b r lo.0, insert-present bs as' lo.1)

  pub remove_at :
      (bs as' : List FdRange) → All (λ x. x ≺ r) bs → remove r (bs ++ (r ∷ as')) ≡ bs ++ as'
  unfolding remove
  remove_at [] as' lo = rw (rank_lt_self r)
  remove_at (b ∷ bs) as' lo = rw (rank_lt-true b r lo.0) (ap (λ l. b ∷ l) (remove_at bs as' lo.1))

  pub assign_at :
      (s : FdRange) (bs as' : List FdRange)
      → All (λ x. x ≺ r) bs
      → assign r s (bs ++ (r ∷ as')) ≡ bs ++ (s ∷ as')
  unfolding assign
  assign_at s [] as' lo = rw (rank_lt_self r)
  assign_at s (b ∷ bs) as' lo =
      rw (rank_lt-true b r lo.0) (ap (λ l. b ∷ l) (assign_at s bs as' lo.1))

  pub nfind-some :
      (s : FdRange) (bs as' : List FdRange)
      → All (λ x. x ≺ r) bs
      → ◌⪯◌ r s
      → nfind r (bs ++ (s ∷ as')) ≡ some s
  unfolding nfind
  nfind-some s [] as' lo h = rw (rank_lt-false s r h)
  nfind-some s (b ∷ bs) as' lo h = rw (rank_lt-true b r lo.0) (nfind-some s bs as' lo.1 h)

  pub nfind-none : (l : List FdRange) → All (λ x. x ≺ r) l → nfind r l ≡ none
  unfolding nfind
  nfind-none [] lo = refl
  nfind-none (x ∷ xs) lo = rw (rank_lt-true x r lo.0) (nfind-none xs lo.1)

  pub final_at : (bs : List FdRange) → final (bs ++ (r ∷ [])) ≡ some r
  unfolding final
  final_at [] = refl
  final_at (b ∷ []) = refl
  final_at (b ∷ c ∷ bs) = final_at (c ∷ bs)

  pub prev_at :
      (q : Option FdRange) (p : FdRange) (bs as' : List FdRange)
      → All (λ x. x ≺ r) bs
      → p ≺ r
      → prev_from q r (bs ++ (p ∷ r ∷ as')) ≡ some p
  unfolding prev_from
  prev_at q p [] as' lo h = rw (rank_lt-true p r h, rank_lt_self r)
  prev_at q p (b ∷ bs) as' lo h = rw (rank_lt-true b r lo.0) (prev_at (some b) p bs as' lo.1 h)

  pub next_at : (bs as' : List FdRange) → All (λ x. x ≺ r) bs → next r (bs ++ (r ∷ as')) ≡ first as'
  unfolding next
  next_at [] as' lo = rw (rank_lt_self r)
  next_at (b ∷ bs) as' lo = rw (rank_lt-true b r lo.0) (next_at bs as' lo.1)

  pub prev_first : (as' : List FdRange) → prev_from none r (r ∷ as') ≡ none
  unfolding prev_from
  prev_first as' = rw (rank_lt_self r)

pub final-none : final [] ≡ none
unfolding final
final-none = refl

pub first_none : first [] ≡ none
unfolding first
first_none = refl

pub first_some : (x : FdRange) (xs : List FdRange) → first (x ∷ xs) ≡ some x
unfolding first
first_some x xs = refl

abbrev pub list_tree : RangeTree
list_tree = record {
  Tree = List FdRange;
  ranges = λ t. t;
  init = [];
  insert = insert;
  remove = remove;
  assign = assign;
  nfind = nfind;
  min = first;
  max = final;
  prev = prev_from none;
  next = next;
  ranges-init = refl;
  insert-absent =
      λ t bs as' r e lo hi. (bs ++ (r ∷ as'), ap (insert r) e ∙ insert-absent r bs as' lo hi, refl);
  insert-present = λ t bs as' r e lo. ap (insert r) e ∙ insert-present r bs as' lo;
  ranges-remove = λ t bs as' r e lo. ap (remove r) e ∙ remove_at r bs as' lo;
  ranges-assign = λ t bs as' r s e lo. ap (assign r s) e ∙ assign_at r s bs as' lo;
  nfind-some = λ t bs as' r s e lo h. ap (nfind r) e ∙ nfind-some r s bs as' lo h;
  nfind-none = λ t r lo. nfind-none r t lo;
  min-none = λ t e. ap first e ∙ first_none;
  min-some = λ t as' r e. ap first e ∙ first_some r as';
  max-none = λ t e. ap final e ∙ final-none;
  max-some = λ t bs r e. ap final e ∙ final_at r bs;
  prev-none = λ t as' r e. ap (prev_from none r) e ∙ prev_first r as';
  prev-some = λ t bs as' p r e lo h. ap (prev_from none r) e ∙ prev_at r none p bs as' lo h;
  next-none = λ t bs r e lo. ap (next r) e ∙ next_at r bs [] lo ∙ first_none;
  next-some = λ t bs as' r n e lo. ap (next r) e ∙ next_at r bs (n ∷ as') lo ∙ first_some n as';
}
