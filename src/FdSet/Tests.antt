-- ===== src/FdSet/Tests.antt =====
-- Runs of the set operations over the list tree, and the theorems at concrete sets.
use libert.Base.{ℕ, ◌≡◌, refl, true, List, [], ◌∷◌, int_max, Result, ok, err, eexist, arith}
use libert.FdSet.Range.{
  FdRange, rank_lt, contains_range, left_of, right_of, left_neighbour, right_neighbour,
}
use libert.FdSet.Ops.{insert_range, remove_range, invert, visit_ranges}
use libert.FdSet.Valid.{IsValid}
use libert.FdSet.Join.{Inserted}
use libert.FdSet.Cut.{RemovedOrFull}
use libert.FdSet.Disjoint.{insert_range-disjoint, insert_range-overlap}
use libert.FdSet.Members.{remove_range-subset}
use libert.FdSet.Invert.{Complement, invert-Complement}
use libert.FdSet.Canonical.{invert-invert, remove_range-insert_range}
use libert.FdSet.ListTree.{list_tree, insert, remove, assign, nfind, first, final, prev_from, next}

abbrev range : ℕ → ℕ → FdRange
range a b = record { lhs = a; rhs = b }

-- Standard input to 3, and 10 to 12.
abbrev sample : List FdRange
sample = range 0 3 ∷ range 10 12 ∷ []

sample-IsValid : IsValid sample
sample-IsValid = omega arith

insert_joins : insert_range list_tree true sample (range 4 9) ≡ (ok tt, range 0 12 ∷ [])
unfolding insert_range insert remove assign prev_from next first left_of right_of left_neighbour
    right_neighbour rank_lt
insert_joins = refl

remove_splits :
    remove_range list_tree true sample (range 1 2)
    ≡ (ok tt, range 0 0 ∷ range 3 3 ∷ range 10 12 ∷ [])
unfolding remove_range insert remove assign prev_from next nfind final first contains_range left_of
    right_of left_neighbour right_neighbour rank_lt
remove_splits = refl

invert-sample : invert list_tree true sample ≡ (ok tt, range 4 9 ∷ range 13 int_max ∷ [])
unfolding invert insert remove assign prev_from next nfind final first rank_lt
invert-sample = refl

insert_range-disjoint_example :
    (t' : List FdRange) × (insert_range list_tree true sample (range 5 6) ≡ (ok tt, t'))
    × Inserted list_tree t' sample (range 5 6)
insert_range-disjoint_example =
    insert_range-disjoint list_tree sample (range 5 6) sample-IsValid (omega arith)
      (λ fd c. ground arith)

insert_range-overlap_example :
    (t' : List FdRange) × (insert_range list_tree true sample (range 3 6) ≡ (err eexist, t'))
    × (t' ≡ sample)
insert_range-overlap_example =
    insert_range-overlap list_tree sample (range 3 6) 3 sample-IsValid (omega arith) refl refl

remove_range-subset_example :
    RemovedOrFull list_tree true
      (remove_range list_tree true sample (range 11 11))
      sample
      (range 11 11)
remove_range-subset_example =
    remove_range-subset list_tree true sample (range 11 11) sample-IsValid (omega arith)
      (λ fd c. ground arith)

invert-Complement_example :
    (t' : List FdRange) × (invert list_tree true sample ≡ (ok tt, t'))
    × Complement list_tree t' sample
invert-Complement_example = invert-Complement list_tree sample sample-IsValid

invert-invert_example :
    (t' t'' : List FdRange) × (invert list_tree true sample ≡ (ok tt, t'))
    × (invert list_tree true t' ≡ (ok tt, t''))
    × (t'' ≡ sample)
invert-invert_example = invert-invert list_tree sample sample-IsValid

remove_range-insert_range_example :
    (t' : List FdRange) × (insert_range list_tree true sample (range 5 6) ≡ (ok tt, t'))
    × ((remove_range list_tree true t' (range 5 6)).0 ≡ ok tt)
    × ((remove_range list_tree true t' (range 5 6)).1 ≡ sample)
remove_range-insert_range_example =
    remove_range-insert_range list_tree sample (range 5 6) sample-IsValid (omega arith)
      (λ fd c. ground arith)

abbrev stop_at_ten : FdRange → Result ℕ
stop_at_ten r = ok r.lhs

visit_stops : (visit_ranges stop_at_ten (range 0 3 ∷ range 10 12 ∷ range 20 20 ∷ [])).0 ≡ ok 2
unfolding visit_ranges
visit_stops = refl
