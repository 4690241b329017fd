-- ===== src/FdSet/Visit.antt =====
-- `ert_visitFdSet()`: which ranges are visited, and the count returned.
use libert.Base.{
  ℕ, zero, suc, ◌≡◌, refl, ap, List, [], ◌∷◌, ◌++◌, length, Result, ok, err, arith, lt→ltb,
}
use libert.FdSet.Range.{FdRange}
use libert.FdSet.Ops.{count_visit, visit_step, visit_ranges}

-- The ranges at whose visit the visitor let the next one follow.
abbrev Continues : (FdRange → Result ℕ) → List FdRange → Type 0
Continues visitor [] = Unit
Continues visitor (r ∷ []) = Unit
Continues visitor (r ∷ s ∷ rs) = (visitor r ≡ ok 0) × Continues visitor (s ∷ rs)

-- A visit calls the visitor for the ranges of a beginning of the list, in order; one that returns
-- counts them, and all but the last of them returned 0. One that fails has the errno of the last.
pub record Visited (visitor : FdRange → Result ℕ) (l : List FdRange) (out : Result ℕ × List FdRange)
    : Type 0 where
  pub rest : List FdRange
  pub beginning : out.1 ++ rest ≡ l
  pub continues : Continues visitor out.1
  pub counted : {n : ℕ} → out.0 ≡ ok n → n ≡ length out.1

Continues-cons :
    (visitor : FdRange → Result ℕ) (r : FdRange) (l : List FdRange)
    → visitor r ≡ ok 0
    → Continues visitor l
    → Continues visitor (r ∷ l)
Continues-cons visitor r [] e c = tt
Continues-cons visitor r (s ∷ l) e c = (e, c)

count_visit-ok :
    (o : Result ℕ) {n m : ℕ} → ((k : ℕ) → o ≡ ok k → k ≡ m) → count_visit o ≡ ok n → n ≡ suc m
unfolding count_visit
count_visit-ok (ok k) {n} {m} h e = ground (arith, h k refl)
count_visit-ok (err x) h e = cc

visit_step-Visited :
    (visitor : FdRange → Result ℕ) (r : FdRange) (rs : List FdRange) {out : Result ℕ × List FdRange}
    (o : Result ℕ)
    → visitor r ≡ o
    → Visited visitor rs out
    → Visited visitor (r ∷ rs) (visit_step o r out)
unfolding visit_step
visit_step-Visited visitor r rs (err x) e v = record {
  rest = rs;
  beginning = refl;
  continues = tt;
  counted = λ {n} h. cc;
}
visit_step-Visited visitor r rs {out} (ok zero) e v = record {
  rest = v.rest;
  beginning = ap (λ l. r ∷ l) v.beginning;
  continues = Continues-cons visitor r out.1 e v.continues;
  counted = λ {n} h. count_visit-ok out.0 (λ k e'. v.counted e') h;
}
visit_step-Visited visitor r rs (ok (suc n)) e v =
    rw (lt→ltb 0 (suc n) (omega arith))
      (record { rest = rs; beginning = refl; continues = tt; counted = λ {n} h. ground arith })

-- However the visitor answers, a visit calls it for a beginning of the ranges, in order; all but the last
-- of those calls returned 0, and a count that is returned is the number of them.
pub visit_ranges-Visited :
    (visitor : FdRange → Result ℕ) (l : List FdRange) → Visited visitor l (visit_ranges visitor l)
unfolding visit_ranges
visit_ranges-Visited visitor [] = record {
  rest = [];
  beginning = refl;
  continues = tt;
  counted = λ {n} e. ground arith;
}
visit_ranges-Visited visitor (r ∷ rs) =
    visit_step-Visited visitor r rs (visitor r) refl (visit_ranges-Visited visitor rs)
