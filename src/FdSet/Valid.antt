-- ===== src/FdSet/Valid.antt =====
-- The invariant of a set of ranges, and which descriptors it holds.
use libert.Base.{
  ℕ, ◌+◌, ◌≤◌, ◌<◌, ◌≡◌, refl, Bool, false, ◌||◌, List, [], ◌∷◌, ◌++◌, All, int_max, arith,
}
use libert.FdSet.Range.{FdRange, IsRange, covers, ◌≺◌}

-- The ranges ascend from `b` on, are disjoint, and leave a gap between any two: none can be joined.
abbrev pub Gaps : ℕ → List FdRange → Type 0
Gaps b [] = Unit
Gaps b (r ∷ rs) = (b ≤ r.lhs) × IsRange r × Gaps (r.rhs + 2) rs

abbrev pub IsValid : List FdRange → Type 0
IsValid l = Gaps 0 l

-- Whether a descriptor is in one of the ranges.
abbrev pub contains : List FdRange → ℕ → Bool
contains [] fd = false
contains (r ∷ rs) fd = covers r fd || contains rs fd

-- Where the next range can begin.
abbrev pub end : ℕ → List FdRange → ℕ
end b [] = b
end b (r ∷ rs) = end (r.rhs + 2) rs

pub Gaps-split : (b : ℕ) (xs ys : List FdRange) → Gaps b (xs ++ ys) → Gaps b xs × Gaps (end b xs) ys
Gaps-split b [] ys g = (tt, g)
Gaps-split b (x ∷ xs) ys g = let h = Gaps-split (x.rhs + 2) xs ys g.2 in ((g.0, g.1, h.0), h.1)

pub Gaps-join : (b : ℕ) (xs ys : List FdRange) → Gaps b xs → Gaps (end b xs) ys → Gaps b (xs ++ ys)
Gaps-join b [] ys g h = h
Gaps-join b (x ∷ xs) ys g h = (g.0, g.1, Gaps-join (x.rhs + 2) xs ys g.2 h)

pub Gaps-weaken : (a b : ℕ) (xs : List FdRange) → a ≤ b → Gaps b xs → Gaps a xs
Gaps-weaken a b [] h g = tt
Gaps-weaken a b (x ∷ xs) h g = (omega arith, g.1, g.2)

pub end-append : (b : ℕ) (xs ys : List FdRange) → end b (xs ++ ys) ≡ end (end b xs) ys
end-append b [] ys = refl
end-append b (x ∷ xs) ys = end-append (x.rhs + 2) xs ys

pub end-ge : (b : ℕ) (xs : List FdRange) → Gaps b xs → b ≤ end b xs
end-ge b [] g = omega arith
end-ge b (x ∷ xs) g = omega (arith, end-ge (x.rhs + 2) xs g.2, g.0, g.1.ordered)

-- What lies before the end is lower than a range that begins no lower than one below it.
pub Gaps-below :
    (b : ℕ) (xs : List FdRange) (r : FdRange)
    → Gaps b xs
    → end b xs ≤ r.lhs + 1
    → All (λ x. x ≺ r) xs
Gaps-below b [] r g h = tt
Gaps-below b (x ∷ xs) r g h =
    (ground (arith, end-ge (x.rhs + 2) xs g.2), Gaps-below (x.rhs + 2) xs r g.2 h)

pub Gaps-above :
    (b : ℕ) (xs : List FdRange) (r : FdRange) → Gaps b xs → r.lhs < b → All (λ x. r ≺ x) xs
Gaps-above b [] r g h = tt
Gaps-above b (x ∷ xs) r g h = (ground arith, Gaps-above (x.rhs + 2) xs r g.2 (ground arith))

pub contains-append :
    (xs ys : List FdRange) (fd : ℕ) → contains (xs ++ ys) fd ≡ (contains xs fd || contains ys fd)
contains-append [] ys fd = refl
contains-append (x ∷ xs) ys fd = ground (arith, contains-append xs ys fd)

pub contains-below :
    (b : ℕ) (xs : List FdRange) (fd : ℕ) → Gaps b xs → end b xs ≤ fd + 1 → contains xs fd ≡ false
contains-below b [] fd g h = refl
contains-below b (x ∷ xs) fd g h =
    ground (arith, end-ge (x.rhs + 2) xs g.2, contains-below (x.rhs + 2) xs fd g.2 h)

pub contains-above :
    (b : ℕ) (xs : List FdRange) (fd : ℕ) → Gaps b xs → fd < b → contains xs fd ≡ false
contains-above b [] fd g h = refl
contains-above b (x ∷ xs) fd g h =
    ground (arith, contains-above (x.rhs + 2) xs fd g.2 (ground arith))

-- No descriptor above `INT_MAX` is in a valid list.
pub contains-beyond :
    (b : ℕ) (l : List FdRange) (fd : ℕ) → Gaps b l → int_max < fd → contains l fd ≡ false
contains-beyond b [] fd g h = refl
contains-beyond b (x ∷ xs) fd g h =
    ground (arith, g.1.bounded, contains-beyond (x.rhs + 2) xs fd g.2 h)
