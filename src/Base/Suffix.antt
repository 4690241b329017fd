-- ===== src/Base/Suffix.antt =====
-- A list read from an index on, for loops that write to it as they go.
use Prim.Native.Nat.{ℕ, zero, suc, ◌+◌}
use mathlib.Core.Path.{◌≡◌, refl, ap, ◌∙◌}
use mathlib.Core.List.{List, [], ◌∷◌}
use mathlib.Core.Option.{some}
use native.Mathlib.Omega.{arith}
use libert.Base.Lists.{get_elem?, set}

-- A list from an index on.
abbrev pub From {ℓ} : {A : Type ℓ} → List A → ℕ → List A → Type ℓ
From xs ix rest = (i : ℕ) → get_elem? xs (ix + i) ≡ get_elem? rest i

suc_add : (ix i : ℕ) → suc ix + i ≡ suc (ix + i)
suc_add ix i = omega arith

get_elem?-set {ℓ} :
    {A : Type ℓ} (xs : List A) (ix i : ℕ) (v : A)
    → get_elem? (set xs ix v) (suc (ix + i)) ≡ get_elem? xs (suc (ix + i))
get_elem?-set [] ix i v = refl
get_elem?-set (x ∷ xs) zero i v = refl
get_elem?-set (x ∷ xs) (suc ix) i v = rw (suc_add ix i) (get_elem?-set xs ix i v)

pub From-head {ℓ} :
    {A : Type ℓ} (xs : List A) (ix : ℕ) (x : A) (rest : List A)
    → From xs ix (x ∷ rest)
    → get_elem? xs ix ≡ some x
From-head xs ix x rest h = ap (get_elem? xs) (omega arith) ∙ h 0

pub From-next {ℓ} :
    {A : Type ℓ} (xs : List A) (ix : ℕ) (x : A) (rest : List A)
    → From xs ix (x ∷ rest)
    → From xs (suc ix) rest
From-next xs ix x rest h i = ap (get_elem? xs) (omega arith) ∙ h (suc i)

pub From-set {ℓ} :
    {A : Type ℓ} (xs : List A) (ix : ℕ) (x v : A) (rest : List A)
    → From xs ix (x ∷ rest)
    → From (set xs ix v) (suc ix) rest
From-set xs ix x v rest h i =
    rw (suc_add ix i) (get_elem?-set xs ix i v) ∙ From-next xs ix x rest h i

pub From-start {ℓ} : {A : Type ℓ} (xs : List A) → From xs 0 xs
From-start xs i = ap (get_elem? xs) (omega arith)
