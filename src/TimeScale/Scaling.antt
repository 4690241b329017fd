-- ===== src/TimeScale/Scaling.antt =====
-- `ert_changeTimeScale_()`: exact upwards or no result, rounded up downwards.
use native.Mathlib.Decide.{dec_lt}
use native.Mathlib.Nat.{
  div-mul-le_self, mul-div_cancel, mod-eq_of_lt, mod-lt, div-add-mod', le-div_iff_mul-le,
}
use libert.Base.{
  ℕ, ◌+◌, ◌*◌, ◌/◌, ◌%◌, ◌≤◌, ◌<◌, ◌≡◌, ◌⊎◌, inl, inr, ap, ◌==◌, u64, u64_mod, ltb, Bool-cases,
  ==→eq, ltb→lt, ltb→le, lt→ltb, le→ltb, done, abort, arith,
}
use libert.TimeScale.{scale_up, change_time_scale, truth}

-- A product that fits is not changed by the wrap-around, and divides back.
scale_up-fits : (t k : ℕ) → 0 < k → t * k < u64_mod → scale_up t k ≡ done (t * k)
unfolding scale_up
scale_up-fits t k hk h =
    let e : u64 (t * k) ≡ t * k = mod-eq_of_lt h in
    let d : (t * k) / k ≡ t = mul-div_cancel t hk in ground (arith, e, d)

-- A product that does not fit wraps to less than itself, and cannot divide back.
scale_up-overflows : (t k : ℕ) → u64_mod ≤ t * k → scale_up t k ≡ abort
unfolding scale_up
scale_up-overflows t k h = elim (Bool-cases (u64 (t * k) / k == t)) [
  | inl same ↦ absurd (
      omega (
        arith,
        div-mul-le_self (u64 (t * k)) k,
        mod-lt (t * k) {m = u64_mod} (omega arith),
        ap (λ (x : ℕ). x * k) (==→eq _ _ same),
      ))
  | inr other ↦ rw other
]

ratio_pos : (a b : ℕ) → 0 < a → a < b → 0 < b / a
ratio_pos a b ha h = (le-div_iff_mul-le {k = a} {x = 1} {y = b} ha).1 (omega arith)

-- Towards more resolution the conversion returns the exact product if it fits in 64 bits, and stops
-- the process if it does not: no wrapped time is returned.
pub change_time_scale-up :
    (t src dst : ℕ)
    → 0 < src
    → src < dst
    → ((t * (dst / src) < u64_mod) × (change_time_scale t src dst ≡ done (t * (dst / src))))
      ⊎ ((u64_mod ≤ t * (dst / src)) × (change_time_scale t src dst ≡ abort))
unfolding change_time_scale
change_time_scale-up t src dst hs h = elim (dec_lt (t * (dst / src)) u64_mod) [
  | yes fits ↦
      rw (lt→ltb _ _ h) (inl (fits, scale_up-fits t (dst / src) (ratio_pos src dst hs h) fits))
  | no over ↦ rw (lt→ltb _ _ h) (inr (omega arith, scale_up-overflows t (dst / src) (omega arith)))
]

-- Division by `k` with one added for a remainder is the least multiple of `k` not below `t`.
abbrev round_up : ℕ → ℕ → ℕ
round_up t k = t / k + truth (t % k)

round_up_bounds : (t k : ℕ) → 0 < k → (t ≤ round_up t k * k) × (round_up t k * k < t + k)
round_up_bounds t k hk = elim (Bool-cases (ltb 0 (t % k))) [
  | inl some_left ↦ rw some_left (
    grind (arith, div-add-mod' t k, mod-lt t hk, ltb→lt 0 (t % k) some_left),
    grind (arith, div-add-mod' t k, mod-lt t hk, ltb→lt 0 (t % k) some_left),
  )
  | inr none_left ↦ rw none_left (
    grind (arith, div-add-mod' t k, ltb→le 0 (t % k) none_left),
    grind (arith, div-add-mod' t k, ltb→le 0 (t % k) none_left),
  )
]

-- Towards less resolution the conversion returns the least count whose span covers the time: it
-- never shortens a timeout, and adds less than one unit.
pub change_time_scale-down :
    (t src dst : ℕ)
    → 0 < dst
    → dst < src
    → (r : ℕ) × (change_time_scale t src dst ≡ done r)
      × (t ≤ r * (src / dst))
      × (r * (src / dst) < t + src / dst)
unfolding change_time_scale
change_time_scale-down t src dst hd h =
    let k = src / dst in
    let b = round_up_bounds t k (ratio_pos dst src hd h) in
    (round_up t k, rw (le→ltb src dst (omega arith), lt→ltb _ _ h), b.0, b.1)
