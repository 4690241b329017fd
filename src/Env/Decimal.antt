-- ===== src/Env/Decimal.antt =====
-- The decimal text of a number.
use native.Mathlib.Nat.{mod-lt}
use libert.Base.{
  ℕ, zero, suc, ◌/◌, ◌%◌, ◌<◌, ◌≡◌, refl, sym, ◌∙◌, ap, List, [], ◌∷◌, All, IsDigit, show, value,
  ltb, arith, Bool-cases, ltb→lt, ltb→le, inl, inr,
}
use libert.Parse.Numbers.{IsDecimal}
use libert.Env.{print_digits, print_unsigned}

-- The digits are those of a decimal number that has the value of `n` before them.
print_digits-show :
    (fuel n : ℕ) (ds : List ℕ)
    → n < fuel
    → All IsDigit ds
    → (d : ℕ) × (es : List ℕ) × All IsDigit (d ∷ es)
      × (print_digits fuel n (show ds) ≡ show (d ∷ es))
      × (value 0 (d ∷ es) ≡ value n ds)
unfolding print_digits
print_digits-show zero n ds lt h = absurd (omega arith)
print_digits-show (suc fuel) n ds lt h = elim (Bool-cases (ltb n 10)) [
  | inl small ↦
      (n, ds, (ltb→lt n 10 small, h), rw small refl, ap (λ (k : ℕ). value k ds) (omega arith))
  | inr big ↦
      let rest =
        print_digits-show fuel (n / 10) (n % 10 ∷ ds) (omega (arith, ltb→le n 10 big))
          (mod-lt n (omega arith), h) in
      (rest.0, rest.1, rest.2, rw big rest.3, rest.4 ∙ ap (λ (k : ℕ). value k ds) (omega arith))
]

-- A printed number is the decimal form of its value.
pub print_unsigned-IsDecimal : (n : ℕ) → IsDecimal (print_unsigned n) n
unfolding print_unsigned
print_unsigned-IsDecimal n =
    let printed = print_digits-show (suc n) n [] (omega arith) tt in
    record {
      digit = printed.0;
      digits = printed.1;
      decimal = printed.2;
      shown = printed.3;
      valued = sym printed.4;
    }
