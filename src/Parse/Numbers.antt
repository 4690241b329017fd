-- ===== src/Parse/Numbers.antt =====
-- Which texts the number parsers of src/parse.c accept, and with what value.
use libert.Base.{
  ℕ, ◌+◌, ◌-◌, ◌*◌, ◌^◌, ◌<◌, ◌≡◌, ◌↔◌, inl, inr, Bool, true, some, List, [], ◌∷◌, All, u64_mod, ok,
  IsDigit, show, value, arith, refl, ap₂, Result-cases, Bool-cases,
}
use libert.Parse.{
  Text, accept_unsigned, is_digit, starts_with_digit, read_digits, parse_unsigned_long_long,
  parse_uint,
}

-- A text of decimal digits, at least one, with its value.
pub record IsDecimal (text : Text) (n : ℕ) : Type 0 where
  pub digit : ℕ
  pub digits : List ℕ
  pub decimal : All IsDigit (digit ∷ digits)
  pub shown : text ≡ show (digit ∷ digits)
  pub valued : n ≡ value 0 (digit ∷ digits)

read_digits-show :
    (acc : ℕ) (ds : List ℕ) → All IsDigit ds → read_digits acc (show ds) ≡ (value acc ds, [])
read_digits-show acc [] h = refl
read_digits-show acc (d ∷ ds) h = ground (arith, read_digits-show (acc * 10 + d) ds h.1, h.0)

-- A text that the digits reach the end of is one of digits.
read_digits-digits :
    (acc : ℕ) (text : Text) {n : ℕ}
    → read_digits acc text ≡ (n, [])
    → (ds : List ℕ) × All IsDigit ds × (text ≡ show ds) × (n ≡ value acc ds)
read_digits-digits acc [] e = ([], tt, refl, cc)
read_digits-digits acc (c ∷ cs) {n} e = elim (Bool-cases (is_digit c)) [
  | inl digit ↦
      let (ds, h, shown, valued) =
        read_digits-digits (acc * 10 + (c - b'0')) cs {n = n} (ground (arith, e, digit)) in
      (
        (c - b'0') ∷ ds,
        (ground (arith, digit), h),
        ap₂ (λ (x : ℕ) (xs : Text). x ∷ xs) (ground (arith, digit)) shown,
        valued,
      )
  | inr other ↦ absurd (ground (arith, e, other))
]

-- The checks of the unsigned numbers.
accept_unsigned-ok :
    (starts : Bool) (n : ℕ) (rest : Text) {v : ℕ}
    → accept_unsigned starts (n, rest) ≡ ok v
    → (starts ≡ true) × (rest ≡ []) × (n ≡ v) × (v < u64_mod)
unfolding accept_unsigned
accept_unsigned-ok starts n [] e = ground arith
accept_unsigned-ok starts n (c ∷ cs) e = ground arith

accept_unsigned-fits : (v : ℕ) → v < u64_mod → accept_unsigned true (v, []) ≡ ok v
unfolding accept_unsigned
accept_unsigned-fits v h = ground arith

-- Of a text that starts with a digit, and that the digits reach the end of.
pub to_decimal :
    (text : Text) {n : ℕ}
    → starts_with_digit text ≡ true
    → read_digits 0 text ≡ (n, [])
    → IsDecimal text n
to_decimal text {n} starts whole = by_digits (read_digits-digits 0 text {n = n} whole)
  where
    by_digits :
        (ds : List ℕ) × All IsDigit ds × (text ≡ show ds) × (n ≡ value 0 ds) → IsDecimal text n
    by_digits ([], _, shown, _) = absurd (ground (arith, shown, starts))
    by_digits (d ∷ ds, h, shown, valued) = record {
      digit = d;
      digits = ds;
      decimal = h;
      shown = shown;
      valued = valued;
    }

-- `strtoull()` and its checks take exactly the decimal numbers of 64 bits.
unsigned→IsDecimal :
    (text : Text) {v : ℕ} → parse_unsigned_long_long text ≡ ok v → IsDecimal text v × (v < u64_mod)
unfolding parse_unsigned_long_long
unsigned→IsDecimal text {v} e =
    let (starts, reached, same_value, fits) =
      accept_unsigned-ok (starts_with_digit text) (read_digits 0 text).0 (read_digits 0 text).1
        {v = v} e in
    (to_decimal text starts (ap₂ (λ (n : ℕ) (t : Text). (n, t)) same_value reached), fits)

pub read_decimal : (text : Text) (n : ℕ) → IsDecimal text n → read_digits 0 text ≡ (n, [])
read_decimal text n d =
    rw (d.shown, d.valued, read_digits-show 0 (d.digit ∷ d.digits) d.decimal) refl

pub starts_decimal : (text : Text) (n : ℕ) → IsDecimal text n → starts_with_digit text ≡ true
starts_decimal text n d = rw d.shown (ground (arith, d.decimal.0))

IsDecimal→unsigned :
    (text : Text) (v : ℕ) → IsDecimal text v → v < u64_mod → parse_unsigned_long_long text ≡ ok v
unfolding parse_unsigned_long_long
IsDecimal→unsigned text v d h =
    rw (read_decimal text v d, starts_decimal text v d) (accept_unsigned-fits v h)

-- `ert_parseUInt()` succeeds with a value exactly if the text is its decimal form, nothing before or
-- after it, and the value fits in 32 bits.
pub parse_uint-IsDecimal :
    (text : Text) (v : ℕ)
    → (parse_uint text ≡ record { status = ok tt; stored = some v })
      ↔ (IsDecimal text v × (v < 2 ^ 32))
unfolding parse_uint
parse_uint-IsDecimal text v = (forth, back)
  where
    forth :
        parse_uint text ≡ record { status = ok tt; stored = some v }
        → IsDecimal text v × (v < 2 ^ 32)
    forth e = elim (Result-cases (parse_unsigned_long_long text)) [
      | inl (n, read) ↦ ground (arith, e, read, unsigned→IsDecimal text read)
      | inr (x, failed) ↦ absurd (ground (arith, e, failed))
    ]

    back :
        IsDecimal text v × (v < 2 ^ 32)
        → parse_uint text ≡ record { status = ok tt; stored = some v }
    back (d, h) = ground (arith, IsDecimal→unsigned text v d (omega arith))
