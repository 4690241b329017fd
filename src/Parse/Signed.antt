-- ===== src/Parse/Signed.antt =====
-- Which texts `ert_parseInt()` accepts, and with what value.
use libert.Base.{
  ℕ, zero, suc, ◌^◌, ◌<◌, ◌≡◌, ◌↔◌, inl, inr, Bool, true, false, some, [], ◌∷◌, ok, arith, refl,
  subst, Result-cases, sym, ap, ◌∙◌, Bool-cases, ◌==◌, ap₂,
}
use libert.Parse.{
  Text, ℤ, pos, negsuc, accept_signed, starts_with_digit, read_digits, parse_long_long, read_signed,
  parse_int, to_int, same,
}
use libert.Parse.Numbers.{IsDecimal, to_decimal, read_decimal, starts_decimal}

-- The values of an `int`, and of a `long long`.
abbrev pub IsBelow : ℕ → ℤ → Type 0
IsBelow b (pos n) = n < b
IsBelow b (negsuc n) = n < b

abbrev pub magnitude : Bool → ℕ → ℤ
magnitude true zero = pos 0
magnitude true (suc n) = negsuc n
magnitude false n = pos n

-- A decimal text without a sign or with one, and its value.
pub data IsSigned (text : Text) (v : ℤ) : Type 0 where
  plain : (n : ℕ) → IsDecimal text n → v ≡ pos n → IsSigned text v
  plus : (t : Text) (n : ℕ) → text ≡ b'+' ∷ t → IsDecimal t n → v ≡ pos n → IsSigned text v
  negative :
      (t : Text) (n : ℕ) → text ≡ b'-' ∷ t → IsDecimal t n → v ≡ magnitude true n → IsSigned text v

-- The checks accept the number read, or one at the end of the range, which is no `int`.
accept_signed-ok :
    (minus starts : Bool) (n : ℕ) (rest : Text) {v : ℤ}
    → accept_signed minus starts (n, rest) ≡ ok v
    → IsBelow (2 ^ 31) v
    → (starts ≡ true) × (rest ≡ []) × (v ≡ magnitude minus n)
unfolding accept_signed
accept_signed-ok true starts zero [] {v} e h = ground arith
accept_signed-ok true starts (suc n) [] {v} e h = ground arith
accept_signed-ok false starts n [] {v} e h = ground arith
accept_signed-ok true starts zero (c ∷ cs) {v} e h = ground arith
accept_signed-ok true starts (suc n) (c ∷ cs) {v} e h = ground arith
accept_signed-ok false starts n (c ∷ cs) {v} e h = ground arith

accept_signed-fits :
    (minus : Bool) (n : ℕ) → n < 2 ^ 63 → accept_signed minus true (n, []) ≡ ok (magnitude minus n)
unfolding accept_signed
accept_signed-fits true zero h = refl
accept_signed-fits true (suc n) h = ground arith
accept_signed-fits false n h = ground arith

read_signed-IsDecimal :
    (minus : Bool) (text : Text) {v : ℤ}
    → read_signed minus text ≡ ok v
    → IsBelow (2 ^ 31) v
    → (n : ℕ) × IsDecimal text n × (v ≡ magnitude minus n)
unfolding read_signed
read_signed-IsDecimal minus text {v} e h =
    let (starts, reached, read) =
      accept_signed-ok minus (starts_with_digit text) (read_digits 0 text).0 (read_digits 0 text).1
        {v = v} e h in
    (
      (read_digits 0 text).0,
      to_decimal text starts (ap₂ (λ (n : ℕ) (t : Text). (n, t)) refl reached),
      read,
    )

IsDecimal→signed :
    (minus : Bool) (text : Text) (n : ℕ)
    → IsDecimal text n
    → n < 2 ^ 63
    → read_signed minus text ≡ ok (magnitude minus n)
unfolding read_signed
IsDecimal→signed minus text n d h =
    rw (read_decimal text n d, starts_decimal text n d) (accept_signed-fits minus n h)

long_long→IsSigned :
    (text : Text) {v : ℤ} → parse_long_long text ≡ ok v → IsBelow (2 ^ 31) v → IsSigned text v
unfolding parse_long_long
long_long→IsSigned [] e h = cc
long_long→IsSigned (c ∷ cs) {v} e h = elim (Bool-cases (c == b'-')) [
  | inl dash ↦
      let (n, d, read) = read_signed-IsDecimal true cs {v = v} (ground (arith, e, dash)) h in
      negative cs n (ground (arith, dash)) d read
  | inr other ↦ elim (Bool-cases (c == b'+')) [
    | inl cross ↦
        let (n, d, read) =
          read_signed-IsDecimal false cs {v = v} (ground (arith, e, other, cross)) h in
        plus cs n (ground (arith, cross)) d read
    | inr bare ↦
        let (n, d, read) =
          read_signed-IsDecimal false (c ∷ cs) {v = v} (ground (arith, e, other, bare)) h in
        plain n d read
  ]
]

bare_sign :
    (text : Text) (n : ℕ) → IsDecimal text n → n < 2 ^ 63 → parse_long_long text ≡ ok (pos n)
unfolding parse_long_long
bare_sign [] n d h = absurd (ground (arith, starts_decimal [] n d))
bare_sign (c ∷ cs) n d h =
    ground (arith, starts_decimal (c ∷ cs) n d, IsDecimal→signed false (c ∷ cs) n d h)

IsSigned→long_long :
    (text : Text) (v : ℤ) → IsSigned text v → IsBelow (2 ^ 31) v → parse_long_long text ≡ ok v
unfolding parse_long_long
IsSigned→long_long text v (plain n d e) h =
    bare_sign text n d (ground (arith, e, h)) ∙ ap (λ (z : ℤ). ok z) (sym e)
IsSigned→long_long text v (plus t n shown d e) h =
    rw (shown, IsDecimal→signed false t n d (ground (arith, e, h)), e) refl
IsSigned→long_long text v (negative t zero shown d e) h =
    rw (shown, IsDecimal→signed true t 0 d (omega arith), e) refl
IsSigned→long_long text v (negative t (suc n) shown d e) h =
    rw (shown, IsDecimal→signed true t (suc n) d (ground (arith, e, h)), e) refl

-- A number is kept by the store in an `int` exactly if it is one.
same-to_int : (v : ℤ) → (same (to_int v) v ≡ true) ↔ IsBelow (2 ^ 31) v
same-to_int (pos n) = (λ e. ground (arith, e), λ h. ground (arith, h))
same-to_int (negsuc n) = (λ e. ground (arith, e), λ h. ground (arith, h))

same-eq : (v w : ℤ) → same v w ≡ true → v ≡ w
same-eq (pos m) (pos n) e = ground (arith, e)
same-eq (negsuc m) (negsuc n) e = ground (arith, e)
same-eq (pos m) (negsuc n) e = cc
same-eq (negsuc m) (pos n) e = cc

-- `ert_parseInt()` succeeds with a value exactly if the text is a decimal number, with a sign or
-- without one and nothing before or after it, and the value is an `int`.
pub parse_int-IsSigned :
    (text : Text) (v : ℤ)
    → (parse_int text ≡ record { status = ok tt; stored = some v })
      ↔ (IsSigned text v × IsBelow (2 ^ 31) v)
unfolding parse_int
parse_int-IsSigned text v = (forth, back)
  where
    forth :
        parse_int text ≡ record { status = ok tt; stored = some v }
        → IsSigned text v × IsBelow (2 ^ 31) v
    forth e = elim (Result-cases (parse_long_long text)) [
      | inl (z, read) ↦
          let kept : same (to_int z) z ≡ true = ground (arith, e, read) in
          let stored : to_int z ≡ v = ground (arith, e, read) in
          let small : IsBelow (2 ^ 31) z = (same-to_int z).0 kept in
          subst (λ (x : ℤ). IsSigned text x × IsBelow (2 ^ 31) x)
            (sym (same-eq (to_int z) z kept) ∙ stored)
            (long_long→IsSigned text {v = z} read small, small)
      | inr (x, failed) ↦ absurd (ground (arith, e, failed))
    ]

    back :
        IsSigned text v × IsBelow (2 ^ 31) v
        → parse_int text ≡ record { status = ok tt; stored = some v }
    back (s, h) =
        let kept : same (to_int v) v ≡ true = (same-to_int v).1 h in
        ground (arith, IsSigned→long_long text v s h, kept, same-eq (to_int v) v kept)
