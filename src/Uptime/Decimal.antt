-- ===== src/Uptime/Decimal.antt =====
-- What `ert_procUptime()` makes of a decimal text.
use libert.Base.{
  IsDigit, show, value, ℕ, ◌+◌, ◌*◌, ◌^◌, ◌≤◌, ◌<◌, ◌≡◌, ◌≢◌, inl, inr, Option, none, some, List,
  [], ◌∷◌, ◌++◌, length, All, ltb, nonzero, if◌then◌else◌, u64_mod, done, erange, Result, ok, err,
  Bool-cases, refl, ap, ◌∙◌, arith, tests,
}
use libert.Uptime.{Scan, find_space, scan_char, scan}

value-ge : (acc : ℕ) (ds : List ℕ) → acc ≤ value acc ds
value-ge acc [] = omega arith
value-ge acc (d ∷ ds) = omega (arith, value-ge (acc * 10 + d) ds)

value-append : (acc : ℕ) (a b : List ℕ) → value acc (a ++ b) ≡ value (value acc a) b
value-append acc [] b = refl
value-append acc (d ∷ a) b = value-append (acc * 10 + d) a b

-- The count of decimals grows only behind the point.
abbrev pub count_digits : ℕ → ℕ → ℕ
count_digits f n = if nonzero f then f + 2 * n else f

-- A digit is taken in exactly if the value still fits in 64 bits.
scan_char-fits :
    (u f d : ℕ)
    → IsDigit d
    → u * 10 + d < u64_mod
    → count_digits f 1 < 2 ^ 32
    → scan_char (record { uptime_ns = u; fracdigits = f }) (b'0' + d)
      ≡ ok (record { uptime_ns = u * 10 + d; fracdigits = count_digits f 1 })
unfolding scan_char
scan_char-fits u f d hd fits hf = ground arith

scan_char-overflows :
    (u f d : ℕ)
    → IsDigit d
    → u < u64_mod
    → u64_mod ≤ u * 10 + d
    → scan_char (record { uptime_ns = u; fracdigits = f }) (b'0' + d) ≡ err erange
unfolding scan_char
scan_char-overflows u f d hd hu over = ground arith

pub scan-show :
    (u f : ℕ) (ds : List ℕ)
    → All IsDigit ds
    → value u ds < u64_mod
    → count_digits f (length ds) < 2 ^ 32
    → scan (record { uptime_ns = u; fracdigits = f }) (show ds)
      ≡ ok (record { uptime_ns = value u ds; fracdigits = count_digits f (length ds) })
unfolding scan
scan-show u f [] h fits hf = ground arith
scan-show u f (d ∷ ds) h fits hf =
    rw (scan_char-fits u f d h.0 (omega (arith, value-ge (u * 10 + d) ds)) (ground arith), scan)
      (scan-show (u * 10 + d) (count_digits f 1) ds h.1 fits (ground arith)
        ∙ ap (λ (k : ℕ). ok (record { uptime_ns = value (u * 10 + d) ds; fracdigits = k }))
            (ground arith))

pub scan-show_overflow :
    (u f : ℕ) (ds : List ℕ)
    → All IsDigit ds
    → u < u64_mod
    → u64_mod ≤ value u ds
    → count_digits f (length ds) < 2 ^ 32
    → scan (record { uptime_ns = u; fracdigits = f }) (show ds) ≡ err erange
unfolding scan
scan-show_overflow u f [] h hu over hf = absurd (omega arith)
scan-show_overflow u f (d ∷ ds) h hu over hf = elim (Bool-cases (ltb (u * 10 + d) u64_mod)) [
  | inl fits ↦
      rw (scan_char-fits u f d h.0 (omega (tests, fits)) (ground arith), scan)
        (scan-show_overflow (u * 10 + d) (count_digits f 1) ds h.1 (omega (tests, fits)) over
          (ground arith))
  | inr out ↦ rw (scan_char-overflows u f d h.0 hu (omega (tests, out)), scan)
]

pub scan-append :
    (s : Scan) (xs ys : List ℕ)
    → scan s (xs ++ ys) ≡ elim (scan s xs) [ ok s' ↦ scan s' ys | err e ↦ err e ]
unfolding scan
scan-append s [] ys = refl
scan-append s (x ∷ xs) ys = step (λ s'. scan-append s' xs ys) (scan_char s x)
  where
    step :
        ((s' : Scan)
          → scan s' (xs ++ ys)
            ≡ elim (scan s' xs) as (λ _. Result Scan) [ ok t ↦ scan t ys | err e ↦ err e ])
        → (r : Result Scan)
        → elim r as (λ _. Result Scan) [ ok s' ↦ scan s' (xs ++ ys) | err e ↦ err e ]
          ≡ elim (elim r as (λ _. Result Scan) [ ok s' ↦ scan s' xs | err e ↦ err e ])
              as (λ _. Result Scan) [ ok s' ↦ scan s' ys | err e ↦ err e ]
    step rec (ok s') = rec s'
    step rec (err e) = refl

-- A decimal text: the digits before the point, and those behind it if there is one.
abbrev pub decimal : List ℕ → Option (List ℕ) → List ℕ
decimal a none = show a
decimal a (some b) = show a ++ (b'.' ∷ show b)

abbrev pub decimals : Option (List ℕ) → List ℕ
decimals none = []
decimals (some b) = b

abbrev pub fraction_count : Option (List ℕ) → ℕ
fraction_count none = 0
fraction_count (some b) = 1 + 2 * length b

pub scan_point :
    (u : ℕ) (cs : List ℕ)
    → scan (record { uptime_ns = u; fracdigits = 0 }) (b'.' ∷ cs)
      ≡ scan (record { uptime_ns = u; fracdigits = 1 }) cs
unfolding scan scan_char
scan_point u cs = refl

pub scan-decimal :
    (a : List ℕ) (b : Option (List ℕ))
    → All IsDigit a
    → All IsDigit (decimals b)
    → value (value 0 a) (decimals b) < u64_mod
    → fraction_count b < 2 ^ 32
    → scan (record { uptime_ns = 0; fracdigits = 0 }) (decimal a b)
      ≡ ok (record { uptime_ns = value (value 0 a) (decimals b); fracdigits = fraction_count b })
scan-decimal a none ha hb fits hf = scan-show 0 0 a ha fits (omega arith)
scan-decimal a (some b) ha hb fits hf =
    rw
      (
        scan-append,
        scan-show 0 0 a ha (omega (arith, value-ge (value 0 a) b)) (omega arith),
        scan_point,
      )
      (scan-show (value 0 a) 1 b hb fits hf)

-- The text has no space and no NUL, so the search finds the space behind it.
abbrev pub IsText : ℕ → Type 0
IsText c = (c ≢ b' ') × (c ≢ 0)

pub find_space-append :
    (cs rest : List ℕ) → All IsText cs → find_space (cs ++ (b' ' ∷ rest)) ≡ done (some cs)
unfolding find_space
find_space-append [] rest h = refl
find_space-append (c ∷ cs) rest h = ground (arith, find_space-append cs rest h.1)
