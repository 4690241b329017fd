-- ===== src/Uptime/Parse.antt =====
-- `ert_procUptime()` on a decimal text followed by a space: its value, and its errors.
use native.Mathlib.Nat.{mod-eq_of_lt, pow-suc}
use libert.Base.{
  IsDigit, show, value, ℕ, zero, suc, ◌⊎◌, inl, inr, ap, ◌∙◌, ltb, Bool-cases, ◌-◌, ◌*◌, ◌/◌, ◌^◌,
  ◌≤◌, ◌<◌, ◌≡◌, Option, none, some, List, [], ◌∷◌, ◌++◌, All, length, u64, u64_mod, done, erange,
  Result, ok, err, arith, tests, le→leb, lt→leb,
}
use libert.TimeScale.{Duration}
use libert.Uptime.{find_space, scan, scale_decimals, parse_uptime, proc_uptime}
use libert.Uptime.Decimal.{
  decimal, decimals, fraction_count, scan-append, scan-show, scan-show_overflow, scan_point,
  scan-decimal, IsText, find_space-append,
}

proc_uptime-find_space :
    (bytes : List ℕ) {text : Option (List ℕ)}
    → find_space bytes ≡ done text
    → proc_uptime (ok bytes) ≡ done (parse_uptime text)
unfolding find_space proc_uptime
proc_uptime-find_space [] e = cc
proc_uptime-find_space (c ∷ cs) e = rw (e, proc_uptime)

show-IsText : (ds : List ℕ) → All IsDigit ds → All IsText (show ds)
show-IsText [] h = tt
show-IsText (d ∷ ds) h = ((omega arith, omega arith), show-IsText ds h.1)

All-append : (xs ys : List ℕ) → All IsText xs → All IsText ys → All IsText (xs ++ ys)
All-append [] ys hx hy = hy
All-append (x ∷ xs) ys hx hy = (hx.0, All-append xs ys hx.1 hy)

decimal-IsText :
    (a : List ℕ) (b : Option (List ℕ))
    → All IsDigit a
    → All IsDigit (decimals b)
    → All IsText (decimal a b)
decimal-IsText a none ha hb = show-IsText a ha
decimal-IsText a (some b) ha hb =
    All-append (show a) (b'.' ∷ show b) (show-IsText a ha)
      ((omega arith, omega arith), show-IsText b hb)

proc_uptime-scan :
    (a : List ℕ) (b : Option (List ℕ)) (rest : List ℕ)
    → All IsDigit a
    → All IsDigit (decimals b)
    → proc_uptime (ok (decimal a b ++ (b' ' ∷ rest))) ≡ done (parse_uptime (some (decimal a b)))
proc_uptime-scan a b rest ha hb =
    proc_uptime-find_space (decimal a b ++ (b' ' ∷ rest))
      (find_space-append (decimal a b) rest (decimal-IsText a b ha hb))

fraction_half : (b : Option (List ℕ)) → fraction_count b / 2 ≡ length (decimals b)
fraction_half none = omega arith
fraction_half (some b) = omega arith

-- With at most nine decimals and digits that fit in 64 bits, the result is the number of the digits
-- times the power of ten that the decimals leave, taken modulo 2^64.
proc_uptime-decimal_mod :
    (a : List ℕ) (b : Option (List ℕ)) (rest : List ℕ)
    → All IsDigit a
    → All IsDigit (decimals b)
    → length (decimals b) ≤ 9
    → value (value 0 a) (decimals b) < u64_mod
    → proc_uptime (ok (decimal a b ++ (b' ' ∷ rest)))
      ≡ done (ok (u64 (value (value 0 a) (decimals b) * 10 ^ (9 - length (decimals b)))))
unfolding parse_uptime scale_decimals
proc_uptime-decimal_mod a b rest ha hb few fits = rw (
  proc_uptime-scan a b rest ha hb,
  scan-decimal a b ha hb fits (omega (arith, fraction_half b)),
  fraction_half b,
  le→leb _ _ few,
)

pow-pos : (k : ℕ) → 0 < 10 ^ k
pow-pos zero = omega arith
pow-pos (suc k) = rw pow-suc (omega (arith, pow-pos k))

scaled_up : (v k : ℕ) → v ≤ v * 10 ^ k
scaled_up v k = grind (arith, pow-pos k)

-- /proc/uptime with digits `a` before the point and at most nine digits behind it, then a space and
-- anything, reads as that many nanoseconds exactly, if their number fits in 64 bits.
pub proc_uptime-decimal :
    (a : List ℕ) (b : Option (List ℕ)) (rest : List ℕ)
    → All IsDigit a
    → All IsDigit (decimals b)
    → length (decimals b) ≤ 9
    → value (value 0 a) (decimals b) * 10 ^ (9 - length (decimals b)) < u64_mod
    → proc_uptime (ok (decimal a b ++ (b' ' ∷ rest)))
      ≡ done (ok (value (value 0 a) (decimals b) * 10 ^ (9 - length (decimals b))))
proc_uptime-decimal a b rest ha hb few fits =
    proc_uptime-decimal_mod a b rest ha hb few (omega (arith, scaled_up v k))
    ∙ ap (λ (n : ℕ). done (ok n)) (mod-eq_of_lt fits)
  where
    v : ℕ
    v = value (value 0 a) (decimals b)

    k : ℕ
    k = 9 - length (decimals b)

-- The scaling to nanoseconds is not checked: digits that fit in 64 bits, with at most nine
-- decimals, of a time that does not fit, are read without an error as a time that is less.
pub proc_uptime-wraps :
    (a : List ℕ) (b : Option (List ℕ)) (rest : List ℕ)
    → All IsDigit a
    → All IsDigit (decimals b)
    → length (decimals b) ≤ 9
    → value (value 0 a) (decimals b) < u64_mod
    → u64_mod ≤ value (value 0 a) (decimals b) * 10 ^ (9 - length (decimals b))
    → (r : Duration) × (proc_uptime (ok (decimal a b ++ (b' ' ∷ rest))) ≡ done (ok r))
      × (r < value (value 0 a) (decimals b) * 10 ^ (9 - length (decimals b)))
proc_uptime-wraps a b rest ha hb few fits over =
    (u64 n, proc_uptime-decimal_mod a b rest ha hb few fits, omega arith)
  where
    n : ℕ
    n = value (value 0 a) (decimals b) * 10 ^ (9 - length (decimals b))

scan-decimal_overflow :
    (a b : List ℕ)
    → All IsDigit a
    → All IsDigit b
    → length b < 2 ^ 30
    → u64_mod ≤ value (value 0 a) b
    → scan (record { uptime_ns = 0; fracdigits = 0 }) (decimal a (some b)) ≡ err erange
scan-decimal_overflow a b ha hb short over = elim (Bool-cases (ltb (value 0 a) u64_mod)) [
  | inl fits ↦
      rw (scan-append, scan-show 0 0 a ha (omega (tests, fits)) (omega arith), scan_point)
        (scan-show_overflow (value 0 a) 1 b hb (omega (tests, fits)) over (omega arith))
  | inr out ↦
      rw (scan-append, scan-show_overflow 0 0 a ha (omega arith) (omega (tests, out)) (omega arith))
]

-- Digits that do not fit in 64 bits, and a tenth decimal, are refused with `ERANGE`, in a text
-- with fewer than 2^30 decimals.
pub proc_uptime-refuses :
    (a b rest : List ℕ)
    → All IsDigit a
    → All IsDigit b
    → length b < 2 ^ 30
    → (u64_mod ≤ value (value 0 a) b) ⊎ (9 < length b)
    → proc_uptime (ok (decimal a (some b) ++ (b' ' ∷ rest))) ≡ done (err erange)
unfolding parse_uptime scale_decimals
proc_uptime-refuses a b rest ha hb short reason =
    proc_uptime-scan a (some b) rest ha hb ∙ ap (λ (r : Result Duration). done r) refused
  where
    refused : parse_uptime (some (decimal a (some b))) ≡ err erange
    refused = elim (Bool-cases (ltb (value (value 0 a) b) u64_mod)) [
      | inl fits ↦ rw (
        scan-decimal a (some b) ha hb (omega (tests, fits)) (omega arith),
        fraction_half (some b),
        lt→leb 9 (length b) (omega (tests, fits, reason)),
      )
      | inr out ↦ rw (scan-decimal_overflow a b ha hb short (omega (tests, out)))
    ]
