-- ===== src/Uptime.antt =====
-- src/timekeeping.c, `ert_procUptime()`: reads /proc/uptime, seconds with up to nine decimals before
-- a space. The file's bytes, or the errno with which it could not be read, are an argument; opening,
-- reading and closing it are `ert_openFd()`, `ert_readFdFully()` and `ert_closeFd()`.
mod Decimal
pub mod Parse
mod Tests
use libert.Base.{
  ℕ, ◌+◌, ◌-◌, ◌*◌, ◌/◌, ◌%◌, ◌^◌, Bool, true, false, ◌&&◌, ◌||◌, not, Option, none, some, List, [],
  ◌∷◌, ltb, leb, ◌==◌, nonzero, if◌then◌else◌, u64, Outcome, done, abort, Errno, erange, Result, ok,
  err,
}
use libert.TimeScale.{Duration}

-- `strchr(buf, ' ')`: the bytes before the space, or none if a NUL comes first. The buffer has no
-- terminator of its own, so a search that meets neither leaves it, and is without meaning: `abort`.
prepend : ℕ → Outcome (Option (List ℕ)) → Outcome (Option (List ℕ))
prepend c (done (some cs)) = done (some (c ∷ cs))
prepend c (done none) = done none
prepend c abort = abort

pub find_space : List ℕ → Outcome (Option (List ℕ))
unfolding prepend
find_space [] = abort
find_space (c ∷ cs) =
    let rest = prepend c (find_space cs) in
    if c == b' ' then done (some []) else if c == 0 then done none else rest

-- `uptime_ns` and `fracdigits`, which is 0 before the point, and then 1 and twice the digits read.
pub record Scan : Type 0 where
  pub uptime_ns : ℕ
  pub fracdigits : ℕ

-- One round of the loop over the characters: `fracdigits` is an `unsigned`.
scan_digit : Scan → ℕ → Result Scan
scan_digit s digit =
    let value = u64 (s.uptime_ns * 10) in
    if not (value / 10 == s.uptime_ns) || ltb (u64 (value + digit)) s.uptime_ns
    then err erange
    else ok (record {
      uptime_ns = u64 (value + digit);
      fracdigits = if nonzero s.fracdigits then (s.fracdigits + 2) % 2 ^ 32 else s.fracdigits;
    })

pub scan_char : Scan → ℕ → Result Scan
unfolding scan_digit
scan_char s c =
    if c == b'.'
    then if nonzero s.fracdigits then err erange else ok (record s { fracdigits = 1 })
    else if leb b'0' c && leb c b'9'
    then scan_digit s (c - b'0')
    else err erange

pub scan : Scan → List ℕ → Result Scan
unfolding scan_char
scan s [] = ok s
scan s (c ∷ cs) = elim (scan_char s c) [ ok s' ↦ scan s' cs | err e ↦ err e ]

-- The `switch` on the number of decimals.
pub scale_decimals : Scan → Result Duration
scale_decimals s =
    if leb (s.fracdigits / 2) 9
    then ok (u64 (s.uptime_ns * 10 ^ (9 - s.fracdigits / 2)))
    else err erange

pub scale_result : Result Scan → Result Duration
unfolding scale_decimals
scale_result (ok s) = scale_decimals s
scale_result (err e) = err e

pub parse_uptime : Option (List ℕ) → Result Duration
unfolding scan scale_result
parse_uptime none = err erange
parse_uptime (some text) = scale_result (scan (record { uptime_ns = 0; fracdigits = 0 }) text)

-- `ert_procUptime()`
pub proc_uptime : Result (List ℕ) → Outcome (Result Duration)
unfolding find_space parse_uptime
proc_uptime (err e) = done (err e)
proc_uptime (ok []) = done (err erange)
proc_uptime (ok (c ∷ cs)) = elim (find_space (c ∷ cs)) [
  | done text ↦ done (parse_uptime text)
  | abort ↦ abort
]
