-- ===== src/Parse.antt =====
-- src/parse.c: numbers from text, and argument lists from comma separated text or from a vector.
-- A string is the list of its bytes up to the terminator, none of which is 0. Whether an allocation
-- succeeds is an argument.
pub mod Numbers
pub mod Signed
pub mod Args
pub mod Words
pub mod Blocks
mod Tests
use libert.Base.{
  ℕ, zero, suc, ◌+◌, ◌-◌, ◌*◌, ◌%◌, ◌^◌, Bool, true, false, not, ◌&&◌, ◌||◌, Option, none, some,
  List, [], ◌∷◌, ◌++◌, length, ltb, leb, ◌==◌, nonzero, if◌then◌else◌, u64_mod, Outcome, done,
  abort, ◌>>=◌, ◌>>◌, ensure, einval, enomem, Result, ok, err,
}

abbrev pub Text : Type 0
Text = List ℕ

-- A signed number: `negsuc n` is `- (n + 1)`.
pub data ℤ : Type 0 where
  pos negsuc : ℕ → ℤ

-- `isdigit()` and `isspace()`
abbrev pub is_digit : ℕ → Bool
is_digit c = leb b'0' c && leb c b'9'

abbrev pub is_space : ℕ → Bool
is_space c = leb 9 c && leb c 13 || c == b' '

abbrev pub starts_with_digit : Text → Bool
starts_with_digit [] = false
starts_with_digit (c ∷ cs) = is_digit c

-- The digits at the start of a text, as a number after `acc`, and what follows them.
abbrev pub read_digits : ℕ → Text → ℕ × Text
read_digits acc [] = (acc, [])
read_digits acc (c ∷ cs) =
    let rest = read_digits (acc * 10 + (c - b'0')) cs in if is_digit c then rest else (acc, c ∷ cs)

abbrev pub is_empty : Text → Bool
is_empty [] = true
is_empty (c ∷ cs) = false

-- The value of `strtoull()`, and whether it set `ERANGE`.
abbrev pub clamp_unsigned : ℕ → ℕ × Bool
clamp_unsigned n = if ltb n u64_mod then (n, false) else (u64_mod - 1, true)

-- The checks on the number and the end that `strtoull()` found.
pub accept_unsigned : Bool → ℕ × Text → Result ℕ
accept_unsigned starts (number, endptr) =
    let (value, range) = clamp_unsigned number in
    if starts && is_empty endptr && (not (value == u64_mod - 1) || not range)
    then ok value
    else err einval

-- `parseUnsignedLongLong_()`: `strtoull()` on a text that starts with a digit.
pub parse_unsigned_long_long : Text → Result ℕ
unfolding accept_unsigned
parse_unsigned_long_long arg = accept_unsigned (starts_with_digit arg) (read_digits 0 arg)

-- The value of `strtoll()` for a magnitude after a `-` or not.
abbrev pub clamp_signed : Bool → ℕ → ℤ × Bool
clamp_signed true zero = (pos 0, false)
clamp_signed true (suc n) =
    if ltb n (2 ^ 63) then (negsuc n, false) else (negsuc (2 ^ 63 - 1), true)
clamp_signed false n = if ltb n (2 ^ 63) then (pos n, false) else (pos (2 ^ 63 - 1), true)

abbrev pub is_llong_max : ℤ → Bool
is_llong_max (pos n) = n == 2 ^ 63 - 1
is_llong_max (negsuc n) = false

-- The checks on what `strtoll()` found behind the sign; without a digit it consumes nothing, and so
-- does not reach the end.
pub accept_signed : Bool → Bool → ℕ × Text → Result ℤ
accept_signed minus starts (number, endptr) =
    let (value, range) = clamp_signed minus number in
    if starts && is_empty endptr && (not (is_llong_max value) || not range)
    then ok value
    else err einval

pub read_signed : Bool → Text → Result ℤ
unfolding accept_signed
read_signed minus digits = accept_signed minus (starts_with_digit digits) (read_digits 0 digits)

-- `parseLongLong_()`
pub parse_long_long : Text → Result ℤ
unfolding read_signed
parse_long_long [] = err einval
parse_long_long (c ∷ cs) =
    if c == b'-'
    then read_signed true cs
    else if c == b'+'
    then read_signed false cs
    else read_signed false (c ∷ cs)

-- Conversion to an `int` of 32 bits, and the comparison with the number converted.
abbrev pub to_int : ℤ → ℤ
to_int (pos n) =
    if ltb (n % 2 ^ 32) (2 ^ 31) then pos (n % 2 ^ 32) else negsuc (2 ^ 32 - 1 - n % 2 ^ 32)
to_int (negsuc n) =
    if ltb (n % 2 ^ 32) (2 ^ 31) then negsuc (n % 2 ^ 32) else pos (2 ^ 32 - 1 - n % 2 ^ 32)

abbrev pub same : ℤ → ℤ → Bool
same (pos m) (pos n) = m == n
same (negsuc m) (negsuc n) = m == n
same _ _ = false

-- What a parse returns, with what it has stored behind `aValue`.
pub record Parsed (V : Type 0) : Type 0 where
  pub status : Result (Unit {0})
  pub stored : Option V

-- `ert_parseInt()`; the source takes the difference of the two numbers.
pub parse_int : Text → Parsed ℤ
unfolding parse_long_long
parse_int arg = elim (parse_long_long arg) [
  | ok v ↦ record {
    status = if same (to_int v) v then ok tt else err einval;
    stored = some (to_int v);
  }
  | err e ↦ record { status = err e; stored = none }
]

-- The value taken to `w` bits.
abbrev pub parse_bits : ℕ → Text → Parsed ℕ
parse_bits w arg = elim (parse_unsigned_long_long arg) [
  | ok v ↦ record {
    status = if v % 2 ^ w == v then ok tt else err einval;
    stored = some (v % 2 ^ w);
  }
  | err e ↦ record { status = err e; stored = none }
]

-- `ert_parseUInt()` and `ert_parseUInt64()`
pub parse_uint : Text → Parsed ℕ
unfolding parse_unsigned_long_long
parse_uint arg = parse_bits 32 arg

pub parse_uint64 : Text → Parsed ℕ
unfolding parse_unsigned_long_long
parse_uint64 arg = parse_bits 64 arg

-- `ert_parsePid()`: a `pid_t` is an `int`, and a negative one is refused.
pub parse_pid : Text → Parsed ℤ
unfolding parse_unsigned_long_long
parse_pid arg = elim (parse_unsigned_long_long arg) [
  | ok v ↦ record {
    status = if same (to_int (pos v)) (pos v) then ok tt else err einval;
    stored = some (to_int (pos v));
  }
  | err e ↦ record { status = err e; stored = none }
]
