-- ===== src/Base/Words.antt =====
-- Fixed-width arithmetic: `uint64_t` wraps at 2^64; a signed `int` is a number below 2^31 where the
-- code has checked it, and its wrap-around conversions are written out.
use Prim.Native.Nat.{ℕ, ◌+◌, ◌-◌, ◌%◌, ◌^◌}

abbrev pub u64_mod : ℕ
u64_mod = 2 ^ 64

abbrev pub int_max : ℕ
int_max = 2 ^ 31 - 1

abbrev pub u64 : ℕ → ℕ
u64 n = n % u64_mod

-- `a - b` on `uint64_t`.
abbrev pub sub64 : ℕ → ℕ → ℕ
sub64 a b = (a + u64_mod - b) % u64_mod
