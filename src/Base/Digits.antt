-- ===== src/Base/Digits.antt =====
-- Decimal digits as numbers, their characters, and their value.
use Prim.Native.Nat.{ℕ, ◌+◌, ◌*◌, ◌<◌}
use mathlib.Core.List.{List, [], ◌∷◌}

abbrev pub IsDigit : ℕ → Type 0
IsDigit d = d < 10

-- The characters of a list of digits, and its value after `acc`.
abbrev pub show : List ℕ → List ℕ
show [] = []
show (d ∷ ds) = (b'0' + d) ∷ show ds

abbrev pub value : ℕ → List ℕ → ℕ
value acc [] = acc
value acc (d ∷ ds) = value (acc * 10 + d) ds
