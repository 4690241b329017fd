-- ===== src/Uptime/Tests.antt =====
-- /proc/uptime with concrete texts.
use libert.Base.{
  value, ℕ, ◌-◌, ◌*◌, ◌^◌, ◌<◌, ◌≡◌, none, some, List, [], ◌∷◌, ◌++◌, done, abort, ok, arith, refl,
}
use libert.TimeScale.{Duration}
use libert.Uptime.{proc_uptime}
use libert.Uptime.Decimal.{decimal}
use libert.Uptime.Parse.{proc_uptime-decimal, proc_uptime-wraps}

abbrev seconds : List ℕ
seconds = 1 ∷ 2 ∷ []

abbrev hundredths : List ℕ
hundredths = 3 ∷ 4 ∷ []

-- A text of the digits of 2^64 / 1000 seconds, which fit, and of too many nanoseconds.
abbrev long_time : List ℕ
long_time = 1 ∷ 8 ∷ 4 ∷ 4 ∷ 6 ∷ 7 ∷ 4 ∷ 4 ∷ 0 ∷ 7 ∷ 4 ∷ []

abbrev ten_decimals : List ℕ
ten_decimals = 0 ∷ 0 ∷ 0 ∷ 0 ∷ 0 ∷ 0 ∷ 0 ∷ 0 ∷ 0 ∷ 1 ∷ []

proc_uptime-decimal_example :
    proc_uptime (ok (decimal seconds (some hundredths) ++ (b' ' ∷ [])))
    ≡ done (ok (value (value 0 seconds) hundredths * 10 ^ (9 - 2)))
proc_uptime-decimal_example =
    proc_uptime-decimal seconds (some hundredths) [] (omega arith, (omega arith, tt))
      (omega arith, (omega arith, tt)) (omega arith) (omega arith)

proc_uptime-wraps_example :
    (r : Duration) × (proc_uptime (ok (decimal long_time none ++ (b' ' ∷ []))) ≡ done (ok r))
    × (r < value 0 long_time * 10 ^ 9)
proc_uptime-wraps_example =
    proc_uptime-wraps long_time none []
      (
        omega arith,
        (
          omega arith,
          (
            omega arith,
            (
              omega arith,
              (
                omega arith,
                (
                  omega arith,
                  (omega arith, (omega arith, (omega arith, (omega arith, (omega arith, tt))))),
                ),
              ),
            ),
          ),
        ),
      )
      tt (omega arith) (omega arith) (omega arith)

twelve_seconds :
    proc_uptime (ok (b'1' ∷ b'2' ∷ b'.' ∷ b'3' ∷ b'4' ∷ b' ' ∷ b'5' ∷ []))
    ≡ done (ok 12_340_000_000)
unfolding proc_uptime
twelve_seconds = refl

no_space : proc_uptime (ok (b'1' ∷ b'2' ∷ [])) ≡ abort
unfolding proc_uptime
no_space = refl
