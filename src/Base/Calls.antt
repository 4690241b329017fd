-- ===== src/Base/Calls.antt =====
-- How a call ends. `abort` is a failed `ert_ensure()` or `ERT_ABORT_IF()`, which stop the process;
-- `err` is a return of -1 with that `errno`.
use Prim.Native.Nat.{ℕ}
use mathlib.Core.Path.{◌≡◌, refl}
use mathlib.Core.Logic.{◌⊎◌, inl, inr}
use mathlib.Core.Bool.{Bool, true, false}

abbrev pub Errno : Type 0
Errno = ℕ

-- The values of errno-base.h.
abbrev pub enoent : Errno
enoent = 2

abbrev pub eintr : Errno
eintr = 4

abbrev pub eio : Errno
eio = 5

abbrev pub ebadf : Errno
ebadf = 9

abbrev pub eagain : Errno
eagain = 11

abbrev pub enomem : Errno
enomem = 12

abbrev pub eexist : Errno
eexist = 17

abbrev pub einval : Errno
einval = 22

abbrev pub erange : Errno
erange = 34

abbrev pub etimedout : Errno
etimedout = 110

pub data Result {ℓ} (A : Type ℓ) : Type ℓ where
  ok : A → Result A
  err : Errno → Result A

-- A call that either returns or stops the process.
pub data Outcome {ℓ} (A : Type ℓ) : Type ℓ where
  done : A → Outcome A
  abort : Outcome A

infixl 5 ◌>>=◌ ◌>>◌
abbrev pub ◌>>=◌ {ℓ κ} : {A : Type ℓ} {B : Type κ} → Outcome A → (A → Outcome B) → Outcome B
done a >>= f = f a
abort >>= f = abort

abbrev pub ◌>>◌ {ℓ} : {B : Type ℓ} → Outcome (Unit {0}) → Outcome B → Outcome B
m >> k = m >>= λ _. k

-- `ert_ensure(b)`
abbrev pub ensure : Bool → Outcome (Unit {0})
ensure true = done tt
ensure false = abort

pub Result-cases {ℓ} :
    {A : Type ℓ} (r : Result A) → ((a : A) × (r ≡ ok a)) ⊎ ((e : Errno) × (r ≡ err e))
Result-cases (ok a) = inl (a, refl)
Result-cases (err e) = inr (e, refl)

pub Outcome-cases {ℓ} : {A : Type ℓ} (o : Outcome A) → (o ≡ abort) ⊎ ((a : A) × (o ≡ done a))
Outcome-cases (done a) = inr (a, refl)
Outcome-cases abort = inl refl
