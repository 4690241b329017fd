-- ===== src/Base/Runs.antt =====
-- How a loop over calls of the system ends. The calls' replies are an argument: `starved` is a run
-- that has used them up, which is neither a return nor a stop of the process.
use libert.Base.Calls.{Errno, Outcome, done, abort}

pub data Ran {ℓ κ} (S : Type ℓ) (A : Type κ) : Type (ℓ ⊔ κ) where
  ran : S → A → Ran S A
  failed : S → Errno → Ran S A
  stopped : Ran S A
  starved : Ran S A

-- What follows a part of a function that returns on an error.
abbrev pub then_run {ℓ κ μ} :
    {S : Type ℓ} {A : Type κ} {B : Type μ} → Ran S A → (S → A → Ran S B) → Ran S B
then_run (ran s a) k = k s a
then_run (failed s e) k = failed s e
then_run stopped k = stopped
then_run starved k = starved

-- What follows a call that returns or stops the process.
abbrev pub within {ℓ κ μ} :
    {S : Type ℓ} {A : Type κ} {B : Type μ} → Outcome A → (A → Ran S B) → Ran S B
within (done a) k = k a
within abort k = stopped
