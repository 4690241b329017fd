-- ===== src/Env/Numbers.antt =====
-- Numbers survive the way through the environment.
use libert.Base.{ℕ, suc, ◌^◌, ◌<◌, ◌≡◌, refl, ◌∙◌, true, some, ok}
use libert.Parse.{Text, ℤ, pos, negsuc}
use libert.Parse.Numbers.{parse_uint-IsDecimal}
use libert.Parse.Signed.{IsSigned, IsBelow, plain, negative, parse_int-IsSigned}
use libert.Env.{
  Env, is_name, get_env_string, set_env_string, print_signed, print_unsigned, get_env_int,
  get_env_uint, set_env_int, set_env_uint,
}
use libert.Env.Decimal.{print_unsigned-IsDecimal}
use libert.Env.Store.{set_env_string-get, text_eq_refl}

-- The value that was set is the one that a parse of the name sees.
set_then_get :
    (name value : Text) (env : Env)
    → is_name name ≡ true
    → (env' : Env) × (set_env_string name value true env ≡ (ok value, env'))
      × (get_env_string name env' ≡ ok value)
set_then_get name value env h =
    let done = set_env_string-get name value name env h in
    (done.0, done.1, done.2 ∙ rw (text_eq_refl name) refl)

-- Every `unsigned` that is set under a valid name is the value that is got.
pub set_env_uint-get :
    (name : Text) (n : ℕ) (env : Env)
    → is_name name ≡ true
    → n < 2 ^ 32
    → (env' : Env) × (set_env_uint name n true env ≡ (ok (print_unsigned n), env'))
      × (get_env_uint name env' ≡ record { status = ok tt; stored = some n })
unfolding set_env_uint get_env_uint
set_env_uint-get name n env h small =
    let done = set_then_get name (print_unsigned n) env h in
    (
      done.0,
      done.1,
      rw done.2 ((parse_uint-IsDecimal (print_unsigned n) n).1 (print_unsigned-IsDecimal n, small)),
    )

print_signed-IsSigned : (v : ℤ) → IsSigned (print_signed v) v
unfolding print_signed
print_signed-IsSigned (pos n) = plain n (print_unsigned-IsDecimal n) refl
print_signed-IsSigned (negsuc n) =
    negative (print_unsigned (suc n)) (suc n) refl (print_unsigned-IsDecimal (suc n)) refl

-- Every `int` that is set under a valid name is the value that is got, the least one included.
pub set_env_int-get :
    (name : Text) (v : ℤ) (env : Env)
    → is_name name ≡ true
    → IsBelow (2 ^ 31) v
    → (env' : Env) × (set_env_int name v true env ≡ (ok (print_signed v), env'))
      × (get_env_int name env' ≡ record { status = ok tt; stored = some v })
unfolding set_env_int get_env_int
set_env_int-get name v env h small =
    let done = set_then_get name (print_signed v) env h in
    (
      done.0,
      done.1,
      rw done.2 ((parse_int-IsSigned (print_signed v) v).1 (print_signed-IsSigned v, small)),
    )
