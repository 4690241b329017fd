-- ===== src/Env/Tests.antt =====
-- The environment with one name.
use libert.Base.{◌≡◌, refl, true, some, [], ◌∷◌, ok, err, enoent, if◌then◌else◌, arith}
use libert.Parse.{Text, negsuc}
use libert.Env.{
  Env, text_eq, getenv, get_env_string, delete_env, set_env_int, get_env_int, print_signed,
  print_unsigned, print_digits,
}
use libert.Env.Store.{delete_env-get}
use libert.Env.Numbers.{set_env_int-get}

-- The name A with the value "x".
abbrev name : Text
name = b'A' ∷ []

abbrev env : Env
env = (name, b'x' ∷ []) ∷ []

printed : print_signed (negsuc 11) ≡ b'-' ∷ b'1' ∷ b'2' ∷ []
unfolding print_signed print_unsigned print_digits
printed = refl

found : get_env_string name env ≡ ok (b'x' ∷ [])
unfolding get_env_string getenv text_eq
found = refl

delete_env-get_example :
    (env' : Env) × (delete_env name env ≡ (ok tt, env'))
    × (delete_env name env' ≡ (err enoent, env'))
    × (get_env_string name env'
        ≡ (if text_eq name name then err enoent else get_env_string name env))
delete_env-get_example = delete_env-get name (b'x' ∷ []) name env refl found

set_env_int-get_example :
    (env' : Env) × (set_env_int name (negsuc 11) true env ≡ (ok (print_signed (negsuc 11)), env'))
    × (get_env_int name env' ≡ record { status = ok tt; stored = some (negsuc 11) })
set_env_int-get_example = set_env_int-get name (negsuc 11) env refl (omega arith)
