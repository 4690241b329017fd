-- ===== src/Env.antt =====
-- src/env.c: strings and numbers in the environment, which is the list of its names with their
-- values. `getenv()`, `setenv()` and `unsetenv()` work on that list; whether `setenv()` has the
-- memory it wants is an argument. Numbers are printed by `sprintf()` and parsed by src/parse.c.
pub mod Decimal
pub mod Store
pub mod Numbers
mod Tests
use libert.Base.{
  ℕ, zero, suc, ◌+◌, ◌/◌, ◌%◌, Bool, true, false, not, ◌&&◌, ◌||◌, Option, none, some, List, [],
  ◌∷◌, ltb, ◌==◌, if◌then◌else◌, Errno, enoent, einval, enomem, Result, ok, err,
}
use libert.Parse.{Text, ℤ, pos, negsuc, Parsed, parse_int, parse_uint, parse_uint64, parse_pid}

abbrev pub Env : Type 0
Env = List (Text × Text)

unfoldable pub text_eq : Text → Text → Bool
text_eq [] [] = true
text_eq [] (d ∷ ds) = false
text_eq (c ∷ cs) [] = false
text_eq (c ∷ cs) (d ∷ ds) = c == d && text_eq cs ds

-- `getenv()`
unfoldable pub getenv : Text → Env → Option Text
unfolding text_eq
getenv name [] = none
getenv name (entry ∷ env) = if text_eq name entry.0 then some entry.1 else getenv name env

-- `unsetenv()` and `setenv()` refuse a name that is empty or has a `=`.
abbrev pub has_equals : Text → Bool
has_equals [] = false
has_equals (c ∷ cs) = c == b'=' || has_equals cs

abbrev pub is_name : Text → Bool
is_name [] = false
is_name (c ∷ cs) = not (has_equals (c ∷ cs))

unfoldable pub remove : Text → Env → Env
unfolding text_eq
remove name [] = []
remove name (entry ∷ env) =
    if text_eq name entry.0 then remove name env else entry ∷ remove name env

unfoldable pub unsetenv : Text → Env → Result Env
unfolding remove
unsetenv name env = if is_name name then ok (remove name env) else err einval

unfoldable pub setenv : Text → Text → Bool → Env → Result Env
unfolding remove
setenv name value allocated env =
    if not (is_name name)
    then err einval
    else if allocated
    then ok ((name, value) ∷ remove name env)
    else err enomem

-- `ert_deleteEnv()`
unfoldable pub delete_env : Text → Env → Result (Unit {0}) × Env
unfolding getenv unsetenv
delete_env name env = elim (getenv name env) [
  | none ↦ (err enoent, env)
  | some value ↦ elim (unsetenv name env) [
    | ok env' ↦ (ok tt, env')
    | err e ↦ ((if e == enoent then err einval else err e), env)
  ]
]

-- `ert_getEnvString()`
unfoldable pub get_env_string : Text → Env → Result Text
unfolding getenv
get_env_string name env = elim (getenv name env) [ none ↦ err enoent | some value ↦ ok value ]

-- `ert_setEnvString()` returns the value that is in the environment then.
unfoldable pub set_env_string : Text → Text → Bool → Env → Result Text × Env
unfolding setenv get_env_string
set_env_string name value allocated env = elim (setenv name value allocated env) [
  | err e ↦ (err e, env)
  | ok env' ↦ (get_env_string name env', env')
]

-- A parse of the value of a name.
abbrev pub parse_value : {V : Type 0} → (Text → Parsed V) → Result Text → Parsed V
parse_value parse (ok value) = parse value
parse_value parse (err e) = record { status = err e; stored = none }

-- `ert_getEnvInt()`, `ert_getEnvUInt()`, `ert_getEnvUInt64()` and `ert_getEnvPid()`
unfoldable pub get_env_int : Text → Env → Parsed ℤ
unfolding get_env_string
get_env_int name env = parse_value parse_int (get_env_string name env)

unfoldable pub get_env_uint : Text → Env → Parsed ℕ
unfolding get_env_string
get_env_uint name env = parse_value parse_uint (get_env_string name env)

unfoldable pub get_env_uint64 : Text → Env → Parsed ℕ
unfolding get_env_string
get_env_uint64 name env = parse_value parse_uint64 (get_env_string name env)

unfoldable pub get_env_pid : Text → Env → Parsed ℤ
unfolding get_env_string
get_env_pid name env = parse_value parse_pid (get_env_string name env)

-- The digits of a number before some others; a number needs fewer steps than itself and one.
unfoldable pub print_digits : ℕ → ℕ → Text → Text
print_digits zero n text = text
print_digits (suc fuel) n text =
    let more = print_digits fuel (n / 10) ((b'0' + n % 10) ∷ text) in
    if ltb n 10 then (b'0' + n) ∷ text else more

-- `sprintf()` of `%u`, `%PRIu64` and `%d`
unfoldable pub print_unsigned : ℕ → Text
unfolding print_digits
print_unsigned n = print_digits (suc n) n []

unfoldable pub print_signed : ℤ → Text
unfolding print_unsigned
print_signed (pos n) = print_unsigned n
print_signed (negsuc n) = b'-' ∷ print_unsigned (suc n)

-- `ert_setEnvInt()`, `ert_setEnvUInt()` and `ert_setEnvUInt64()`
unfoldable pub set_env_int : Text → ℤ → Bool → Env → Result Text × Env
unfolding set_env_string print_signed
set_env_int name value allocated env = set_env_string name (print_signed value) allocated env

unfoldable pub set_env_uint : Text → ℕ → Bool → Env → Result Text × Env
unfolding set_env_string print_unsigned
set_env_uint name value allocated env = set_env_string name (print_unsigned value) allocated env

unfoldable pub set_env_uint64 : Text → ℕ → Bool → Env → Result Text × Env
unfolding set_env_string print_unsigned
set_env_uint64 name value allocated env = set_env_string name (print_unsigned value) allocated env

unfoldable pub set_env_pid : Text → ℤ → Bool → Env → Result Text × Env
unfolding set_env_string print_signed
set_env_pid name value allocated env = set_env_string name (print_signed value) allocated env
