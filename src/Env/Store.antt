-- ===== src/Env/Store.antt =====
-- The environment as a map from names to values.
use libert.Base.{
  ℕ, ◌≡◌, refl, sym, ◌∙◌, ap, ap₂, true, false, none, [], ◌∷◌, if◌then◌else◌, enoent, ok, err,
  arith, Bool-cases, Option-cases, inl, inr,
}
use libert.Parse.{Text}
use libert.Env.{
  Env, text_eq, getenv, is_name, remove, unsetenv, setenv, delete_env, get_env_string,
  set_env_string,
}

pub text_eq_refl : (t : Text) → text_eq t t ≡ true
unfolding text_eq
text_eq_refl [] = refl
text_eq_refl (c ∷ cs) = ground (arith, text_eq_refl cs)

text_eq-eq : (t u : Text) → text_eq t u ≡ true → t ≡ u
unfolding text_eq
text_eq-eq [] [] h = refl
text_eq-eq [] (d ∷ ds) h = cc
text_eq-eq (c ∷ cs) [] h = cc
text_eq-eq (c ∷ cs) (d ∷ ds) h =
    ap₂ (λ (x : ℕ) (l : Text). x ∷ l) (ground arith) (text_eq-eq cs ds (ground arith))

getenv-remove : (name : Text) (env : Env) → getenv name (remove name env) ≡ none
unfolding getenv remove
getenv-remove name [] = refl
getenv-remove name (entry ∷ env) = elim (Bool-cases (text_eq name entry.0)) [
  | inl same ↦ rw same (getenv-remove name env)
  | inr other ↦ rw (other, getenv, other) (getenv-remove name env)
]

text_eq-differs : (t u v : Text) → text_eq t u ≡ true → text_eq v u ≡ false → text_eq v t ≡ false
text_eq-differs t u v same other = rw (text_eq-eq t u same) other

getenv-remove_other :
    (name other : Text) (env : Env)
    → text_eq other name ≡ false
    → getenv other (remove name env) ≡ getenv other env
unfolding getenv remove
getenv-remove_other name other [] h = refl
getenv-remove_other name other (entry ∷ env) h = elim (Bool-cases (text_eq name entry.0)) [
  | inl same ↦
      let differs : text_eq other entry.0 ≡ false = rw (sym (text_eq-eq name entry.0 same)) h in
      rw (same, differs) (getenv-remove_other name other env h)
  | inr kept ↦ elim (Bool-cases (text_eq other entry.0)) [
    | inl found ↦ rw (kept, getenv, found) refl
    | inr passed ↦ rw (kept, getenv, passed) (getenv-remove_other name other env h)
  ]
]

-- A name that is valid is set: its value is returned and read back, and every other name reads as
-- before.
pub set_env_string-get :
    (name value other : Text) (env : Env)
    → is_name name ≡ true
    → (env' : Env) × (set_env_string name value true env ≡ (ok value, env'))
      × (get_env_string other env'
          ≡ (if text_eq other name then ok value else get_env_string other env))
unfolding set_env_string setenv get_env_string
set_env_string-get name value other env h = (
  (name, value) ∷ remove name env,
  rw (set_env_string, h, get_env_string, text_eq_refl name) refl,
  elim (Bool-cases (text_eq other name)) [
    | inl same ↦ rw (get_env_string, same) refl
    | inr differs ↦ rw (get_env_string, differs, getenv-remove_other name other env differs) refl
  ],
)

-- A name that has a value is deleted: it reads as not set, with `ENOENT`, as does a second deletion,
-- and every other name reads as before.
pub delete_env-get :
    (name value other : Text) (env : Env)
    → is_name name ≡ true
    → get_env_string name env ≡ ok value
    → (env' : Env) × (delete_env name env ≡ (ok tt, env'))
      × (delete_env name env' ≡ (err enoent, env'))
      × (get_env_string other env'
          ≡ (if text_eq other name then err enoent else get_env_string other env))
unfolding delete_env get_env_string unsetenv
delete_env-get name value other env h has = (
  remove name env,
  elim (Option-cases (getenv name env)) [
    | inl missing ↦ absurd (ground (arith, has, missing))
    | inr found ↦ rw (delete_env, found.1, h) refl
  ],
  rw (delete_env, getenv-remove name env) refl,
  elim (Bool-cases (text_eq other name)) [
    | inl same ↦ rw same (
        ap (λ (o : Text). get_env_string o (remove name env)) (text_eq-eq other name same)
        ∙ removed)
    | inr differs ↦ rw (get_env_string, differs, getenv-remove_other name other env differs) refl
  ],
)
  where
    removed : get_env_string name (remove name env) ≡ err enoent
    removed = rw (get_env_string, getenv-remove name env) refl
