-- ===== src/Parse/Blocks.antt =====
-- The blocks of memory that an argument list holds.
use native.Mathlib.Decide.{ℕ_discrete}
use libert.Base.{
  ◌<◌, ◌⊎◌, ℕ, ◌+◌, ◌≤◌, ◌≡◌, Bool, true, false, Option, none, some, List, [], ◌∷◌, length, done,
  Result, ok, err, enomem, arith, refl, subst, Bool-cases, inl, inr,
}
use libert.Parse.{Text}
use libert.Parse.Args.{
  ArgList, no_args, failed_list, Created, close_arg_list, create_csv, create_copy, copy_args,
  free_vector,
}
use libert.Parse.Words.{create_csv-cut}

-- The blocks that may be in use after a creation: those that closing the list frees, and none after a
-- failure.
abbrev pub owned : Result (Unit {0}) → ArgList → ℕ
owned (ok _) list = close_arg_list list
owned (err _) list = 0

free_vector-length : (copies : List Text) → free_vector copies ≡ length copies + 1
unfolding free_vector
free_vector-length [] = refl
free_vector-length (c ∷ cs) = omega (arith, free_vector-length cs)

-- Neither creation leaks, whichever allocation fails: after a failure no block is in use, and after a
-- success the blocks in use are those that closing the list frees.
pub create-owned :
    (text : Option Text) (dup_text malloc_ok : Bool) (vector : Option (List Text))
    (dup_ok : ℕ → Bool)
    → ((c : Created) × (create_csv text dup_text malloc_ok ≡ done c)
        × (c.blocks ≡ owned c.status c.list))
      × ((create_copy vector malloc_ok dup_ok).blocks
          ≡ owned
              (create_copy vector malloc_ok dup_ok).status
              (create_copy vector malloc_ok dup_ok).list)
unfolding create_csv create_copy close_arg_list
create-owned text dup_text malloc_ok vector dup_ok =
    (csv text dup_text malloc_ok, copy vector malloc_ok)
  where
    csv :
        (text : Option Text) (dup_text malloc_ok : Bool)
        → (c : Created) × (create_csv text dup_text malloc_ok ≡ done c)
          × (c.blocks ≡ owned c.status c.list)
    csv none d m = (_, refl, refl)
    csv (some t) false m = (_, refl, refl)
    csv (some t) true false = (_, refl, refl)
    csv (some t) true true = (_, create_csv-cut t, refl)

    copy :
        (vector : Option (List Text)) (malloc_ok : Bool)
        → (create_copy vector malloc_ok dup_ok).blocks
          ≡ owned
              (create_copy vector malloc_ok dup_ok).status
              (create_copy vector malloc_ok dup_ok).list
    copy none m = refl
    copy (some args) false = refl
    copy (some args) true = elim (Bool-cases (copy_args dup_ok 0 args).1) [
      | inl made ↦ rw made (omega arith)
      | inr short ↦ rw short (omega (arith, free_vector-length (copy_args dup_ok 0 args).0))
    ]

-- The calls of `strdup()` that the copy makes, from the one numbered `ax`.
copy_args-made :
    (dup_ok : ℕ → Bool) (ax : ℕ) (args : List Text)
    → (copy_args dup_ok ax args).1 ≡ true
    → ((copy_args dup_ok ax args).0 ≡ args)
      × ((i : ℕ) → ax ≤ i → i < ax + length args → dup_ok i ≡ true)
unfolding copy_args
copy_args-made dup_ok ax [] made = (refl, λ i lo hi. absurd (omega (arith, lo, hi)))
copy_args-made dup_ok ax (arg ∷ args) made =
    let first : dup_ok ax ≡ true = ground arith in
    let (same, later) = copy_args-made dup_ok (ax + 1) args (ground (arith, made, first)) in
    (
      ground (arith, first, same),
      λ i lo hi. elim (ℕ_discrete ax i) [
        | yes here ↦ subst (λ j. dup_ok j ≡ true) here first
        | no other ↦ later i (omega arith) (omega arith)
      ],
    )

copy_args-short :
    (dup_ok : ℕ → Bool) (ax : ℕ) (args : List Text)
    → (copy_args dup_ok ax args).1 ≡ false
    → (k : ℕ) × (k < ax + length args) × (dup_ok k ≡ false)
unfolding copy_args
copy_args-short dup_ok ax [] short = cc
copy_args-short dup_ok ax (arg ∷ args) short = elim (Bool-cases (dup_ok ax)) [
  | inl made ↦
      let (k, b, h) = copy_args-short dup_ok (ax + 1) args (ground (arith, made, short)) in
      (k, omega (arith, b), h)
  | inr failed ↦ (ax, omega arith, failed)
]

-- Where the vector itself can be allocated, the copy of a vector either has its strings, in order,
-- and then no allocation of one has failed; or one has, and the result is `ENOMEM` with an empty
-- list.
pub create_copy-args :
    (args : List Text) (dup_ok : ℕ → Bool)
    → ((create_copy (some args) true dup_ok).status ≡ ok tt)
        × ((create_copy (some args) true dup_ok).list.argv ≡ some args)
        × ((i : ℕ) → i < length args → dup_ok i ≡ true)
      ⊎ ((create_copy (some args) true dup_ok).status ≡ err enomem)
        × ((create_copy (some args) true dup_ok).list ≡ no_args)
        × ((k : ℕ) × (k < length args) × (dup_ok k ≡ false))
unfolding create_copy failed_list
create_copy-args args dup_ok = elim (Bool-cases (copy_args dup_ok 0 args).1) [
  | inl made ↦ inl (
      let (same, all) = copy_args-made dup_ok 0 args made in
      (rw made refl, rw (made, same) refl, λ i b. all i (omega arith) (omega (arith, b))))
  | inr short ↦ inr (
      let (k, b, h) = copy_args-short dup_ok 0 args short in
      (rw short refl, rw short refl, (k, omega (arith, b), h)))
]
