-- ===== src/Parse/Args.antt =====
-- `struct Ert_ParseArgList`: the words of a comma separated text, or a copy of an argument vector.
-- `strdup()` and `malloc()` succeed or not as their arguments say; the blocks that they give are counted.
use libert.Base.{
  ℕ, zero, suc, ◌+◌, ◌-◌, Bool, true, false, ◌&&◌, Option, none, some, List, [], ◌∷◌, length, ◌==◌,
  if◌then◌else◌, Outcome, done, ◌>>=◌, ◌>>◌, ensure, enomem, Result, ok, err,
}
use libert.Parse.{Text, is_space, is_empty}

-- `mArgs` is the block with the words of a text, or null; `mArgv` is null, or the words that it points
-- at up to its null pointer.
pub record ArgList : Type 0 where
  pub args : Bool
  pub argv : Option (List Text)
  pub argc : ℕ

abbrev pub no_args : ArgList
no_args = record { args = false; argv = none; argc = 0 }

-- `free()` of a block that may be null, in blocks.
abbrev pub blocks_of : Bool → ℕ
blocks_of b = if b then 1 else 0

-- `ert_closeParseArgList()`: the number of blocks that it frees. The words of a copy are blocks of
-- their own.
unfoldable pub free_argv : Bool → Option (List Text) → ℕ
free_argv args none = 0
free_argv true (some argv) = 1
free_argv false (some argv) = length argv + 1

unfoldable pub close_arg_list : ArgList → ℕ
unfolding free_argv
close_arg_list list = free_argv list.args list.argv + blocks_of list.args

abbrev pub comma : ℕ
comma = b','

-- The loop that counts the separators.
unfoldable pub count_words : ℕ → Text → ℕ
count_words wordcount [] = wordcount
count_words wordcount (c ∷ cs) = count_words (if c == comma then wordcount + 1 else wordcount) cs

unfoldable pub skip_spaces : Text → Text
skip_spaces [] = []
skip_spaces (c ∷ cs) = let rest = skip_spaces cs in if is_space c then rest else c ∷ cs

-- From the head of a word, what stands before the separator, and what follows it.
unfoldable pub split_word : Text → Text × Text
split_word [] = ([], [])
split_word (c ∷ cs) =
    let rest = split_word cs in if c == comma then ([], cs) else (c ∷ rest.0, rest.1)

-- The tail moves back over spaces, as far as the head.
unfoldable pub trim_tail : Text → Text
trim_tail [] = []
trim_tail (c ∷ cs) = let rest = trim_tail cs in if is_empty rest && is_space c then [] else c ∷ rest

-- The loop over the words: it ends when as many have been found as were counted.
unfoldable pub split_words : ℕ → Text → Outcome (List Text)
unfolding skip_spaces split_word trim_tail
split_words zero chptr = done []
split_words (suc zero) chptr =
    let (word, rest) = split_word (skip_spaces chptr) in
    ensure (is_empty rest) >> done (trim_tail word ∷ [])
split_words (suc (suc n)) chptr = do
  let (word, rest) = split_word (skip_spaces chptr)
  words ← split_words (suc n) rest
  done (trim_tail word ∷ words)

-- One word that is empty is no word.
unfoldable pub no_empty_word : List Text → List Text
no_empty_word ([] ∷ []) = []
no_empty_word words = words

-- What a creation returns, with the list and the number of blocks in use.
pub record Created : Type 0 where
  pub status : Result (Unit {0})
  pub list : ArgList
  pub blocks : ℕ

-- A creation that fails closes the list.
unfoldable pub failed_list : ArgList → ℕ → Created
unfolding close_arg_list
failed_list list blocks = record {
  status = err enomem;
  list = list;
  blocks = blocks - close_arg_list list;
}

-- `ert_createParseArgListCSV()`
unfoldable pub create_csv : Option Text → Bool → Bool → Outcome Created
unfolding count_words split_words no_empty_word failed_list
create_csv none dup_ok malloc_ok = done (record { status = ok tt; list = no_args; blocks = 0 })
create_csv (some arg) false malloc_ok = done (failed_list no_args 0)
create_csv (some arg) true false =
    done (failed_list (record { args = true; argv = none; argc = 0 }) 1)
create_csv (some arg) true true = do
  words ← split_words (count_words 1 arg) arg
  ensure (length words == count_words 1 arg)
  let argv = no_empty_word words
  done (record {
    status = ok tt;
    list = record { args = true; argv = some argv; argc = length argv };
    blocks = 2;
  })

-- The loop that copies the strings: the copies made, and whether none has failed. `dup_ok` says for
-- each call of `strdup()` whether it succeeds.
unfoldable pub copy_args : (ℕ → Bool) → ℕ → List Text → List Text × Bool
copy_args dup_ok ax [] = ([], true)
copy_args dup_ok ax (arg ∷ args) =
    let rest = copy_args dup_ok (ax + 1) args in
    if dup_ok ax then (arg ∷ rest.0, rest.1) else ([], false)

-- The copies made are freed one by one up to the null pointer behind them, and then the vector.
unfoldable pub free_vector : List Text → ℕ
free_vector [] = 1
free_vector (arg ∷ args) = free_vector args + 1

-- `ert_createParseArgListCopy()`: `argv` is a variable of its own until all strings are copied, and is
-- freed where they are not.
unfoldable pub create_copy : Option (List Text) → Bool → (ℕ → Bool) → Created
unfolding copy_args failed_list free_vector
create_copy none malloc_ok dup_ok = record { status = ok tt; list = no_args; blocks = 0 }
create_copy (some args) false dup_ok = failed_list no_args 0
create_copy (some args) true dup_ok =
    let (copies, all_made) = copy_args dup_ok 0 args in
    if all_made
    then record {
      status = ok tt;
      list = record { args = false; argv = some copies; argc = length copies };
      blocks = length copies + 1;
    }
    else record (failed_list no_args (length copies + 1)) {
      blocks = (failed_list no_args (length copies + 1)).blocks - free_vector copies;
    }
