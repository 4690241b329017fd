-- ===== src/Fd/Listed.antt =====
-- Closing all descriptors but those of a list, and opening the standard ones. `flags` is what
-- `fcntl(fd, F_GETFL)` returns for each descriptor.
pub mod Kept
pub mod Closed
pub mod Whole
use libert.Base.{
  ℕ, zero, suc, ◌+◌, Bool, true, false, ◌&&◌, not, List, [], ◌∷◌, ◌++◌, length, ltb, ◌==◌,
  if◌then◌else◌, Errno, Outcome, done, abort, ensure, ◌>>◌, Result, ok, err, Ran, ran, failed,
  stopped, starved, then_run, within,
}
use libert.Parse.{ℤ, pos, negsuc, to_int}
use libert.Fd.Sweep.{Sweep, close_valid}

-- The duplicates of a descriptor that is kept.
unfoldable pub skip_same : ℕ → List ℤ → List ℤ
skip_same w [] = []
skip_same w (negsuc m ∷ ws) = negsuc m ∷ ws
skip_same w (pos x ∷ ws) = let rest = skip_same w ws in if x == w then rest else pos x ∷ ws

-- `whiteList[aWhiteListLen] > whiteList[ix]`
abbrev pub is_below : ℤ → ℤ → Bool
is_below (pos limit) (pos x) = ltb x limit
is_below (pos limit) (negsuc m) = true
is_below (negsuc l) (pos x) = false
is_below (negsuc l) (negsuc m) = ltb l m

unfoldable pub check_list : ℤ → List ℤ → Outcome (Unit {0})
check_list limit [] = done tt
check_list limit (w ∷ ws) = ensure (is_below limit w) >> check_list limit ws

-- Fuel for the loop: a round for each descriptor up to the last element, and for each element.
abbrev pub rounds : ℤ → ℕ → ℕ
rounds (pos limit) len = limit + len + 2
rounds (negsuc l) len = len + 2

module _ (flags : ℕ → Result ℕ) where
  -- The loop over the sorted list, on fuel.
  unfoldable pub list_loop : ℕ → ℕ → List ℤ → List ℕ → Sweep (Unit {0})
  unfolding close_valid skip_same
  list_loop fuel fd [] closed = ran closed tt
  list_loop zero fd (w ∷ ws) closed = starved
  list_loop (suc fuel) fd (negsuc m ∷ ws) closed = list_loop fuel fd ws closed
  list_loop (suc fuel) fd (pos w ∷ ws) closed = elim (fd == w) [
    | true ↦ list_loop fuel (suc fd) (skip_same w ws) closed
    | false ↦
        then_run (close_valid flags fd closed)
          (λ closed' _. list_loop fuel (suc fd) (pos w ∷ ws) closed')
  ]

  -- Its part from where the last element of the list is known.
  unfoldable pub close_below : (List ℤ → List ℤ) → ℤ → List ℤ → Sweep (Unit {0})
  unfolding check_list list_loop
  close_below qsort last ws =
      within (check_list last ws)
        (λ _. list_loop (rounds last (length ws)) 0 (qsort (ws ++ (last ∷ []))) [])

  -- `ert_closeFdDescriptors()`: an empty list closes nothing. The limit is `rlim_cur`, of 64 bits, which
  -- the last element of the list has as an `int`, and qsort() is a parameter.
  unfoldable pub close_fd_descriptors : (List ℤ → List ℤ) → Result ℕ → List ℤ → Sweep (Unit {0})
  unfolding close_below
  close_fd_descriptors qsort limit [] = ran [] tt
  close_fd_descriptors qsort (err e) (w ∷ ws) = failed [] e
  close_fd_descriptors qsort (ok limit) (w ∷ ws) = close_below qsort (to_int (pos limit)) (w ∷ ws)

-- What a call returns, and the descriptors it has opened.
abbrev pub Opened : Type 0
Opened = Result (Unit {0}) × List ℕ

-- The call that opens a descriptor, and what follows where it succeeds.
abbrev pub then_open : ℕ → Result (Unit {0}) → Opened → Opened
then_open fd (err e) next = (err e, [])
then_open fd (ok _) next = (next.0, fd ∷ next.1)

-- The rest of `ert_openStdFds()` where it is known which of the three are open: what `openBlockedFd_()`
-- returns for each, and what the duplicate of 1 onto 2 does.
unfoldable pub open_outputs : Bool → Bool → (ℕ → Result (Unit {0})) → Result (Unit {0}) → Opened
open_outputs true true blocked dup = (ok tt, [])
open_outputs true false blocked dup = then_open 2 (blocked 2) (ok tt, [])
open_outputs false true blocked dup = then_open 1 (blocked 1) (ok tt, [])
open_outputs false false blocked dup = then_open 1 (blocked 1) (then_open 2 dup (ok tt, []))

unfoldable pub open_missing :
    Bool → Bool → Bool → (ℕ → Result (Unit {0})) → Result (Unit {0}) → Opened
unfolding open_outputs
open_missing stdin stdout stderr blocked dup =
    let outputs = open_outputs stdout stderr blocked dup in
    if stdin then outputs else then_open 0 (blocked 0) outputs

-- `ert_openStdFds()`: what `ert_ownFdValid()` returns for each.
unfoldable pub open_std_fds :
    (ℕ → Result Bool) → (ℕ → Result (Unit {0})) → Result (Unit {0}) → Opened
unfolding open_missing
open_std_fds valid blocked dup = elim (valid 0) [
  | err e ↦ (err e, [])
  | ok stdin ↦ elim (valid 1) [
    | err e ↦ (err e, [])
    | ok stdout ↦ elim (valid 2) [
      | err e ↦ (err e, [])
      | ok stderr ↦ open_missing stdin stdout stderr blocked dup
    ]
  ]
]
