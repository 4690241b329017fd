-- ===== src/Fd/Flags.antt =====
-- The flags of a descriptor, and its duplicates. A flag is one bit of a word of flags.
use libert.Base.{
  ℕ, ◌+◌, ◌-◌, ◌*◌, ◌/◌, ◌%◌, Bool, true, false, not, ◌||◌, Option, none, some, List, [], ◌∷◌, ◌==◌,
  nonzero, if◌then◌else◌, Errno, einval, ebadf, Result, ok, err,
}

abbrev pub fd_cloexec : ℕ
fd_cloexec = 1

abbrev pub o_cloexec : ℕ
o_cloexec = 0x80000

abbrev pub o_nonblock : ℕ
o_nonblock = 0x800

-- `word & bit`, and `word & ~ bit`
abbrev pub has_bit : ℕ → ℕ → Bool
has_bit word bit = nonzero (word / bit % 2)

abbrev pub without : ℕ → ℕ → ℕ
without word bit = word - word / bit % 2 * bit

-- `(word & ~ bit) | (bit if on)`
abbrev pub with_bit : ℕ → ℕ → Bool → ℕ
with_bit word bit on = without word bit + (if on then bit else 0)

-- What a call returns, with the flags that the descriptor has then.
abbrev pub Flagged : Type 0
Flagged = Result (Unit {0}) × ℕ

-- A call of `fcntl()` that sets the flags.
abbrev pub set_flags : Result (Unit {0}) → ℕ → ℕ → Flagged
set_flags (ok _) prev next = (ok tt, next)
set_flags (err e) prev next = (err e, prev)

-- A request for a flag is the flag of `open()`, or 0.
abbrev pub is_request : ℕ → ℕ → Bool
is_request flag request = request == 0 || request == flag

-- `ert_closeFdOnExec()`: the flags are those before the call, `getfd` is what reading them returns
-- and `setfd` what setting them does.
unfoldable pub close_fd_on_exec : ℕ → ℕ → Result (Unit {0}) → Result (Unit {0}) → Flagged
close_fd_on_exec request flags getfd setfd =
    if not (is_request o_cloexec request) then (err einval, flags) else elim getfd [
      | err e ↦ (err e, flags)
      | ok _ ↦
          let next = with_bit flags fd_cloexec (nonzero request) in
          if flags == next then (ok tt, flags) else set_flags setfd flags next
    ]

-- The guard of `ert_nonBlockingFd()`: a descriptor that is to be non-blocking must not be shared.
unfoldable pub unshared : Bool → Result ℕ → Result (Unit {0})
unshared false getfd = ok tt
unshared true (err e) = err e
unshared true (ok flags) = if has_bit flags fd_cloexec then ok tt else err ebadf

-- `ert_nonBlockingFd()`, on the status flags; `getfd` has the descriptor's flags.
unfoldable pub non_blocking_fd : ℕ → ℕ → Result (Unit {0}) → Result ℕ → Result (Unit {0}) → Flagged
unfolding unshared
non_blocking_fd request status getfl getfd setfl =
    if not (is_request o_nonblock request) then (err einval, status) else elim getfl [
      | err e ↦ (err e, status)
      | ok _ ↦
          let next = with_bit status o_nonblock (nonzero request) in
          if status == next then (ok tt, status) else elim (unshared (nonzero request) getfd) [
            | err e ↦ (err e, status)
            | ok _ ↦ set_flags setfl status next
          ]
    ]

-- `ert_ownFdNonBlocking()` and `ert_ownFdCloseOnExec()`
unfoldable pub own_fd_non_blocking : Result ℕ → Result Bool
own_fd_non_blocking (ok status) = ok (has_bit status o_nonblock)
own_fd_non_blocking (err e) = err e

unfoldable pub own_fd_close_on_exec : Result ℕ → Result Bool
own_fd_close_on_exec (ok flags) = ok (has_bit flags fd_cloexec)
own_fd_close_on_exec (err e) = err e

-- How a descriptor is duplicated, and whether the duplicate is closed on exec.
pub data Duplicate : Type 0 where
  to_any : Bool → Duplicate
  to_same : Duplicate
  to_target : ℕ → Bool → Duplicate

-- `ert_duplicateFd()`; a target of -1 is `none`. What the call for the duplicate returns is a
-- function of the call.
unfoldable pub duplicate_fd :
    ℕ → Option ℕ → Result ℕ → (Duplicate → Result ℕ) → Result ℕ × Option Duplicate
unfolding own_fd_close_on_exec
duplicate_fd fd target getfd dup = elim (own_fd_close_on_exec getfd) [
  | err e ↦ (err e, none)
  | ok cloexec ↦ elim target [
    | none ↦ (dup (to_any cloexec), some (to_any cloexec))
    | some t ↦
        if fd == t
        then (ok t, some to_same)
        else (dup (to_target t cloexec), some (to_target t cloexec))
  ]
]

-- The duplicate onto a target, which is expected to be that target; `errno` is what is reported if
-- it is another one.
unfoldable pub replace_fd : ℕ → ℕ → Errno → Result ℕ → (Duplicate → Result ℕ) → Result (Unit {0})
unfolding duplicate_fd
replace_fd fd target errno getfd dup = elim (duplicate_fd fd (some target) getfd dup).0 [
  | err e ↦ err e
  | ok other ↦ if target == other then ok tt else err errno
]

-- `ert_nullifyFd()`: what opening /dev/null returns, and the duplicate of that onto the descriptor; and
-- the descriptors that are closed.
unfoldable pub nullify_fd :
    ℕ
    → Errno
    → Result ℕ
    → (Bool → Result ℕ)
    → Result ℕ
    → (Duplicate → Result ℕ)
    → Result (Unit {0}) × List ℕ
unfolding own_fd_close_on_exec replace_fd
nullify_fd fd errno getfd open_null null_getfd dup = elim (own_fd_close_on_exec getfd) [
  | err e ↦ (err e, [])
  | ok cloexec ↦ elim (open_null cloexec) [
    | err e ↦ (err e, [])
    | ok null ↦
        if null == fd then (ok tt, []) else (replace_fd null fd errno null_getfd dup, null ∷ [])
  ]
]

-- `openBlockedFd_()`: what `pipe2()` returns; the end of the pipe that is selected takes the place of the
-- descriptor, and the descriptors that are closed.
unfoldable pub open_blocked_fd :
    Bool
    → ℕ
    → Errno
    → Result (ℕ × ℕ)
    → Result ℕ
    → (Duplicate → Result ℕ)
    → Result (Unit {0}) × List ℕ
unfolding replace_fd
open_blocked_fd selector fd errno (err e) getfd dup = (err e, [])
open_blocked_fd selector fd errno (ok pipe) getfd dup =
    let selected = if selector then pipe.1 else pipe.0 in
    let unselected = if selector then pipe.0 else pipe.1 in
    if fd == selected
    then (ok tt, unselected ∷ [])
    else (replace_fd selected fd errno getfd dup, unselected ∷ selected ∷ [])
