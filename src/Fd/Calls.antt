-- ===== src/Fd/Calls.antt =====
-- The calls that are repeated while they are interrupted, and locks.
use libert.Base.{
  ℕ, Bool, true, false, Option, none, some, List, [], ◌∷◌, ◌==◌, if◌then◌else◌, Errno, eintr, eio,
  Result, ok, err, Ran, ran, failed, stopped, starved, Outcome, done, abort,
}

abbrev pub einprogress : Errno
einprogress = 115

-- The loop around one call, over its replies.
unfoldable pub repeat {ℓ} : {A : Type ℓ} → List (Result A) → Ran (Unit {0}) A
repeat [] = starved
repeat (ok a ∷ replies) = ran tt a
repeat (err e ∷ replies) = let again = repeat replies in if e == eintr then again else failed tt e

-- `ert_openFd()` and `ert_ioctlFd()`
pub open_fd : List (Result ℕ) → Ran (Unit {0}) ℕ
unfolding repeat
open_fd replies = repeat replies

pub ioctl_fd : List (Result ℕ) → Ran (Unit {0}) ℕ
unfolding repeat
ioctl_fd replies = repeat replies

-- The loop of `ert_closeFd()`, over the replies of `close()`; any other error stops the process.
unfoldable pub close_loop : List (Result (Unit {0})) → Ran (Unit {0}) (Unit {0})
close_loop [] = starved
close_loop (ok _ ∷ replies) = ran tt tt
close_loop (err e ∷ replies) =
    let again = close_loop replies in
    if e == eintr then again else if e == einprogress then ran tt tt else stopped

-- `ert_closeFd()`, which returns -1 always; a descriptor of -1 is `none`.
unfoldable pub close_fd : Option ℕ → List (Result (Unit {0})) → Ran (Unit {0}) (Unit {0})
unfolding close_loop
close_fd none replies = ran tt tt
close_fd (some fd) replies = close_loop replies

-- `struct Ert_LockType`
pub data LockType : Type 0 where
  lock_error unlocked read_lock write_lock : LockType

-- What `flock()` and `fcntl()` are asked for: an exclusive lock, or none such.
exclusive : LockType → Option Bool
exclusive write_lock = some true
exclusive read_lock = some false
exclusive lock_error = none
exclusive unlocked = none

-- `ert_lockFd()` and `ert_lockFdRegion()`: the replies are those to a request for an exclusive lock
-- or a shared one; another type stops the process.
unfoldable pub lock_fd : LockType → (Bool → List (Result (Unit {0}))) → Ran (Unit {0}) (Unit {0})
unfolding repeat exclusive
lock_fd type replies = elim (exclusive type) [ none ↦ stopped | some kind ↦ repeat (replies kind) ]

pub lock_fd_region : LockType → (Bool → List (Result (Unit {0}))) → Ran (Unit {0}) (Unit {0})
unfolding repeat exclusive
lock_fd_region type replies = elim (exclusive type) [
  | none ↦ stopped
  | some kind ↦ repeat (replies kind)
]

-- The lock that `F_GETLK` finds, with its owner.
pub data Found : Type 0 where
  found_unlocked : Found
  found_read found_write : ℕ → Found
  found_other : Found

-- `ert_ownFdRegionLocked()`: the lock of another process, and the errno where it is an error.
unfoldable pub own_fd_region_locked : ℕ → Result Found → LockType × Option Errno
own_fd_region_locked self (err e) = (lock_error, some e)
own_fd_region_locked self (ok found_other) = (lock_error, some eio)
own_fd_region_locked self (ok found_unlocked) = (unlocked, none)
own_fd_region_locked self (ok (found_read pid)) =
    (if pid == self then unlocked else read_lock, none)
own_fd_region_locked self (ok (found_write pid)) =
    (if pid == self then unlocked else write_lock, none)

-- `ert_unlockFd()` and `ert_unlockFdRegion()`, which are not repeated.
pub unlock_fd : Result (Unit {0}) → Result (Unit {0})
unlock_fd reply = reply

pub unlock_fd_region : Result (Unit {0}) → Result (Unit {0})
unlock_fd_region reply = reply

-- `struct Ert_WhenceType`, and any value outside its enumeration.
pub data WhenceType : Type 0 where
  whence_other whence_start whence_here whence_end : WhenceType

-- `ert_lseekFd()`: what `lseek()` returns for SEEK_SET, SEEK_CUR and SEEK_END; another type stops the
-- process.
pub lseek_fd : WhenceType → Result ℕ → Result ℕ → Result ℕ → Outcome (Result ℕ)
lseek_fd whence_other set cur end = abort
lseek_fd whence_start set cur end = done set
lseek_fd whence_here set cur end = done cur
lseek_fd whence_end set cur end = done end
