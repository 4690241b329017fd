-- ===== src/Fd/Io.antt =====
-- Reading and writing with a deadline, and reading to the end.
-- One turn of a loop has the returns of the calls that it makes: of the deadline's check, of
-- `read()` or `write()`, and of the wait that follows `EAGAIN`. A turn that does not come to a call
-- ignores its return. A transfer is given the number of bytes asked for. On Linux `EWOULDBLOCK` is `EAGAIN`.
use libert.Base.{
  ℕ, zero, suc, ◌+◌, ◌-◌, ◌*◌, Bool, true, false, Option, none, some, List, [], ◌∷◌, ◌++◌, length,
  nonzero, if◌then◌else◌, ◌==◌, Errno, eintr, eagain, enomem, Result, ok, err, Ran, ran, failed,
  starved,
}

abbrev pub Data : Type 0
Data = List ℕ

-- What one call of `read()` delivers or `write()` takes is an `A`: bytes, or their number.
pub record IoTurn (A : Type 0) : Type 0 where
  pub checked : Result ℕ
  pub moved : ℕ → Result A
  pub waited : Result ℕ

-- How the loop goes on after a part of a turn.
pub data Next (A : Type 0) : Type 0 where
  again : Next A
  advance : A → Next A
  leave : Next A
  give_up : Errno → Next A

module _ {A : Type 0} (size : A → ℕ) where
  -- An error is returned only while nothing has been transferred.
  unfoldable pub refuse : ℕ → Errno → Next A
  refuse sent e = if nonzero sent then leave else give_up e

  -- The part of a turn that a deadline has, if `aDeadline` is not null; `none` goes on to the transfer.
  unfoldable pub check_turn : Bool → ℕ → Result ℕ → Option (Next A)
  unfolding refuse
  check_turn false sent ready = none
  check_turn true sent (ok n) = if nonzero n then none else some again
  check_turn true sent (err e) = some (refuse sent e)

  -- The wait for readiness after `EAGAIN`.
  unfoldable pub wait_turn : ℕ → Result ℕ → Next A
  unfolding refuse
  wait_turn sent (ok n) = again
  wait_turn sent (err e) = refuse sent e

  -- The transfer, and what its result means.
  unfoldable pub move_turn : ℕ → Result A → Result ℕ → Next A
  unfolding wait_turn
  move_turn sent (ok a) waited = if nonzero (size a) then advance a else leave
  move_turn sent (err e) waited =
      if e == eintr then again else if e == eagain then wait_turn sent waited else refuse sent e

  unfoldable pub io_turn : Bool → ℕ → ℕ → IoTurn A → Next A
  unfolding check_turn move_turn
  io_turn timed want sent t = elim (check_turn timed sent t.checked) [
    | none ↦ move_turn sent (t.moved want) t.waited
    | some next ↦ next
  ]

  -- The loop, with the bytes that are wanted still and those that are done; the pieces transferred
  -- are kept in order.
  unfoldable pub io_loop : Bool → List (IoTurn A) → ℕ → ℕ → List A → Ran (List A) ℕ
  unfolding io_turn
  io_loop timed turns zero sent pieces = ran pieces sent
  io_loop timed [] (suc want) sent pieces = starved
  io_loop timed (t ∷ turns) (suc want) sent pieces = elim (io_turn timed (suc want) sent t) [
    | again ↦ io_loop timed turns (suc want) sent pieces
    | advance a ↦ io_loop timed turns (suc want - size a) (sent + size a) (pieces ++ (a ∷ []))
    | leave ↦ ran pieces sent
    | give_up e ↦ failed pieces e
  ]

-- `readFdDeadline_()`: the bytes that each `read()` delivered, and the number returned.
unfoldable pub read_fd_deadline : Bool → List (IoTurn Data) → ℕ → Ran (List Data) ℕ
unfolding io_loop
read_fd_deadline timed turns len = io_loop length timed turns len 0 []

-- `writeFdDeadline_()`: the number of bytes that each call took.
unfoldable pub write_fd_deadline : Bool → List (IoTurn ℕ) → Data → Ran (List ℕ) ℕ
unfolding io_loop
write_fd_deadline timed turns buf = io_loop (λ n. n) timed turns (length buf) 0 []

-- `readFd_()` and `writeFd_()`: there is a deadline where there is a timeout.
unfoldable pub has_timeout : {A : Type 0} → Option A → Bool
has_timeout none = false
has_timeout (some _) = true

unfoldable pub read_fd : Option ℕ → List (IoTurn Data) → ℕ → Ran (List Data) ℕ
unfolding read_fd_deadline has_timeout
read_fd timeout turns len = read_fd_deadline (has_timeout timeout) turns len

unfoldable pub write_fd : Option ℕ → List (IoTurn ℕ) → Data → Ran (List ℕ) ℕ
unfolding write_fd_deadline has_timeout
write_fd timeout turns buf = write_fd_deadline (has_timeout timeout) turns buf

-- One turn of `ert_readFdFully()`: what `realloc()` returns if it is called, and what
-- `ert_readFd()` returns, given what has been read and the room in the buffer.
pub record FullyTurn : Type 0 where
  pub allocated : Bool
  pub delivered : ℕ → ℕ → Result Data

-- The size of the buffer before a read: it is doubled where it is full.
unfoldable pub grow : ℕ → ℕ → ℕ
grow first len = if nonzero len then 2 * len else first

-- The size that the turn reads into; `none` where `realloc()` fails.
unfoldable pub make_room : ℕ → FullyTurn → ℕ → ℕ → Option ℕ
unfolding grow
make_room first t len used =
    if nonzero (len - used) then some len else if t.allocated then some (grow first len) else none

-- `ert_readFdFully()`, over a buffer of `len` bytes of which `bytes` are filled. `first` is the size
-- that it starts with, which is not 0: `aBufSize`, or the page size if that is 0, but 1 in the test mode for races.
unfoldable pub fully_loop : ℕ → List FullyTurn → ℕ → Data → Ran (Unit {0}) Data
unfolding make_room
fully_loop first [] len bytes = starved
fully_loop first (t ∷ turns) len bytes = elim (make_room first t len (length bytes)) [
  | none ↦ failed tt enomem
  | some len' ↦ elim (t.delivered (length bytes) (len' - length bytes)) [
    | err e ↦ failed tt e
    | ok got ↦
        let more = fully_loop first turns len' (bytes ++ got) in
        if nonzero (length got) then more else ran tt bytes
  ]
]

unfoldable pub read_fd_fully : Bool → ℕ → ℕ → List FullyTurn → Ran (Unit {0}) Data
unfolding fully_loop
read_fd_fully race buf_size page_size turns =
    fully_loop (if race then 1 else if nonzero buf_size then buf_size else page_size) turns 0 []
