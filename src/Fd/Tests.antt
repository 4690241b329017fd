-- ===== src/Fd/Tests.antt =====
-- The transfer loops and the sweeps on concrete replies.
use libert.Base.{
  ◌-◌, ◌^◌, stopped, ℕ, ◌≡◌, refl, ◌&&◌, not, Bool, true, false, none, some, List, [], ◌∷◌, map,
  length, ltb, leb, ◌==◌, if◌then◌else◌, eintr, eio, ebadf, done, ok, err, ran, arith, le→ltb, inr,
}
use libert.FdSet.Range.{FdRange}
use libert.FdSet.Valid.{contains}
use libert.Fd.Wait.{Wait, wait_fd_ready, poll_hup}
use libert.Fd.Ready.{quiet_turn, wait_fd_ready-quiet, wait_fd_ready-unasked}
use libert.Fd.Flags.{o_nonblock, non_blocking_fd, unshared}
use mathlib.Core.List.{Permᴰ}
use libert.Parse.{ℤ, pos, negsuc}
use libert.Fd.Sweep.{
  visit_white_list, white_list_visitor, white_list_end, close_span, close_rest, limit_range,
  close_valid, own_fd_valid,
}
use libert.Fd.Listed.{
  close_fd_descriptors, close_below, check_list, list_loop, skip_same, open_std_fds, open_missing,
  open_outputs,
}
use libert.Fd.Listed.Kept.{listed, open_std_fds-those}
use libert.Fd.Listed.Whole.{close_fd_descriptors-those}
use libert.Fd.Io.{
  Data, IoTurn, io_loop, io_turn, check_turn, move_turn, wait_turn, refuse, read_fd,
  read_fd_deadline, write_fd, read_fd_fully, has_timeout,
}
use libert.Fd.Transfer.{IsTransfer, read_fd-IsTransfer}
use libert.Fd.Retry.{
  Patient, patient_end, patient_retry, patient_move, interrupted, write_fd-Patient,
}
use libert.Fd.Fully.{file_turn, read_fd_fully-file}
use libert.Fd.Sweep.{close_fd_except_white_list, close_fd_only_black_list}
use libert.Fd.Swept.{those, replies, close_fd_except_white_list-those}
use libert.Fd.Blacklisted.{close_fd_only_black_list-those}

-- A call that is interrupted, and one that moves a byte.
abbrev interruption : {A : Type 0} → IoTurn A
interruption = record { checked = ok 1; moved = λ want. err eintr; waited = ok 1 }

abbrev broken_call : {A : Type 0} → IoTurn A
broken_call = record { checked = ok 1; moved = λ want. err eio; waited = ok 1 }

abbrev one_byte : IoTurn ℕ
one_byte = record { checked = ok 1; moved = λ want. ok 1; waited = ok 1 }

-- Two bytes arrive, and then the device breaks: the bytes are returned.
abbrev two_bytes : IoTurn Data
two_bytes = record { checked = ok 1; moved = λ want. ok (7 ∷ 8 ∷ []); waited = ok 1 }

broken_after_two :
    read_fd none (interruption ∷ two_bytes ∷ broken_call ∷ []) 5 ≡ ran ((7 ∷ 8 ∷ []) ∷ []) 2
unfolding read_fd read_fd_deadline io_loop io_turn check_turn move_turn wait_turn refuse has_timeout
broken_after_two = refl

read_fd-IsTransfer_example :
    IsTransfer length 5 (read_fd (some 9) (interruption ∷ broken_call ∷ []) 5)
read_fd-IsTransfer_example =
    read_fd-IsTransfer (some 9) (interruption ∷ broken_call ∷ []) 5
      ((λ want a h. absurd cc), ((λ want a h. absurd cc), tt))

patience : Patient (λ k. k) true (one_byte ∷ interruption ∷ one_byte ∷ []) 2
patience =
    patient_move (inr (0, refl)) (λ want pos. (1, refl, omega arith, pos))
      (patient_retry (interrupted (inr (0, refl)) (λ want. refl))
        (patient_move (inr (0, refl)) (λ want pos. (1, refl, omega arith, pos)) patient_end))

write_fd-Patient_example :
    (out : List ℕ) × (write_fd (some 9) (one_byte ∷ interruption ∷ one_byte ∷ []) (b'a' ∷ b'b' ∷ [])
      ≡ ran out 2)
unfolding has_timeout
write_fd-Patient_example =
    write_fd-Patient (some 9) (one_byte ∷ interruption ∷ one_byte ∷ []) (b'a' ∷ b'b' ∷ []) 2
      patience (omega arith)

read_fd_fully-file_example :
    read_fd_fully false 2 4096 (map (file_turn (5 ∷ 6 ∷ 7 ∷ [])) (0 ∷ 9 ∷ 0 ∷ 0 ∷ []))
    ≡ ran tt (5 ∷ 6 ∷ 7 ∷ [])
read_fd_fully-file_example =
    read_fd_fully-file false 2 4096 (5 ∷ 6 ∷ 7 ∷ []) (0 ∷ 9 ∷ 0 ∷ 0 ∷ []) (omega arith)
      (omega arith)

-- 0 to 4 are open, and 1 and 2 are in the set.
abbrev is_open : ℕ → Bool
is_open fd = ltb fd 5

abbrev set : List FdRange
set = record { lhs = 1; rhs = 2 } ∷ []

kept_open : those (λ fd. is_open fd && not (contains set fd)) 8 0 ≡ 0 ∷ 3 ∷ 4 ∷ []
kept_open = refl

close_fd_except_white_list-those_example :
    close_fd_except_white_list (replies is_open) (ok 8) set
    ≡ ran (those (λ fd. is_open fd && not (contains set fd)) 8 0) tt
close_fd_except_white_list-those_example =
    close_fd_except_white_list-those is_open 8 set (omega arith) (omega arith)

close_fd_only_black_list-those_example :
    close_fd_only_black_list (replies is_open) (ok 8) set
    ≡ ran (those (λ fd. is_open fd && contains set fd) 8 0) tt
close_fd_only_black_list-those_example =
    close_fd_only_black_list-those is_open 8 (λ x h. le→ltb x 5 (omega arith)) set (omega arith)

-- A pipe that is quiet for 5 ms, after an interruption.
wait_fd_ready-quiet_example :
    (w : Wait) × (wait_fd_ready 1
        (some 5000000)
        0
        (map (quiet_turn 0) ((1000, false) ∷ (3000000, true) ∷ (5001000, false) ∷ []))
      ≡ ran w 0)
wait_fd_ready-quiet_example =
    wait_fd_ready-quiet 1 5000000 1000 false ((3000000, true) ∷ (5001000, false) ∷ []) 0
      (omega arith) (omega arith) (omega arith) (omega arith)
      ((omega arith, omega arith), ((omega arith, omega arith), tt))

-- The writers of a pipe are gone.
wait_fd_ready-unasked_example :
    (w : Wait) × (wait_fd_ready 1 (some 5000000) 0 (
        record { time = done 1000; raced = ok poll_hup; count = 0; polled = λ ms. ok poll_hup }
        ∷ [])
      ≡ ran w 0)
wait_fd_ready-unasked_example =
    wait_fd_ready-unasked 1 5000000 1000 poll_hup [] 0 (omega arith) (omega arith) (omega arith)
      (omega arith) (omega arith) refl

shared_refused : non_blocking_fd o_nonblock 2 (ok tt) (ok 0) (ok tt) ≡ (err ebadf, 2)
unfolding non_blocking_fd unshared
shared_refused = refl

-- An order of a list, by insertion.
abbrev rank_le : ℤ → ℤ → Bool
rank_le (negsuc a) (negsuc b) = leb b a
rank_le (negsuc a) (pos b) = true
rank_le (pos a) (negsuc b) = false
rank_le (pos a) (pos b) = leb a b

abbrev insert : ℤ → List ℤ → List ℤ
insert w [] = w ∷ []
insert w (v ∷ ws) = let rest = insert w ws in if rank_le w v then w ∷ v ∷ ws else v ∷ rest

abbrev sort : List ℤ → List ℤ
sort [] = []
sort (w ∷ ws) = insert w (sort ws)

close_fd_descriptors-those_example :
    close_fd_descriptors (replies is_open) sort (ok 8) (pos 3 ∷ negsuc 0 ∷ [])
    ≡ ran (those (λ fd. is_open fd && not (listed fd (pos 3 ∷ negsuc 0 ∷ []))) 8 0) tt
close_fd_descriptors-those_example =
    close_fd_descriptors-those is_open 8 sort (pos 3) (negsuc 0 ∷ []) (omega arith)
      (refl, (refl, tt)) (Permᴰ.swap refl refl) ((tt, (tt, tt)), ((omega arith, tt), (tt, tt)))

-- Repeated descriptors in any order.
repeated :
    close_fd_descriptors
      (replies is_open)
      sort
      (ok 8)
      (pos 3 ∷ pos 1 ∷ negsuc 4 ∷ pos 3 ∷ pos 1 ∷ [])
    ≡ ran (0 ∷ 2 ∷ 4 ∷ []) tt
unfolding close_fd_descriptors close_below check_list list_loop skip_same close_valid own_fd_valid
repeated = refl

open_std_fds-those_example :
    (open_std_fds (λ fd. ok (fd == 0)) (λ fd. ok tt) (ok tt)).1 ≡ those (λ fd. not (fd == 0)) 3 0
unfolding open_std_fds open_missing open_outputs
open_std_fds-those_example = open_std_fds-those (λ fd. fd == 0) (λ fd. ok tt) (ok tt) refl

-- Without a limit of descriptors (RLIM_INFINITY) both sweeps stop the process.
unlimited_set : close_fd_except_white_list (replies is_open) (ok (2 ^ 64 - 1)) set ≡ stopped
unfolding close_fd_except_white_list visit_white_list white_list_visitor white_list_end close_span
    close_valid close_rest limit_range own_fd_valid
unlimited_set = refl

unlimited_list :
    close_fd_descriptors (replies is_open) sort (ok (2 ^ 64 - 1)) (pos 3 ∷ []) ≡ stopped
unfolding close_fd_descriptors close_below check_list
unlimited_list = refl
