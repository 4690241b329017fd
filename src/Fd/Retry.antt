-- ===== src/Fd/Retry.antt =====
-- Interruptions and waits do not change what a transfer comes to.
use libert.Base.{
  ℕ, zero, suc, ◌+◌, ◌-◌, ◌≤◌, ◌<◌, ◌≡◌, refl, ap, ◌∙◌, Bool, true, false, Option, none, List, [],
  ◌∷◌, ◌++◌, length, eintr, eagain, ok, err, ran, arith, Bool-cases, ◌⊎◌, inl, inr, lt→ltb,
}
use libert.Fd.Io.{
  Data, IoTurn, again, advance, check_turn, wait_turn, move_turn, io_turn, io_loop, write_fd,
  write_fd_deadline, read_fd, read_fd_deadline, has_timeout,
}
use libert.Fd.Transfer.{Next-cases}

module _ {A : Type 0} (size : A → ℕ) (timed : Bool) where
  -- The check of the deadline lets the turn transfer.
  abbrev pub IsPassed : IoTurn A → Type 0
  IsPassed t = (timed ≡ false) ⊎ ((n : ℕ) × (t.checked ≡ ok (suc n)))

  -- A turn that comes to nothing: the deadline's check is to be made again, or `read()` or `write()`
  -- is interrupted, or the descriptor is not ready and the wait for it returns.
  pub data IsRetry (t : IoTurn A) : Type 0 where
    unready : timed ≡ true → t.checked ≡ ok 0 → IsRetry t
    interrupted : IsPassed t → ((want : ℕ) → t.moved want ≡ err eintr) → IsRetry t
    blocked :
        IsPassed t
        → ((want : ℕ) → t.moved want ≡ err eagain)
        → (n : ℕ) → t.waited ≡ ok n
        → IsRetry t

  IsPassed-none :
      (t : IoTurn A) (sent : ℕ) → IsPassed t → check_turn size timed sent t.checked ≡ none
  unfolding check_turn
  IsPassed-none t sent (inl untimed) = rw (untimed, check_turn) refl
  IsPassed-none t sent (inr ready) = elim (Bool-cases timed) [
    | inl yes_timed ↦ rw (yes_timed, ready.1, lt→ltb 0 (suc ready.0) (omega arith)) refl
    | inr untimed ↦ rw (untimed, check_turn) refl
  ]

  IsRetry-again :
      (t : IoTurn A) (want sent : ℕ) → IsRetry t → io_turn size timed want sent t ≡ again
  unfolding io_turn move_turn wait_turn check_turn
  IsRetry-again t want sent (unready h wait) = rw (io_turn, h, wait) refl
  IsRetry-again t want sent (interrupted pass h) =
      rw (io_turn, IsPassed-none t sent pass, h want) refl
  IsRetry-again t want sent (blocked pass h n w) =
      rw (io_turn, IsPassed-none t sent pass, h want, w) refl

  -- Wherever it happens, a turn that comes to nothing leaves the result what it is without it.
  pub io_loop-retry :
      (before after : List (IoTurn A)) (t : IoTurn A) (want sent : ℕ) (pieces : List A)
      → IsRetry t
      → io_loop size timed (before ++ (t ∷ after)) want sent pieces
        ≡ io_loop size timed (before ++ after) want sent pieces
  unfolding io_loop
  io_loop-retry before after t zero sent pieces h = refl
  io_loop-retry [] [] t (suc want) sent pieces h =
      rw (io_loop, IsRetry-again t (suc want) sent h) refl
  io_loop-retry [] (u ∷ after) t (suc want) sent pieces h =
      rw (io_loop, IsRetry-again t (suc want) sent h) refl
  io_loop-retry (u ∷ before) after t (suc want) sent pieces h =
      elim (Next-cases size (io_turn size timed (suc want) sent u)) [
        | inl retry ↦ rw (io_loop, retry) (io_loop-retry before after t (suc want) sent pieces h)
        | inr (inl moves) ↦
            rw (io_loop, moves.1)
              (io_loop-retry before after t (suc want - size moves.0) (sent + size moves.0)
                (pieces ++ (moves.0 ∷ [])) h)
        | inr (inr (inl ends)) ↦ rw (io_loop, ends) refl
        | inr (inr (inr fails)) ↦ rw (io_loop, fails.1) refl
      ]

  -- Turns that come to nothing, and a number of turns that move at least a byte, if one is wanted.
  pub data Patient : List (IoTurn A) → ℕ → Type 0 where
    patient_end : Patient [] 0
    patient_retry :
        {t : IoTurn A} {turns : List (IoTurn A)} {n : ℕ}
        → IsRetry t
        → Patient turns n
        → Patient (t ∷ turns) n
    patient_move :
        {t : IoTurn A} {turns : List (IoTurn A)} {n : ℕ}
        → IsPassed t
        → ((want : ℕ) → 0 < want → (a : A) × (t.moved want ≡ ok a) × (0 < size a) × (size a ≤ want))
        → Patient turns n
        → Patient (t ∷ turns) (suc n)

  moves_piece :
      (t : IoTurn A) (want sent : ℕ) (a : A)
      → IsPassed t
      → t.moved want ≡ ok a
      → 0 < size a
      → io_turn size timed want sent t ≡ advance a
  unfolding io_turn move_turn
  moves_piece t want sent a pass h pos =
      rw (io_turn, IsPassed-none t sent pass, h, lt→ltb 0 (size a) pos) refl

  io_loop-Patient :
      {turns : List (IoTurn A)} {n : ℕ} (want sent : ℕ) (pieces : List A)
      → Patient turns n
      → want ≤ n
      → (out : List A) × (io_loop size timed turns want sent pieces ≡ ran out (sent + want))
  unfolding io_loop
  io_loop-Patient zero sent pieces p le = (pieces, ap (ran pieces) (omega arith))
  io_loop-Patient (suc want) sent pieces patient_end le = absurd (omega arith)
  io_loop-Patient (suc want) sent pieces (patient_retry {t} h p) le =
      let rest = io_loop-Patient (suc want) sent pieces p le in
      (rest.0, rw (io_loop, IsRetry-again t (suc want) sent h) rest.1)
  io_loop-Patient (suc want) sent pieces (patient_move {t} pass m p) le =
      let piece = m (suc want) (omega arith) in
      let rest =
        io_loop-Patient (suc want - size piece.0) (sent + size piece.0) (pieces ++ (piece.0 ∷ [])) p
          (omega (arith, piece.2)) in
      (
        rest.0,
        rw (io_loop, moves_piece t (suc want) sent piece.0 pass piece.1 piece.2)
            (rest.1 ∙ ap (ran rest.0) (omega (arith, piece.3))),
      )

-- `ert_writeFd()` writes the whole buffer if neither its deadline passes nor a call fails. Each turn
-- takes at least a byte, or comes to nothing: the deadline's check is to be made again, `write()` is
-- interrupted, or it is refused while the descriptor is not ready and the wait returns. Where there
-- is a timeout, each check in a turn that calls `write()` finds the descriptor ready. So many turns
-- that take a byte as the buffer has bytes are enough, with any number of the others.
pub write_fd-Patient :
    (timeout : Option ℕ) (turns : List (IoTurn ℕ)) (buf : Data) (n : ℕ)
    → Patient (λ k. k) (has_timeout timeout) turns n
    → length buf ≤ n
    → (out : List ℕ) × (write_fd timeout turns buf ≡ ran out (length buf))
unfolding write_fd write_fd_deadline
write_fd-Patient timeout turns buf n p le =
    let rest = io_loop-Patient (λ k. k) (has_timeout timeout) (length buf) 0 [] p le in
    (rest.0, rest.1 ∙ ap (ran rest.0) (omega arith))

-- `ert_readFd()` returns the same, bytes and errors, with a turn that comes to nothing as without it.
pub read_fd-retry :
    (timeout : Option ℕ) (before after : List (IoTurn Data)) (t : IoTurn Data) (len : ℕ)
    → IsRetry length (has_timeout timeout) t
    → read_fd timeout (before ++ (t ∷ after)) len ≡ read_fd timeout (before ++ after) len
unfolding read_fd read_fd_deadline
read_fd-retry timeout before after t len h =
    io_loop-retry length (has_timeout timeout) before after t len 0 [] h
