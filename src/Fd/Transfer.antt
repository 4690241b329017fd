-- ===== src/Fd/Transfer.antt =====
-- What the transfer loops return: no byte is lost, none is counted twice, and no error hides one.
use libert.Base.{
  ℕ, zero, suc, ◌+◌, ◌-◌, ◌≤◌, ◌<◌, ◌≡◌, refl, sym, subst, ◌∙◌, Bool, true, false, Option, some,
  List, [], ◌∷◌, ◌++◌, length, All, nonzero, ◌==◌, eintr, eagain, Errno, Result, ok, err, Ran, ran,
  failed, stopped, starved, arith, Bool-cases, Option-cases, ◌⊎◌, inl, inr,
}
use mathlib.Core.Option.{some-injective, none-ne-some}
use libert.Fd.Io.{
  Data, IoTurn, Next, again, advance, leave, give_up, refuse, check_turn, wait_turn, move_turn,
  io_turn, io_loop, read_fd, write_fd, read_fd_deadline, write_fd_deadline, has_timeout,
}

module _ {A : Type 0} (size : A → ℕ) where
  abbrev pub total : List A → ℕ
  total [] = 0
  total (a ∷ rest) = size a + total rest

  -- The contract of `read()` and `write()`: no call moves more than it was asked to.
  abbrev pub Fits : IoTurn A → Type 0
  Fits t = (want : ℕ) (a : A) → t.moved want ≡ ok a → size a ≤ want

  total-last : (l : List A) (a : A) → total (l ++ (a ∷ [])) ≡ total l + size a
  total-last [] a = omega arith
  total-last (x ∷ l) a = omega (arith, total-last l a)

  pub Next-cases :
      (next : Next A)
      → (next ≡ again)
        ⊎ ((a : A) × (next ≡ advance a))
        ⊎ (next ≡ leave)
        ⊎ ((e : Errno) × (next ≡ give_up e))
  Next-cases again = inl refl
  Next-cases (advance a) = inr (inl (a, refl))
  Next-cases leave = inr (inr (inl refl))
  Next-cases (give_up e) = inr (inr (inr (e, refl)))

  -- A turn advances only by what a call moved, and gives up only at the start.
  abbrev IsNext : ℕ → ℕ → IoTurn A → Next A → Type 0
  IsNext want sent t again = Unit
  IsNext want sent t (advance a) = (t.moved want ≡ ok a) × (0 < size a)
  IsNext want sent t leave = Unit
  IsNext want sent t (give_up e) = sent ≡ 0

  refuse-IsNext :
      (want sent : ℕ) (t : IoTurn A) (e : Errno) → IsNext want sent t (refuse size sent e)
  unfolding refuse
  refuse-IsNext want sent t e = elim (Bool-cases (nonzero sent)) [
    | inl moved ↦ rw moved tt
    | inr none_moved ↦ rw none_moved (ground (arith, none_moved))
  ]

  wait_turn-IsNext :
      (want sent : ℕ) (t : IoTurn A) (w : Result ℕ) → IsNext want sent t (wait_turn size sent w)
  unfolding wait_turn
  wait_turn-IsNext want sent t (ok n) = tt
  wait_turn-IsNext want sent t (err e) = refuse-IsNext want sent t e

  move_turn-IsNext :
      (want sent : ℕ) (t : IoTurn A) (r : Result A)
      → t.moved want ≡ r
      → IsNext want sent t (move_turn size sent r t.waited)
  unfolding move_turn
  move_turn-IsNext want sent t (ok a) h = elim (Bool-cases (nonzero (size a))) [
    | inl some_bytes ↦ rw some_bytes (h, ground (arith, some_bytes))
    | inr none_bytes ↦ rw none_bytes tt
  ]
  move_turn-IsNext want sent t (err e) h = elim (Bool-cases (e == eintr)) [
    | inl interrupted ↦ rw interrupted tt
    | inr other ↦ elim (Bool-cases (e == eagain)) [
      | inl blocks ↦ rw (other, blocks) (wait_turn-IsNext want sent t t.waited)
      | inr fails ↦ rw (other, fails) (refuse-IsNext want sent t e)
    ]
  ]

  check_turn-IsNext :
      (timed : Bool) (want sent : ℕ) (t : IoTurn A) (c : Result ℕ) (next : Next A)
      → check_turn size timed sent c ≡ some next
      → IsNext want sent t next
  unfolding check_turn
  check_turn-IsNext false want sent t c next h = absurd cc
  check_turn-IsNext true want sent t (ok n) next h = elim (Bool-cases (nonzero n)) [
    | inl ready ↦ absurd (none-ne-some _ (sym (rw ready refl) ∙ h))
    | inr unready ↦
        let same : again ≡ next = some-injective _ _ (sym (rw unready refl) ∙ h) in
        subst (λ (x : Next A). IsNext want sent t x) same tt
  ]
  check_turn-IsNext true want sent t (err e) next h =
      subst (λ (x : Next A). IsNext want sent t x) (some-injective _ _ h)
        (refuse-IsNext want sent t e)

  io_turn-IsNext :
      (timed : Bool) (want sent : ℕ) (t : IoTurn A)
      → IsNext want sent t (io_turn size timed want sent t)
  unfolding io_turn
  io_turn-IsNext timed want sent t = elim (Option-cases (check_turn size timed sent t.checked)) [
    | inl passes ↦
        subst (λ (x : Next A). IsNext want sent t x) (sym (rw (io_turn, passes) refl))
          (move_turn-IsNext want sent t (t.moved want) refl)
    | inr ends ↦
        subst (λ (x : Next A). IsNext want sent t x) (sym (rw (io_turn, ends.1) refl))
          (check_turn-IsNext timed want sent t t.checked ends.0 ends.1)
  ]

  -- What the loop may return: the number of the bytes moved, at most what was wanted, or an error
  -- with no byte moved.
  abbrev pub IsTransfer : ℕ → Ran (List A) ℕ → Type 0
  IsTransfer len (ran pieces n) = (n ≡ total pieces) × (n ≤ len)
  IsTransfer len (failed pieces e) = pieces ≡ []
  IsTransfer len stopped = ⊥
  IsTransfer len starved = Unit

  carry : {n m : ℕ} {r r' : Ran (List A) ℕ} → m ≡ n → r ≡ r' → IsTransfer m r' → IsTransfer n r
  carry {n} {m} {r} {r'} hn hr h =
      subst (λ (k : ℕ). IsTransfer k r) hn
        (subst (λ (x : Ran (List A) ℕ). IsTransfer m x) (sym hr) h)

  io_loop-IsTransfer :
      (timed : Bool) (turns : List (IoTurn A)) (want sent : ℕ) (pieces : List A)
      → All Fits turns
      → sent ≡ total pieces
      → ((sent ≡ 0) → pieces ≡ [])
      → IsTransfer (sent + want) (io_loop size timed turns want sent pieces)
  unfolding io_loop
  io_loop-IsTransfer timed turns zero sent pieces fits h start = (h, omega arith)
  io_loop-IsTransfer timed [] (suc want) sent pieces fits h start = tt
  io_loop-IsTransfer timed (t ∷ turns) (suc want) sent pieces fits h start =
      let turn = io_turn-IsNext timed (suc want) sent t in
      elim (Next-cases (io_turn size timed (suc want) sent t)) [
        | inl retry ↦
            carry refl (rw (io_loop, retry) refl)
              (io_loop-IsTransfer timed turns (suc want) sent pieces fits.1 h start)
        | inr (inl moves) ↦
            let did = subst (λ (x : Next A). IsNext (suc want) sent t x) moves.1 turn in
            carry (omega (arith, fits.0 (suc want) moves.0 did.0)) (rw (io_loop, moves.1) refl) (
              io_loop-IsTransfer timed turns (suc want - size moves.0) (sent + size moves.0)
                (pieces ++ (moves.0 ∷ [])) fits.1 (omega (arith, h, total-last pieces moves.0))
                (λ none_sent. absurd (omega (arith, did.1, none_sent))))
        | inr (inr (inl ends)) ↦
            carry {r' = ran pieces sent} refl (rw (io_loop, ends) refl) (h, omega arith)
        | inr (inr (inr fails)) ↦
            carry {r' = failed pieces fails.0} refl (rw (io_loop, fails.1) refl)
              (start (subst (λ (x : Next A). IsNext (suc want) sent t x) fails.1 turn))
      ]

  io_loop-start :
      (timed : Bool) (turns : List (IoTurn A)) (len : ℕ)
      → All Fits turns
      → IsTransfer len (io_loop size timed turns len 0 [])
  io_loop-start timed turns len fits =
      carry (omega arith) refl
        (io_loop-IsTransfer timed turns len 0 [] fits refl (λ none_sent. refl))

-- `ert_readFd()` returns the number of the bytes that its calls of `read()` delivered, at most as
-- many as were asked for, or an error if none was delivered, whatever the calls reply and whether or
-- not it has a timeout, as long as `read()` delivers no more than it was asked for.
pub read_fd-IsTransfer :
    (timeout : Option ℕ) (turns : List (IoTurn Data)) (len : ℕ)
    → All (Fits length) turns
    → IsTransfer length len (read_fd timeout turns len)
unfolding read_fd read_fd_deadline
read_fd-IsTransfer timeout turns len fits =
    io_loop-start length (has_timeout timeout) turns len fits

-- The same of `ert_writeFd()` and its buffer.
pub write_fd-IsTransfer :
    (timeout : Option ℕ) (turns : List (IoTurn ℕ)) (buf : Data)
    → All (Fits (λ n. n)) turns
    → IsTransfer (λ n. n) (length buf) (write_fd timeout turns buf)
unfolding write_fd write_fd_deadline
write_fd-IsTransfer timeout turns buf fits =
    io_loop-start (λ n. n) (has_timeout timeout) turns (length buf) fits
