-- ===== src/Fd/Flagged.antt =====
-- What the calls do to the flags of descriptors, and which descriptors they leave open.
use libert.Base.{
  ℕ, ◌≡◌, refl, sym, ap, subst, ==→eq, Bool, true, false, ◌==◌, nonzero, if◌then◌else◌, Result, ok,
  err, einval, arith, Bool-cases, Result-cases, inl, inr,
}
use libert.Fd.Flags.{
  fd_cloexec, o_nonblock, o_cloexec, has_bit, without, with_bit, Flagged, set_flags, is_request,
  close_fd_on_exec, unshared, non_blocking_fd,
}

-- What the flags are after a request for a flag: as asked for, the others unchanged; or an error, with
-- all unchanged.
abbrev pub IsApplied : ℕ → Bool → ℕ → Flagged → Type 0
IsApplied bit on before (ok _, after) =
    (has_bit after bit ≡ on) × (without after bit ≡ without before bit)
IsApplied bit on before (err e, after) = after ≡ before

cloexec-IsApplied :
    (word : ℕ) (on : Bool) → IsApplied fd_cloexec on word (ok tt, with_bit word fd_cloexec on)
cloexec-IsApplied word true = (ground arith, omega arith)
cloexec-IsApplied word false = (ground arith, omega arith)

nonblock-IsApplied :
    (word : ℕ) (on : Bool) → IsApplied o_nonblock on word (ok tt, with_bit word o_nonblock on)
nonblock-IsApplied word true = (ground arith, omega arith)
nonblock-IsApplied word false = (ground arith, omega arith)

carry :
    (bit before : ℕ) (on : Bool) {r r' : Flagged}
    → r ≡ r'
    → IsApplied bit on before r'
    → IsApplied bit on before r
carry bit before on e h = subst (λ (x : Flagged). IsApplied bit on before x) (sym e) h

-- A word that has its flags already, or has them set.
settle-IsApplied :
    (bit before after : ℕ) (on : Bool) (setfd : Result (Unit {0}))
    → IsApplied bit on before (ok tt, after)
    → IsApplied bit on before
        (if before == after then (ok tt, before) else set_flags setfd before after)
settle-IsApplied bit before after on setfd h = elim (Bool-cases (before == after)) [
  | inl same ↦
      carry bit before on {r' = (ok tt, after)}
        (rw same (ap (λ (k : ℕ). (ok tt, k)) (==→eq before after same))) h
  | inr other ↦ carry bit before on (rw other refl) (set_flags-IsApplied setfd)
]
  where
    set_flags-IsApplied :
        (r : Result (Unit {0})) → IsApplied bit on before (set_flags r before after)
    set_flags-IsApplied (ok _) = h
    set_flags-IsApplied (err e) = refl

-- `ert_closeFdOnExec()` sets or clears FD_CLOEXEC as asked and no other flag, or fails and changes
-- none.
pub close_fd_on_exec-IsApplied :
    (request flags : ℕ) (getfd setfd : Result (Unit {0}))
    → IsApplied fd_cloexec (nonzero request) flags (close_fd_on_exec request flags getfd setfd)
unfolding close_fd_on_exec
close_fd_on_exec-IsApplied request flags getfd setfd =
    elim (Bool-cases (is_request o_cloexec request)) [
      | inr refused ↦
          carry fd_cloexec flags (nonzero request) {r' = (err einval, flags)}
            (rw (close_fd_on_exec, refused) refl) refl
      | inl asked ↦ elim (Result-cases getfd) [
        | inr fails ↦
            carry fd_cloexec flags (nonzero request) {r' = (err fails.0, flags)}
              (rw (close_fd_on_exec, asked, fails.1) refl) refl
        | inl reads ↦
            carry fd_cloexec flags (nonzero request) (rw (close_fd_on_exec, asked, reads.1) refl) (
              settle-IsApplied fd_cloexec flags (with_bit flags fd_cloexec (nonzero request))
                (nonzero request) setfd (cloexec-IsApplied flags (nonzero request)))
      ]
    ]

-- `ert_nonBlockingFd()` sets or clears O_NONBLOCK as asked and no other status flag, or fails and
-- changes none.
pub non_blocking_fd-IsApplied :
    (request status : ℕ) (getfl : Result (Unit {0})) (getfd : Result ℕ) (setfl : Result (Unit {0}))
    → IsApplied o_nonblock
        (nonzero request)
        status
        (non_blocking_fd request status getfl getfd setfl)
unfolding non_blocking_fd
non_blocking_fd-IsApplied request status getfl getfd setfl =
    elim (Bool-cases (is_request o_nonblock request)) [
      | inr refused ↦
          carry o_nonblock status (nonzero request) {r' = (err einval, status)}
            (rw (non_blocking_fd, refused) refl) refl
      | inl asked ↦ elim (Result-cases getfl) [
        | inr fails ↦
            carry o_nonblock status (nonzero request) {r' = (err fails.0, status)}
              (rw (non_blocking_fd, asked, fails.1) refl) refl
        | inl reads ↦ elim (Result-cases (unshared (nonzero request) getfd)) [
          | inl allowed ↦
              carry o_nonblock status (nonzero request)
                (rw (non_blocking_fd, asked, reads.1, allowed.1) refl)
                (settle-IsApplied o_nonblock status next (nonzero request) setfl
                  (nonblock-IsApplied status (nonzero request)))
          | inr shared ↦ elim (Bool-cases (status == next)) [
            | inl same ↦
                carry o_nonblock status (nonzero request) {r' = (ok tt, next)}
                  (rw (non_blocking_fd, asked, reads.1, same)
                    (ap (λ (k : ℕ). (ok tt, k)) (==→eq status next same)))
                  (nonblock-IsApplied status (nonzero request))
            | inr other ↦
                carry o_nonblock status (nonzero request) {r' = (err shared.0, status)}
                  (rw (non_blocking_fd, asked, reads.1, other, shared.1) refl) refl
          ]
        ]
      ]
    ]
  where
    next : ℕ
    next = with_bit status o_nonblock (nonzero request)

-- A descriptor that `ert_nonBlockingFd()` makes non-blocking is closed on exec: the flags of any
-- other are not changed by a request for O_NONBLOCK.
non_blocking_fd-shared :
    (status flags : ℕ) (getfl setfl : Result (Unit {0}))
    → has_bit flags fd_cloexec ≡ false
    → (non_blocking_fd o_nonblock status getfl (ok flags) setfl).1 ≡ status
unfolding non_blocking_fd unshared
non_blocking_fd-shared status flags getfl setfl shared = elim (Result-cases getfl) [
  | inr fails ↦ rw (non_blocking_fd, fails.1) refl
  | inl reads ↦ elim (Bool-cases (status == with_bit status o_nonblock true)) [
    | inl same ↦ rw (non_blocking_fd, reads.1, same) refl
    | inr other ↦ rw (non_blocking_fd, reads.1, other, shared) refl
  ]
]
