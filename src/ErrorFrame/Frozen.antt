-- ===== src/ErrorFrame/Frozen.antt =====
-- Sequences that are written to a descriptor and read from it. The calls of `ert_writeFd()` and
-- `ert_readFd()` are replies: how many bytes were moved, and what was read. `size` is the size of a frame.
pub mod Thawed
use libert.Base.{
  ℕ, zero, suc, Bool, true, false, Option, none, some, List, [], ◌∷◌, length, ◌==◌, if◌then◌else◌,
  Errno, eio, Result, ok, err, Outcome, done, abort, ensure, ◌>>◌, Ran, ran, failed, stopped,
  starved, then_run,
}
use libert.ErrorFrame.{
  ErrorFrame, FrameSequence, StackPool, add_error_frame, restart_sequence, visit_sequence,
}

-- A transfer of another number of bytes than asked for is an error.
unfoldable pub exactly : ℕ → Result ℕ → Result (Unit {0})
exactly size (err e) = err e
exactly size (ok n) = if n == size then ok tt else err eio

-- `ert_freezeErrorFrame_()` for each frame that is visited; and what was written.
unfoldable pub freeze_frames :
    ℕ → (ℕ → Result ℕ) → ℕ → List (Option ErrorFrame) → Result (Unit {0}) × List (Option ErrorFrame)
unfolding exactly
freeze_frames size reply k [] = (ok tt, [])
freeze_frames size reply k (f ∷ fs) =
    let rest = freeze_frames size reply (suc k) fs in
    elim (exactly size (reply k)) [ err e ↦ (err e, []) | ok _ ↦ (rest.0, f ∷ rest.1) ]

-- What the writer returns after the frames.
abbrev pub freeze_end :
    ℕ → Result (Unit {0}) × List (Option ErrorFrame) → Result ℕ × List (Option ErrorFrame)
freeze_end len r = elim r.0 [ err e ↦ (err e, r.1) | ok _ ↦ (ok len, r.1) ]

-- `ert_freezeErrorFrameSequence()`: the length that it returns, with the frames that were written.
unfoldable pub freeze_sequence :
    ℕ
    → ℕ
    → Result ℕ
    → (ℕ → Result ℕ)
    → FrameSequence
    → StackPool
    → Result ℕ × List (Option ErrorFrame)
unfolding freeze_frames
freeze_sequence capacity size wrote reply sequence p =
    let r = freeze_frames size reply 0 (visit_sequence capacity sequence p) in
    elim (exactly 4 wrote) [ err e ↦ (err e, []) | ok _ ↦ freeze_end sequence.length r ]

-- `ert_thawErrorFrame_()` for each of `n` frames.
unfoldable pub thaw_frames :
    ℕ → ℕ → List (Result (ℕ × ErrorFrame)) → Ran (Unit {0}) (List ErrorFrame)
thaw_frames size zero replies = ran tt []
thaw_frames size (suc n) [] = starved
thaw_frames size (suc n) (err e ∷ replies) = failed tt e
thaw_frames size (suc n) (ok read ∷ replies) =
    let rest = thaw_frames size n replies in
    if read.0 == size then then_run rest (λ _ fs. ran tt (read.1 ∷ fs)) else failed tt eio

-- The frames are added with their own errno and id.
abbrev pub add_given : ℕ → List ErrorFrame → StackPool → StackPool
add_given capacity [] p = p
add_given capacity (f ∷ fs) p =
    add_given capacity fs (add_error_frame capacity f f.error (some f.seq_index) p)

abbrev pub last_error : ErrorFrame → List ErrorFrame → Errno
last_error f [] = f.error
last_error f (g ∷ fs) = last_error g fs

-- `ert_thawErrorFrameSequence_()`: a thawed sequence is the error that is returned.
unfoldable pub place_thawed : ℕ → List ErrorFrame → StackPool → Ran StackPool (Unit {0})
unfolding restart_sequence
place_thawed capacity [] p = stopped
place_thawed capacity (f ∷ fs) p =
    failed (add_given capacity (f ∷ fs) (restart_sequence p)) (last_error f fs)

-- `ert_thawErrorFrameSequence()`, which returns 0 for an empty sequence only.
unfoldable pub thaw_sequence :
    ℕ → ℕ → Result (ℕ × ℕ) → List (Result (ℕ × ErrorFrame)) → StackPool → Ran StackPool (Unit {0})
unfolding thaw_frames place_thawed
thaw_sequence capacity size (err e) replies p = failed p e
thaw_sequence capacity size (ok head) replies p =
    if head.0 == 4
    then (elim head.1 [
      | zero ↦ ran p tt
      | suc n ↦ elim (thaw_frames size (suc n) replies) [
        | ran _ fs ↦ place_thawed capacity fs p
        | failed _ e ↦ failed p e
        | stopped ↦ stopped
        | starved ↦ starved
      ]
    ])
    else failed p eio
