-- ===== src/ErrorFrame/Frozen/Thawed.antt =====
-- A sequence that is written and read again.
use libert.Base.{
  ℕ, suc, ◌≤◌, ◌<◌, ◌≡◌, refl, sym, ◌∙◌, ap, true, Option, some, List, [], ◌∷◌, ◌++◌, map, length,
  ◌==◌, Result, ok, ran, failed, arith,
}
use mathlib.Core.List.{append_assoc, append-nil}
use libert.ErrorFrame.{
  ErrorFrame, StackPool, FrameSequence, add_error_frame, restart_sequence, push_sequence,
  visit_sequence,
}
use libert.ErrorFrame.Recorded.{Fresh, put-Fresh}
use libert.ErrorFrame.Frozen.{
  exactly, freeze_frames, freeze_end, freeze_sequence, thaw_frames, add_given, last_error,
  place_thawed, thaw_sequence,
}

add_given-Fresh :
    (capacity : ℕ) (fs before : List ErrorFrame) (p : StackPool)
    → 0 < capacity
    → Fresh capacity p.stack before
    → Fresh capacity (add_given capacity fs p).stack (before ++ fs)
unfolding add_error_frame
add_given-Fresh capacity [] before p pos h = rw (append-nil before) h
add_given-Fresh capacity (f ∷ fs) before p pos h = rw (sym (append_assoc before (f ∷ []) fs)) (
    add_given-Fresh capacity fs (before ++ (f ∷ []))
      (add_error_frame capacity f f.error (some f.seq_index) p) pos
      (put-Fresh capacity f p.stack before pos h))

eq_refl : (n : ℕ) → (n == n) ≡ true
eq_refl n = ground arith

freeze_frames-all :
    (size : ℕ) (reply : ℕ → Result ℕ) (k : ℕ) (l : List (Option ErrorFrame))
    → ((i : ℕ) → reply i ≡ ok size)
    → freeze_frames size reply k l ≡ (ok tt, l)
unfolding freeze_frames exactly
freeze_frames-all size reply k [] h = refl
freeze_frames-all size reply k (f ∷ fs) h =
    rw (freeze_frames, h k, eq_refl size, freeze_frames-all size reply (suc k) fs h) refl

-- The replies of the reads that get the frames that were written.
abbrev pub reads : ℕ → List ErrorFrame → List (Result (ℕ × ErrorFrame))
reads size [] = []
reads size (f ∷ fs) = ok (size, f) ∷ reads size fs

thaw_frames-reads :
    (size : ℕ) (fs : List ErrorFrame) → thaw_frames size (length fs) (reads size fs) ≡ ran tt fs
unfolding thaw_frames
thaw_frames-reads size [] = refl
thaw_frames-reads size (f ∷ fs) = rw (thaw_frames, eq_refl size, thaw_frames-reads size fs) refl

-- A sequence that is not empty, written to the end and read by another thread whose last chunk grows
-- and whose own sequence is empty, is returned there as the error of its last frame, and is
-- visited there as it was here.
pub thaw_sequence-freeze :
    (capacity size : ℕ) (f : ErrorFrame) (fs : List ErrorFrame) (sequence : FrameSequence)
    (p q : StackPool) (reply : ℕ → Result ℕ)
    → 0 < capacity
    → ((i : ℕ) → reply i ≡ ok size)
    → visit_sequence capacity sequence p ≡ map some (f ∷ fs)
    → q.stack.offset ≡ 0
    → q.stack.head ≡ q.stack.tail
    → suc q.stack.tail.chunk ≡ q.stack.chunks
    → q.stack.tail.frame ≤ capacity
    → (freeze_sequence capacity size (ok 4) reply sequence p
        ≡ (ok sequence.length, map some (f ∷ fs)))
      × (r : StackPool) × (thaw_sequence capacity size
            (ok (4, length (f ∷ fs)))
            (reads size (f ∷ fs))
            q
          ≡ failed r (last_error f fs))
      × (visit_sequence capacity (push_sequence r).0 r ≡ visit_sequence capacity sequence p)
unfolding freeze_sequence exactly thaw_sequence place_thawed push_sequence restart_sequence
    visit_sequence
thaw_sequence-freeze capacity size f fs sequence p q reply pos written holds idle begun grows fits =
    (
      ap (freeze_end sequence.length)
            (freeze_frames-all size reply 0 (visit_sequence capacity sequence p) written)
          ∙ ap (λ (l : List (Option ErrorFrame)). (ok sequence.length, l)) holds,
      add_given capacity (f ∷ fs) q,
      rw (thaw_sequence, thaw_frames-reads size (f ∷ fs))
          (ap (λ (s : StackPool). failed (add_given capacity (f ∷ fs) s) (last_error f fs)) same),
      visited ∙ sym holds,
    )
  where
    same : restart_sequence q ≡ q
    same = rw (restart_sequence, idle) refl

    empty : Fresh capacity q.stack []
    empty = record {
      grows = grows;
      fits = fits;
      counted = idle;
      ends = rw idle begun;
      holds = rw idle refl;
    }

    visited :
        visit_sequence capacity
          (push_sequence (add_given capacity (f ∷ fs) q)).0
          (add_given capacity (f ∷ fs) q)
        ≡ map some (f ∷ fs)
    visited = (add_given-Fresh capacity (f ∷ fs) [] q pos empty).holds
