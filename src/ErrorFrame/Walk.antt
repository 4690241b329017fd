-- ===== src/ErrorFrame/Walk.antt =====
-- The way of a visit through the chunks, and what it reads.
use libert.Base.{
  ℕ, zero, suc, ◌≤◌, ◌<◌, ◌≡◌, ◌⊎◌, refl, ap, ap₂, Option, List, [], ◌∷◌, ◌++◌, arith, inr,
}
use libert.ErrorFrame.{ErrorFrame, FrameIter, write, at_frame, past, visit_frames}

-- Where a visit of `n` frames ends.
abbrev pub walk : ℕ → ℕ → FrameIter → FrameIter
walk capacity zero it = it
walk capacity (suc n) it = walk capacity n (past (at_frame capacity it))

-- An iterator that is not behind another.
infix 50 ◌≼◌
abbrev pub ◌≼◌ : FrameIter → FrameIter → Type 0
a ≼ b = (a.chunk < b.chunk) ⊎ ((a.chunk ≡ b.chunk) × (a.frame ≤ b.frame))

≼_trans : (a b c : FrameIter) → a ≼ b → b ≼ c → a ≼ c
≼_trans a b c h k = ground arith

step_ge : (capacity : ℕ) (it : FrameIter) → it ≼ past (at_frame capacity it)
unfolding at_frame past
step_ge capacity it = ground arith

walk_ge : (capacity n : ℕ) (it : FrameIter) → it ≼ walk capacity n it
walk_ge capacity zero it = inr (refl, omega arith)
walk_ge capacity (suc n) it =
    ≼_trans it _ _ (step_ge capacity it) (walk_ge capacity n (past (at_frame capacity it)))

-- A frame before a place that is written keeps what it holds.
write-before :
    (memory : ℕ → ℕ → Option ErrorFrame) (at : FrameIter) (k j : ℕ) (f : ErrorFrame)
    → past at ≼ record { chunk = k; frame = j }
    → write k j f memory at.chunk at.frame ≡ memory at.chunk at.frame
unfolding write past
write-before memory at k j f h = ground arith

-- So does a visit that ends there.
pub visit_frames-write :
    (capacity n : ℕ) (memory : ℕ → ℕ → Option ErrorFrame) (it : FrameIter) (k j : ℕ)
    (f : ErrorFrame)
    → walk capacity n it ≼ record { chunk = k; frame = j }
    → visit_frames capacity (write k j f memory) n it ≡ visit_frames capacity memory n it
unfolding visit_frames
visit_frames-write capacity zero memory it k j f h = refl
visit_frames-write capacity (suc n) memory it k j f h =
    let at = at_frame capacity it in
    ap₂ (λ (x : Option ErrorFrame) (l : List (Option ErrorFrame)). x ∷ l)
      (write-before memory at k j f (≼_trans (past at) _ _ (walk_ge capacity n (past at)) h))
      (visit_frames-write capacity n memory (past at) k j f h)

-- A visit of one frame more reads the one where the visit without it ends.
pub visit_frames-last :
    (capacity n : ℕ) (memory : ℕ → ℕ → Option ErrorFrame) (it : FrameIter)
    → visit_frames capacity memory (suc n) it
      ≡ visit_frames capacity memory n it
        ++ (memory
              (at_frame capacity (walk capacity n it)).chunk
              (at_frame capacity (walk capacity n it)).frame
            ∷ [])
unfolding visit_frames
visit_frames-last capacity zero memory it = refl
visit_frames-last capacity (suc n) memory it =
    ap
      (λ (l : List (Option ErrorFrame)).
        memory (at_frame capacity it).chunk (at_frame capacity it).frame ∷ l)
      (visit_frames-last capacity n memory (past (at_frame capacity it)))

pub walk_last :
    (capacity n : ℕ) (it : FrameIter)
    → walk capacity (suc n) it ≡ past (at_frame capacity (walk capacity n it))
walk_last capacity zero it = refl
walk_last capacity (suc n) it = walk_last capacity n (past (at_frame capacity it))
