-- ===== src/ErrorFrame/Stale.antt =====
-- Growth after a restart.
use libert.Base.{
  ℕ, suc, ◌<◌, ◌≡◌, refl, sym, ◌∙◌, ap, subst, true, Option, List, [], ◌∷◌, ◌++◌, ◌==◌, arith, inl,
}
use libert.ErrorFrame.{
  ErrorFrame, FrameIter, FrameStack, write, room, place, put, at_frame, visit_frames,
}
use libert.ErrorFrame.Walk.{walk, ◌≼◌, visit_frames-write, visit_frames-last}

eq→== : (a b : ℕ) → a ≡ b → (a == b) ≡ true
eq→== a b h = ground arith

room-full :
    (capacity : ℕ) (s : FrameStack)
    → s.tail.frame ≡ capacity
    → room capacity s
      ≡ record s { chunks = suc s.chunks; tail = record { chunk = s.chunks; frame = 0 } }
unfolding room
room-full capacity s full = rw (room, eq→== s.tail.frame capacity full) refl

at_frame-full :
    (capacity : ℕ) (it : FrameIter)
    → it.frame ≡ capacity
    → at_frame capacity it ≡ record { chunk = suc it.chunk; frame = 0 }
unfolding at_frame
at_frame-full capacity it full = rw (at_frame, eq→== it.frame capacity full) refl

write_elsewhere :
    (k k' : ℕ) (f : ErrorFrame) (memory : ℕ → ℕ → Option ErrorFrame)
    → k' < k
    → write k 0 f memory k' 0 ≡ memory k' 0
unfolding write
write_elsewhere k k' f memory lt = ground arith

-- Where a chunk follows that of the tail, as a restart leaves one behind, a frame that is added at
-- the end of the chunk is not the one that a visit reads there: that is what the next chunk held.
pub put-stale :
    (capacity : ℕ) (f : ErrorFrame) (s : FrameStack)
    → 0 < capacity
    → s.tail.frame ≡ capacity
    → suc s.tail.chunk < s.chunks
    → walk capacity s.offset s.head ≡ s.tail
    → visit_frames capacity (put capacity f s).memory (put capacity f s).offset s.head
      ≡ visit_frames capacity s.memory s.offset s.head ++ (s.memory (suc s.tail.chunk) 0 ∷ [])
unfolding put place
put-stale capacity f s pos full behind ends =
    subst (λ (q : FrameStack). visit_frames capacity q.memory q.offset s.head ≡ old) (sym opened)
      (visit_frames-last capacity s.offset (write s.chunks 0 f s.memory) s.head
        ∙ rw
            (
              ends,
              next,
              kept,
              visit_frames-write capacity s.offset s.memory s.head s.chunks 0 f before,
            )
            refl)
  where
    old : List (Option ErrorFrame)
    old = visit_frames capacity s.memory s.offset s.head ++ (s.memory (suc s.tail.chunk) 0 ∷ [])

    grown : FrameStack
    grown = record s { chunks = suc s.chunks; tail = record { chunk = s.chunks; frame = 0 } }

    opened : put capacity f s ≡ place f grown
    opened = ap (place f) (room-full capacity s full)

    next : at_frame capacity s.tail ≡ record { chunk = suc s.tail.chunk; frame = 0 }
    next = at_frame-full capacity s.tail full

    kept : write s.chunks 0 f s.memory (suc s.tail.chunk) 0 ≡ s.memory (suc s.tail.chunk) 0
    kept = write_elsewhere s.chunks (suc s.tail.chunk) f s.memory behind

    before : walk capacity s.offset s.head ≼ record { chunk = s.chunks; frame = 0 }
    before = rw ends (inl (omega arith))
