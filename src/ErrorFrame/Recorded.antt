-- ===== src/ErrorFrame/Recorded.antt =====
-- What a sequence holds when it is visited.
use libert.Base.{
  ℕ, suc, ◌≤◌, ◌<◌, ◌≡◌, refl, sym, ◌∙◌, ap, subst, Option, none, some, List, [], ◌∷◌, ◌++◌, map,
  length, length-append, ◌==◌, arith, Bool-cases, inl, inr, ==→ne,
}
use mathlib.Core.List.{append_assoc, append-nil}
use libert.ErrorFrame.{
  ErrorFrame, FrameIter, FrameStack, StackPool, write, room, place, put, add_error_frame,
  push_sequence, at_frame, past, visit_frames, visit_sequence,
}
use libert.ErrorFrame.Walk.{walk, ◌≼◌, visit_frames-write, visit_frames-last, walk_last}

-- The frames of the current sequence, in a stack whose last chunk is the one that grows.
pub record Fresh (capacity : ℕ) (s : FrameStack) (frames : List ErrorFrame) : Type 0 where
  pub grows : suc s.tail.chunk ≡ s.chunks
  pub fits : s.tail.frame ≤ capacity
  pub counted : s.offset ≡ length frames
  pub ends : walk capacity s.offset s.head ≡ s.tail
  pub holds : visit_frames capacity s.memory s.offset s.head ≡ map some frames

map-last :
    (frames : List ErrorFrame) (f : ErrorFrame)
    → map some (frames ++ (f ∷ [])) ≡ map some frames ++ (some f ∷ [])
map-last [] f = refl
map-last (x ∷ frames) f = ap (λ (l : List (Option ErrorFrame)). some x ∷ l) (map-last frames f)

write_here :
    (k j : ℕ) (f : ErrorFrame) (memory : ℕ → ℕ → Option ErrorFrame)
    → write k j f memory k j ≡ some f
unfolding write
write_here k j f memory = ground arith

at_frame-ge : (capacity : ℕ) (it : FrameIter) → it ≼ at_frame capacity it
unfolding at_frame
at_frame-ge capacity it = ground arith

-- A frame put where the visit goes on is the one that it reads last.
visit-put :
    (capacity : ℕ) (f : ErrorFrame) (memory : ℕ → ℕ → Option ErrorFrame) (n : ℕ)
    (head tail at : FrameIter)
    → walk capacity n head ≡ tail
    → at_frame capacity tail ≡ at
    → visit_frames capacity (write at.chunk at.frame f memory) (suc n) head
      ≡ visit_frames capacity memory n head ++ (some f ∷ [])
visit-put capacity f memory n head tail at ends here =
    let place : at_frame capacity (walk capacity n head) ≡ at =
      ap (at_frame capacity) ends ∙ here in
    let before : walk capacity n head ≼ at =
      subst (λ (it : FrameIter). walk capacity n head ≼ it) place
        (at_frame-ge capacity (walk capacity n head)) in
    visit_frames-last capacity n (write at.chunk at.frame f memory) head
    ∙ rw
        (
          place,
          write_here at.chunk at.frame f memory,
          visit_frames-write capacity n memory head at.chunk at.frame f before,
        )
        refl

-- The place that is found for a frame is the one where a visit goes on.
record IsRoom (capacity : ℕ) (s t : FrameStack) : Type 0 where
  pub next : at_frame capacity s.tail ≡ t.tail
  pub same_memory : t.memory ≡ s.memory
  pub same_head : t.head ≡ s.head
  pub same_offset : t.offset ≡ s.offset
  pub last_chunk : suc t.tail.chunk ≡ t.chunks
  pub space : t.tail.frame < capacity

room-IsRoom :
    (capacity : ℕ) (s : FrameStack)
    → 0 < capacity
    → suc s.tail.chunk ≡ s.chunks
    → s.tail.frame ≤ capacity
    → IsRoom capacity s (room capacity s)
unfolding room at_frame
room-IsRoom capacity s pos grows fits = elim (Bool-cases (s.tail.frame == capacity)) [
  | inl full ↦
      let opened : room capacity s
          ≡ record s { chunks = suc s.chunks; tail = record { chunk = s.chunks; frame = 0 } } =
        rw (room, full) refl in
      subst (λ (t : FrameStack). IsRoom capacity s t) (sym opened)
        (record {
          next = rw (at_frame, full) (ap (λ (k : ℕ). record { chunk = k; frame = 0 }) grows);
          same_memory = refl;
          same_head = refl;
          same_offset = refl;
          last_chunk = refl;
          space = pos;
        })
  | inr has_space ↦
      let opened : room capacity s ≡ s = rw (room, has_space) refl in
      subst (λ (t : FrameStack). IsRoom capacity s t) (sym opened)
        (record {
          next = rw (at_frame, has_space) refl;
          same_memory = refl;
          same_head = refl;
          same_offset = refl;
          last_chunk = grows;
          space = omega (arith, ==→ne s.tail.frame capacity has_space, fits);
        })
]

place-Fresh :
    (capacity : ℕ) (f : ErrorFrame) (s t : FrameStack) (frames : List ErrorFrame)
    → IsRoom capacity s t
    → Fresh capacity s frames
    → Fresh capacity (place f t) (frames ++ (f ∷ []))
unfolding place past
place-Fresh capacity f s t frames room h = record {
  grows = room.last_chunk;
  fits = room.space;
  counted = omega (arith, h.counted, room.same_offset, length-append frames (f ∷ []));
  ends =
      rw (room.same_offset, room.same_head, walk_last capacity s.offset s.head, h.ends, room.next)
        refl;
  holds =
      rw (room.same_offset, room.same_head, room.same_memory)
        (visit-put capacity f s.memory s.offset s.head s.tail t.tail h.ends room.next
          ∙ rw (h.holds, map-last frames f) refl);
}

pub put-Fresh :
    (capacity : ℕ) (f : ErrorFrame) (s : FrameStack) (frames : List ErrorFrame)
    → 0 < capacity
    → Fresh capacity s frames
    → Fresh capacity (put capacity f s) (frames ++ (f ∷ []))
unfolding put
put-Fresh capacity f s frames pos h =
    place-Fresh capacity f s (room capacity s) frames (room-IsRoom capacity s pos h.grows h.fits) h

-- The frames of a list, added in order without an id of their own.
abbrev pub add_all : ℕ → List ErrorFrame → StackPool → StackPool
add_all capacity [] p = p
add_all capacity (f ∷ fs) p = add_all capacity fs (add_error_frame capacity f f.error none p)

-- A frame with the id of a sequence.
abbrev pub stamped : ℕ → ErrorFrame → ErrorFrame
stamped seq f = record f { seq_index = seq }

abbrev stamped_all : ℕ → List ErrorFrame → List ErrorFrame
stamped_all seq fs = map (stamped seq) fs

put-head_seq :
    (capacity : ℕ) (f : ErrorFrame) (s : FrameStack) → (put capacity f s).head_seq ≡ s.head_seq
unfolding put place room
put-head_seq capacity f s = ground arith

add_all-Fresh :
    (capacity seq : ℕ) (fs before : List ErrorFrame) (p : StackPool)
    → 0 < capacity
    → p.stack.head_seq ≡ seq
    → Fresh capacity p.stack before
    → Fresh capacity (add_all capacity fs p).stack (before ++ stamped_all seq fs)
unfolding add_error_frame
add_all-Fresh capacity seq [] before p pos same h = rw (append-nil before) h
add_all-Fresh capacity seq (f ∷ fs) before p pos same h =
    let g = stamped seq f in
    let p' = add_error_frame capacity f f.error none p in
    let added : Fresh capacity p'.stack (before ++ (g ∷ [])) =
      subst (λ (k : ℕ). Fresh capacity (put capacity (stamped k f) p.stack) (before ++ (g ∷ [])))
        (sym same) (put-Fresh capacity g p.stack before pos h) in
    rw (sym (append_assoc before (g ∷ []) (stamped_all seq fs))) (
      add_all-Fresh capacity seq fs (before ++ (g ∷ [])) p' pos
        (put-head_seq capacity (stamped p.stack.head_seq f) p.stack ∙ same) added)

-- A sequence that is begun where the last chunk grows holds the frames that are added to it, in
-- order, across any number of chunks, each with the index of the sequence. A chunk has at least one
-- frame.
pub add_all-visit :
    (capacity : ℕ) (fs : List ErrorFrame) (p : StackPool)
    → 0 < capacity
    → suc p.stack.tail.chunk ≡ p.stack.chunks
    → p.stack.tail.frame ≤ capacity
    → visit_sequence capacity
        (push_sequence (add_all capacity fs (push_sequence p).1)).0
        (add_all capacity fs (push_sequence p).1)
      ≡ map some (map (stamped p.pool_seq) fs)
unfolding push_sequence visit_sequence
add_all-visit capacity fs p pos grows fits =
    (add_all-Fresh capacity p.pool_seq fs [] (push_sequence p).1 pos refl begun).holds
  where
    begun : Fresh capacity (push_sequence p).1.stack []
    begun = record { grows = grows; fits = fits; counted = refl; ends = refl; holds = refl }
