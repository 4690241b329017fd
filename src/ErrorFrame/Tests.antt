-- ===== src/ErrorFrame/Tests.antt =====
-- Sequences over chunks of one frame.
use libert.Base.{ℕ, ◌≡◌, refl, some, [], ◌∷◌, ◌++◌, map, length, arith, eio, ok, done, failed}
use libert.ErrorFrame.{
  ErrorFrame, StackPool, init_error_frame, add_error_frame, put, place, room, write,
  restart_sequence, push_sequence, visit_frames, visit_sequence, at_frame, past, own_error_frame,
  own_frame_before,
}
use libert.ErrorFrame.Recorded.{add_all, stamped, add_all-visit}
use libert.ErrorFrame.Stale.{put-stale}
use libert.ErrorFrame.Frozen.{freeze_sequence, thaw_sequence, thaw_frames, last_error}
use libert.ErrorFrame.Frozen.Thawed.{reads, thaw_sequence-freeze}

abbrev frame : ℕ → ErrorFrame
frame site = record { site = site; error = 5; seq_index = 0 }

add_all-visit_example :
    visit_sequence 1
      (push_sequence (add_all 1 (frame 7 ∷ frame 8 ∷ []) (push_sequence init_error_frame).1)).0
      (add_all 1 (frame 7 ∷ frame 8 ∷ []) (push_sequence init_error_frame).1)
    ≡ map some (map (stamped 2) (frame 7 ∷ frame 8 ∷ []))
unfolding init_error_frame
add_all-visit_example =
    add_all-visit 1 (frame 7 ∷ frame 8 ∷ []) init_error_frame (omega arith) refl (omega arith)

-- Two frames are added, the sequence is restarted, and a third frame is added.
abbrev restarted : StackPool
restarted =
    add_all 1 (frame 9 ∷ [])
      (restart_sequence (add_all 1 (frame 7 ∷ frame 8 ∷ []) init_error_frame))

put-stale_example :
    visit_frames 1
      (put 1 (frame 10) restarted.stack).memory
      (put 1 (frame 10) restarted.stack).offset
      restarted.stack.head
    ≡ visit_frames 1 restarted.stack.memory restarted.stack.offset restarted.stack.head
      ++ (restarted.stack.memory 1 0 ∷ [])
unfolding init_error_frame add_error_frame put place room write restart_sequence past at_frame
put-stale_example = put-stale 1 (frame 10) restarted.stack (omega arith) refl (omega arith) refl

-- The visit then has the third frame, and the second one in place of the fourth.
stale :
    visit_sequence 1
      (push_sequence (add_all 1 (frame 10 ∷ []) restarted)).0
      (add_all 1 (frame 10 ∷ []) restarted)
    ≡ some (stamped 2 (frame 9)) ∷ some (stamped 1 (frame 8)) ∷ []
unfolding init_error_frame add_error_frame put place room write restart_sequence push_sequence
    visit_sequence visit_frames at_frame past
stale = refl

-- Two frames written and read by another thread.
abbrev recorded : StackPool
recorded = add_all 1 (frame 7 ∷ frame 8 ∷ []) init_error_frame

thaw_sequence-freeze_example :
    (freeze_sequence 1 56 (ok 4) (λ i. ok 56) (push_sequence recorded).0 recorded ≡ (
      ok (push_sequence recorded).0.length,
      map some (stamped 1 (frame 7) ∷ stamped 1 (frame 8) ∷ []),
    ))
    × (r : StackPool) × (thaw_sequence 1 56
          (ok (4, length (stamped 1 (frame 7) ∷ stamped 1 (frame 8) ∷ [])))
          (reads 56 (stamped 1 (frame 7) ∷ stamped 1 (frame 8) ∷ []))
          init_error_frame
        ≡ failed r (last_error (stamped 1 (frame 7)) (stamped 1 (frame 8) ∷ [])))
    × (visit_sequence 1 (push_sequence r).0 r
        ≡ visit_sequence 1 (push_sequence recorded).0 recorded)
unfolding init_error_frame add_error_frame put place room write push_sequence visit_sequence
    visit_frames at_frame past
thaw_sequence-freeze_example =
    thaw_sequence-freeze 1 56 (stamped 1 (frame 7)) (stamped 1 (frame 8) ∷ [])
      (push_sequence recorded).0 recorded init_error_frame (λ i. ok 56) (omega arith) (λ i. refl)
      refl refl refl refl (omega arith)

-- A frame that is cut short.
cut_short :
    thaw_sequence 1 56 (ok (4, 1)) (ok (50, frame 7) ∷ []) init_error_frame
    ≡ failed init_error_frame eio
unfolding thaw_sequence thaw_frames
cut_short = refl

-- Of four frames in chunks of one, the first is asked for, and the third is returned.
third_for_first :
    own_error_frame 1 0 (add_all 1 (frame 7 ∷ frame 8 ∷ frame 9 ∷ frame 10 ∷ []) init_error_frame)
    ≡ done (some (stamped 1 (frame 9)))
unfolding init_error_frame add_error_frame put place room write own_error_frame own_frame_before
third_for_first = refl

-- The last two are returned as they should be.
last_two :
    own_error_frame 1 2 (add_all 1 (frame 7 ∷ frame 8 ∷ frame 9 ∷ frame 10 ∷ []) init_error_frame)
    ≡ done (some (stamped 1 (frame 9)))
unfolding init_error_frame add_error_frame put place room write own_error_frame own_frame_before
last_two = refl
