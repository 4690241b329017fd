-- ===== src/ErrorFrame.antt =====
-- src/error.c: the stacks of error frames of one thread, and their sequences.
-- Frames lie in chunks of `capacity` frames each. The chunks of a stack are numbered in the order of their
-- list, which grows only at its end; `memory` has what the frames of a chunk hold.
pub mod Walk
pub mod Recorded
pub mod Stale
pub mod Frozen
mod Tests
use libert.Base.{
  ℕ, zero, suc, ◌+◌, ◌%◌, ◌^◌, Bool, true, false, ◌&&◌, Option, none, some, List, [], ◌∷◌, ◌==◌,
  nonzero, if◌then◌else◌, Errno, ◌-◌, not, ltb, leb, Outcome, done, ensure, ◌>>◌,
}

-- `struct Ert_ErrorFrame`: the place in the source, as one number, and the index of the sequence.
-- The thread is that of the stacks.
pub record ErrorFrame : Type 0 where
  pub site : ℕ
  pub error : Errno
  pub seq_index : ℕ

-- `struct Ert_ErrorFrameIter`
pub record FrameIter : Type 0 where
  pub chunk : ℕ
  pub frame : ℕ

-- One of `mStack_[]`, with the parts of `mHead` and `mTail`.
pub record FrameStack : Type 0 where
  pub memory : ℕ → ℕ → Option ErrorFrame
  pub chunks : ℕ
  pub head : FrameIter
  pub head_seq : ℕ
  pub tail : FrameIter
  pub offset : ℕ

-- `enum Ert_ErrorFrameStackKind`
pub data StackKind : Type 0 where
  thread_stack signal_stack : StackKind

-- `struct Ert_ErrorFrameStackPool`: the current stack, and the other one.
pub record StackPool : Type 0 where
  pub kind : StackKind
  pub stack : FrameStack
  pub other : FrameStack
  pub pool_seq : ℕ

-- `++` on an `unsigned`.
abbrev pub next_seq : ℕ → ℕ
next_seq n = (n + 1) % 2 ^ 32

-- A stack with its first chunk.
abbrev pub first_chunk : ℕ → FrameStack
first_chunk seq = record {
  memory = λ k j. none;
  chunks = 1;
  head = record { chunk = 0; frame = 0 };
  head_seq = seq;
  tail = record { chunk = 0; frame = 0 };
  offset = 0;
}

-- `initErrorFrame_()`, for a thread that has no stacks yet; the last stack comes first.
pub init_error_frame : StackPool
init_error_frame = record {
  kind = thread_stack;
  stack = first_chunk 1;
  other = first_chunk 0;
  pool_seq = 2;
}

-- An assignment to a frame.
unfoldable pub write : ℕ → ℕ → ErrorFrame → (ℕ → ℕ → Option ErrorFrame) → ℕ → ℕ → Option ErrorFrame
write k j f memory k' j' = if k' == k && j' == j then some f else memory k' j'

-- Where the next frame of `ert_addErrorFrame_()` goes: at the end of a chunk, into a new one.
unfoldable pub room : ℕ → FrameStack → FrameStack
room capacity s =
    if s.tail.frame == capacity
    then record s { chunks = suc s.chunks; tail = record { chunk = s.chunks; frame = 0 } }
    else s

unfoldable pub place : ErrorFrame → FrameStack → FrameStack
unfolding write
place f t = record t {
  memory = write t.tail.chunk t.tail.frame f t.memory;
  offset = suc t.offset;
  tail = record { chunk = t.tail.chunk; frame = suc t.tail.frame };
}

unfoldable pub put : ℕ → ErrorFrame → FrameStack → FrameStack
unfolding room place
put capacity f s = place f (room capacity s)

-- `ert_addErrorFrame_()`; without an id the frame has that of the current sequence.
abbrev pub given_seq : Option ℕ → ℕ → ℕ
given_seq none own = own
given_seq (some id) own = id

unfoldable pub add_error_frame : ℕ → ErrorFrame → Errno → Option ℕ → StackPool → StackPool
unfolding put
add_error_frame capacity self error seq_id p = record p {
  stack =
      put capacity (record self { error = error; seq_index = given_seq seq_id p.stack.head_seq })
        p.stack;
}

-- `ert_restartErrorFrameSequence_()`
unfoldable pub restart_sequence : StackPool → StackPool
restart_sequence p =
    if nonzero p.stack.offset
    then record p {
      stack = record (p.stack) { offset = 0; head_seq = p.pool_seq; tail = p.stack.head };
      pool_seq = next_seq p.pool_seq;
    }
    else p

-- `struct Ert_ErrorFrameSequence`
pub record FrameSequence : Type 0 where
  pub begin : FrameIter
  pub end : FrameIter
  pub sequence : ℕ
  pub length : ℕ

-- `ert_pushErrorFrameSequence()`
unfoldable pub push_sequence : StackPool → FrameSequence × StackPool
push_sequence p = (
  record {
    begin = p.stack.head;
    end = p.stack.tail;
    sequence = p.stack.head_seq;
    length = p.stack.offset;
  },
  record p {
    stack = record (p.stack) { head = p.stack.tail; head_seq = p.pool_seq; offset = 0 };
    pool_seq = next_seq p.pool_seq;
  },
)

-- `ert_popErrorFrameSequence()`
unfoldable pub pop_sequence : FrameSequence → StackPool → StackPool
unfolding restart_sequence
pop_sequence sequence p =
    let q = restart_sequence p in
    record q {
      pool_seq = if q.pool_seq == next_seq q.stack.head_seq then q.stack.head_seq else q.pool_seq;
      stack = record (q.stack) {
        head_seq = sequence.sequence;
        head = sequence.begin;
        offset = sequence.length;
        tail = sequence.end;
      };
    }

-- `ert_switchErrorFrameStack()`: the kind of the stack that was current.
same_kind : StackKind → StackKind → Bool
same_kind thread_stack thread_stack = true
same_kind signal_stack signal_stack = true
same_kind _ _ = false

unfoldable pub switch_stack : StackKind → StackPool → StackKind × StackPool
unfolding same_kind
switch_stack kind p =
    if same_kind kind p.kind
    then (p.kind, p)
    else (p.kind, record p { kind = kind; stack = p.other; other = p.stack })

-- The frame that a visit reads: at the end of a chunk, the first of the next one in the list.
unfoldable pub at_frame : ℕ → FrameIter → FrameIter
at_frame capacity it =
    if it.frame == capacity then record { chunk = suc it.chunk; frame = 0 } else it

unfoldable pub past : FrameIter → FrameIter
past it = record it { frame = suc it.frame }

-- The frames that `visitErrorFrameSequence_()` passes to its visitor, `n` from an iterator on.
unfoldable pub visit_frames :
    ℕ → (ℕ → ℕ → Option ErrorFrame) → ℕ → FrameIter → List (Option ErrorFrame)
unfolding at_frame past
visit_frames capacity memory zero it = []
visit_frames capacity memory (suc n) it =
    let at = at_frame capacity it in
    memory at.chunk at.frame ∷ visit_frames capacity memory n (past at)

-- The visit of a sequence in the current stack.
unfoldable pub visit_sequence : ℕ → FrameSequence → StackPool → List (Option ErrorFrame)
unfolding visit_frames
visit_sequence capacity sequence p =
    visit_frames capacity p.stack.memory sequence.length sequence.begin

-- The rounds of `ert_ownErrorFrame_()` after the first, on fuel: each takes the chunk before that of the
-- tail, from its begin to its end.
unfoldable pub own_frame_before : ℕ → ℕ → ℕ → ℕ → FrameStack → Outcome (Option ErrorFrame)
own_frame_before capacity zero top offset s = done none
own_frame_before capacity (suc fuel) top offset s =
    let further = own_frame_before capacity fuel (top - capacity) offset s in
    let tail = top - offset in
    if leb tail capacity then done (s.memory (s.tail.chunk - 1) (capacity - tail)) else further

-- `ert_ownErrorFrame_()` of the current stack, by offset: in the chunk of the tail, or in one before it,
-- which there must be.
unfoldable pub own_error_frame : ℕ → ℕ → StackPool → Outcome (Option ErrorFrame)
unfolding own_frame_before
own_error_frame capacity offset p =
    let s = p.stack in
    let tail = s.offset - offset in
    if not (ltb offset s.offset)
    then done none
    else if leb tail s.tail.frame
    then done (s.memory s.tail.chunk (s.tail.frame - tail))
    else ensure (nonzero s.tail.chunk)
      >> own_frame_before capacity s.offset (s.offset - s.tail.frame) offset s
