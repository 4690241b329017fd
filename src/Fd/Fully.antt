-- ===== src/Fd/Fully.antt =====
-- `ert_readFdFully()` reads a file to its end, however its contents arrive.
use libert.Base.{
  ℕ, suc, ◌+◌, ◌-◌, ◌*◌, ◌≤◌, ◌<◌, ◌≡◌, refl, sym, ◌∙◌, ap, Bool, true, false, some, List, [], ◌∷◌,
  ◌++◌, map, length, take, drop, length-take, length-drop, take-append, take-length, take_all,
  take_zero, min, nonzero, if◌then◌else◌, ok, ran, arith, Bool-cases, inl, inr, ltb→lt, ltb→le,
}
use libert.Fd.Io.{Data, FullyTurn, fully_loop, make_room, grow, read_fd_fully}

-- A turn of reading a file: at most `suc short` bytes arrive from where the file stands, fewer only
-- at its end or where the buffer has less room.
abbrev pub file_turn : Data → ℕ → FullyTurn
file_turn file short = record {
  allocated = true;
  delivered = λ position room. ok (take (min room (suc short)) (drop position file));
}

make_room-enough :
    (first len used : ℕ) (t : FullyTurn)
    → t.allocated ≡ true
    → 0 < first
    → used ≤ len
    → (len' : ℕ) × (make_room first t len used ≡ some len') × (used < len')
unfolding make_room grow
make_room-enough first len used t h pos le = elim (Bool-cases (nonzero (len - used))) [
  | inl room ↦ (len, rw room refl, omega (arith, ltb→lt 0 (len - used) room))
  | inr full ↦ elim (Bool-cases (nonzero len)) [
    | inl begun ↦ (
      2 * len,
      rw (full, h, begun) refl,
      omega (arith, ltb→lt 0 len begun, ltb→le 0 (len - used) full),
    )
    | inr empty ↦ (first, rw (full, h, empty) refl, omega (arith, ltb→le 0 len empty))
  ]
]

fully_loop-file :
    (first len used : ℕ) (file : Data) (shorts : List ℕ)
    → 0 < first
    → used ≤ len
    → used ≤ length file
    → length file < used + length shorts
    → fully_loop first (map (file_turn file) shorts) len (take used file) ≡ ran tt file
unfolding fully_loop
fully_loop-file first len used file [] pos le fits more = absurd (omega arith)
fully_loop-file first len used file (short ∷ shorts) pos le fits more =
    let filled = length (take used file) in
    let room =
      make_room-enough first len filled (file_turn file short) refl pos
        (omega (arith, length-take used file)) in
    let piece = min (room.0 - filled) (suc short) in
    let got = take piece (drop filled file) in
    let got_length : length got ≡ min piece (length file - filled) =
      length-take piece (drop filled file) ∙ ap (min piece) (length-drop filled file) in
    elim (Bool-cases (nonzero (length got))) [
      | inl some_bytes ↦
          let begun : filled ≡ used =
            omega (arith, length-take used file, got_length, ltb→lt 0 (length got) some_bytes) in
          let whole : take used file ++ got ≡ take (used + length got) file =
            ap (λ (l : Data). take used file ++ l) (sym (take-length piece (drop filled file)))
            ∙ ap (λ (k : ℕ). take used file ++ take (length got) (drop k file)) begun
            ∙ take-append used (length got) file fits in
          rw (fully_loop, room.1, some_bytes, whole)
            (fully_loop-file first room.0 (used + length got) file shorts pos
              (omega (arith, begun, got_length)) (omega (arith, begun, got_length))
              (omega (arith, ltb→lt 0 (length got) some_bytes)))
      | inr none_left ↦
          rw (fully_loop, room.1, none_left)
            (ap (ran tt) (
              take_all used file (
                omega (
                  arith,
                  length-take used file,
                  got_length,
                  room.2,
                  ltb→le 0 (length got) none_left,
                ))))
    ]

-- However short the pieces are that it arrives in, a file is read whole, in order and nothing else,
-- if its memory can be had; as many calls as it has bytes, and one more, are enough. The page size is
-- not 0.
pub read_fd_fully-file :
    (race : Bool) (buf_size page_size : ℕ) (file : Data) (shorts : List ℕ)
    → 0 < page_size
    → length file < length shorts
    → read_fd_fully race buf_size page_size (map (file_turn file) shorts) ≡ ran tt file
unfolding read_fd_fully
read_fd_fully-file race buf_size page_size file shorts pos more = from_start _ (starts race)
  where
    starts :
        (race : Bool) → 0 < (if race then 1 else if nonzero buf_size then buf_size else page_size)
    starts true = omega arith
    starts false = ground (arith, pos)

    from_start :
        (first : ℕ) → 0 < first → fully_loop first (map (file_turn file) shorts) 0 [] ≡ ran tt file
    from_start first pos' = rw (sym (take_zero file)) (
        fully_loop-file first 0 0 file shorts pos' (omega arith) (omega arith)
          (omega (arith, more)))
