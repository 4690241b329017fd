-- ===== src/Parse/Words.antt =====
-- The words of a comma separated text against the text cut at its commas.
use libert.Base.{
  ℕ, zero, suc, ◌+◌, ◌≡◌, ◌≢◌, inl, inr, true, some, List, [], ◌∷◌, ◌++◌, map, All, length, ◌==◌,
  if◌then◌else◌, done, ok, arith, refl, ◌∙◌, Bool-cases,
}
use libert.Parse.{Text}
use libert.Parse.Args.{
  comma, count_words, skip_spaces, split_word, trim_tail, split_words, no_empty_word, create_csv,
}

-- The text cut at every comma.
abbrev pub onto_first : ℕ → List Text → List Text
onto_first c [] = (c ∷ []) ∷ []
onto_first c (w ∷ ws) = (c ∷ w) ∷ ws

abbrev pub cut : Text → List Text
cut [] = [] ∷ []
cut (c ∷ cs) = if c == comma then [] ∷ cut cs else onto_first c (cut cs)

-- A piece without the spaces around it.
abbrev pub trim : Text → Text
trim w = trim_tail (skip_spaces w)

abbrev pub commas : Text → ℕ
commas [] = 0
commas (c ∷ cs) = if c == comma then commas cs + 1 else commas cs

count_words-commas : (n : ℕ) (t : Text) → count_words n t ≡ n + commas t
unfolding count_words
count_words-commas n [] = omega arith
count_words-commas n (c ∷ cs) = elim (Bool-cases (c == comma)) [
  | inl sep ↦ rw (sep, count_words-commas (n + 1) cs) (omega arith)
  | inr other ↦ rw (other, count_words-commas n cs) refl
]

-- Spaces are skipped within a piece: a comma is no space.
split_word-skip :
    (t : Text) → split_word (skip_spaces t) ≡ (skip_spaces (split_word t).0, (split_word t).1)
unfolding split_word skip_spaces
split_word-skip [] = refl
split_word-skip (c ∷ cs) = elim (Bool-cases (c == comma)) [
  | inl sep ↦ ground (arith, sep)
  | inr other ↦ ground (arith, other, split_word-skip cs)
]

cut-last : (t : Text) → commas t ≡ 0 → (cut t ≡ t ∷ []) × (split_word t ≡ (t, []))
unfolding split_word
cut-last [] h = (refl, refl)
cut-last (c ∷ cs) h = ground (arith, cut-last cs)

cut-more :
    (t : Text) {n : ℕ}
    → commas t ≡ suc n
    → (cut t ≡ (split_word t).0 ∷ cut (split_word t).1) × (commas (split_word t).1 ≡ n)
unfolding split_word
cut-more [] h = cc
cut-more (c ∷ cs) {n} h = elim (Bool-cases (c == comma)) [
  | inl sep ↦ ground (arith, sep, h)
  | inr other ↦ ground (arith, other, h, cut-more cs {n = n} (ground (arith, other, h)))
]

-- The loop over the words, for the number of words that the text has.
split_words-cut :
    (n : ℕ) (t : Text) → commas t ≡ n → split_words (suc n) t ≡ done (map trim (cut t))
unfolding split_words
split_words-cut zero t h = let (one, last) = cut-last t h in rw (split_word-skip t, last, one) refl
split_words-cut (suc n) t h =
    let (first, rest) = cut-more t {n = n} h in
    rw (split_word-skip t, split_words-cut n (split_word t).1 rest, first) refl

length-onto_first :
    (c : ℕ) (ws : List Text) (n : ℕ) → length ws ≡ n + 1 → length (onto_first c ws) ≡ n + 1
length-onto_first c [] n h = absurd (omega (arith, h))
length-onto_first c (w ∷ ws) n h = h

length-cut : (t : Text) → length (cut t) ≡ commas t + 1
length-cut [] = refl
length-cut (c ∷ cs) = elim (Bool-cases (c == comma)) [
  | inl sep ↦ rw sep (omega (arith, length-cut cs))
  | inr other ↦ rw other (length-onto_first c (cut cs) (commas cs) (length-cut cs))
]

length-map : (ws : List Text) → length (map trim ws) ≡ length ws
length-map [] = refl
length-map (w ∷ ws) = omega (arith, length-map ws)

-- With the memory for it, `ert_createParseArgListCSV()` holds its assertions on every text, and gives the
-- pieces between the commas without the spaces around each; but none at all where that is a single
-- empty word.
pub create_csv-cut :
    (t : Text)
    → create_csv (some t) true true
      ≡ done (record {
        status = ok tt;
        list = record {
          args = true;
          argv = some (no_empty_word (map trim (cut t)));
          argc = length (no_empty_word (map trim (cut t)));
        };
        blocks = 2;
      })
unfolding create_csv
create_csv-cut t = rw (counted, split_words-cut (commas t) t refl, agree) refl
  where
    counted : count_words 1 t ≡ suc (commas t)
    counted = count_words-commas 1 t ∙ omega arith

    agree : (length (map trim (cut t)) == suc (commas t)) ≡ true
    agree = ground (arith, length-map (cut t), length-cut t)

-- A word that a text can hold: without a comma, and with no space at either end.
pub record IsWord (w : Text) : Type 0 where
  pub no_comma : commas w ≡ 0
  pub trimmed : trim w ≡ w

-- Words with commas between them.
abbrev pub join : Text → List Text → Text
join w [] = w
join w (v ∷ vs) = w ++ (comma ∷ join v vs)

cut-append : (w t : Text) → commas w ≡ 0 → cut (w ++ (comma ∷ t)) ≡ w ∷ cut t
cut-append [] t h = refl
cut-append (c ∷ cs) t h = ground (arith, h, cut-append cs t)

cut-join : (w : Text) (ws : List Text) → All IsWord (w ∷ ws) → map trim (cut (join w ws)) ≡ w ∷ ws
cut-join w [] h = rw ((cut-last w h.0.no_comma).0, h.0.trimmed) refl
cut-join w (v ∷ vs) h =
    rw (cut-append w (join v vs) h.0.no_comma, h.0.trimmed, cut-join v vs h.1) refl

-- With the memory for it, words without commas and without spaces at their ends, joined by commas,
-- are read back as they were, unless they are a single empty word.
pub create_csv-join :
    (w : Text) (ws : List Text)
    → All IsWord (w ∷ ws)
    → w ∷ ws ≢ [] ∷ []
    → create_csv (some (join w ws)) true true
      ≡ done (record {
        status = ok tt;
        list = record { args = true; argv = some (w ∷ ws); argc = length (w ∷ ws) };
        blocks = 2;
      })
unfolding no_empty_word
create_csv-join w ws h other =
    create_csv-cut (join w ws) ∙ rw (cut-join w ws h, kept w ws other) refl
  where
    kept : (w : Text) (ws : List Text) → w ∷ ws ≢ [] ∷ [] → no_empty_word (w ∷ ws) ≡ w ∷ ws
    kept [] [] other = absurd (other refl)
    kept [] (v ∷ vs) other = refl
    kept (c ∷ cs) ws other = refl
