-- ===== src/Parse/Tests.antt =====
-- The parsers on concrete texts.
use libert.Base.{
  ℕ, ◌^◌, ◌≡◌, ◌↔◌, Bool, true, false, none, some, [], ◌∷◌, length, ltb, einval, done, ok, err,
  refl, map,
}
use libert.Parse.{Text, negsuc, parse_int}
use libert.Parse.Args.{Created, trim_tail, skip_spaces, no_empty_word, create_csv, create_copy}
use libert.Parse.Signed.{IsSigned, IsBelow, parse_int-IsSigned}
use libert.Parse.Words.{trim, cut, IsWord, create_csv-cut}
use libert.Parse.Blocks.{owned, create-owned}

-- "12", " a, b", "ab" and "c".
abbrev twelve : Text
twelve = b'1' ∷ b'2' ∷ []

abbrev two_words : Text
two_words = b' ' ∷ b'a' ∷ b',' ∷ b' ' ∷ b'b' ∷ []

abbrev word_ab : Text
word_ab = b'a' ∷ b'b' ∷ []

abbrev word_c : Text
word_c = b'c' ∷ []

-- The second call fails.
abbrev first_only : ℕ → Bool
first_only i = ltb i 1

parse_int-IsSigned_example :
    (parse_int (b'-' ∷ twelve) ≡ record { status = ok tt; stored = some (negsuc 11) })
    ↔ (IsSigned (b'-' ∷ twelve) (negsuc 11) × IsBelow (2 ^ 31) (negsuc 11))
parse_int-IsSigned_example = parse_int-IsSigned (b'-' ∷ twelve) (negsuc 11)

minus_twelve : parse_int (b'-' ∷ twelve) ≡ record { status = ok tt; stored = some (negsuc 11) }
unfolding parse_int
minus_twelve = refl

trailing_space : parse_int (b'1' ∷ b' ' ∷ []) ≡ record { status = err einval; stored = none }
unfolding parse_int
trailing_space = refl

create_csv-cut_example :
    create_csv (some two_words) true true
    ≡ done (record {
      status = ok tt;
      list = record {
        args = true;
        argv = some (no_empty_word (map trim (cut two_words)));
        argc = length (no_empty_word (map trim (cut two_words)));
      };
      blocks = 2;
    })
create_csv-cut_example = create_csv-cut two_words

word_ab-IsWord : IsWord word_ab
unfolding trim_tail skip_spaces
word_ab-IsWord = record { no_comma = refl; trimmed = refl }

word_c-IsWord : IsWord word_c
unfolding trim_tail skip_spaces
word_c-IsWord = record { no_comma = refl; trimmed = refl }

create-owned_example :
    ((c : Created) × (create_csv (some twelve) true false ≡ done c)
      × (c.blocks ≡ owned c.status c.list))
    × ((create_copy (some (word_ab ∷ word_c ∷ [])) false first_only).blocks
        ≡ owned
            (create_copy (some (word_ab ∷ word_c ∷ [])) false first_only).status
            (create_copy (some (word_ab ∷ word_c ∷ [])) false first_only).list)
create-owned_example =
    create-owned (some twelve) true false (some (word_ab ∷ word_c ∷ [])) first_only
