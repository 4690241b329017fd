-- ===== src/ProcessState/Named.antt =====
-- The state of a process of any name.
use libert.Base.{ℕ, ◌≡◌, refl, ◌∙◌, false, List, [], ◌∷◌, ◌++◌, All, ◌==◌, ok}
use libert.ProcessState.{scan_back, reverse_onto, state_of, state_after, fetch_process_state}

reverse_onto-append :
    (xs ys acc : List ℕ) → reverse_onto (xs ++ ys) acc ≡ reverse_onto ys (reverse_onto xs acc)
reverse_onto-append [] ys acc = refl
reverse_onto-append (x ∷ xs) ys acc = reverse_onto-append xs ys (x ∷ acc)

scan_back-reverse_onto :
    (xs before after : List ℕ)
    → All (λ c. (c == b')') ≡ false) xs
    → scan_back (reverse_onto xs before) after ≡ scan_back before (xs ++ after)
unfolding scan_back
scan_back-reverse_onto [] before after h = refl
scan_back-reverse_onto (x ∷ xs) before after h =
    scan_back-reverse_onto xs (x ∷ before) after h.1 ∙ rw (scan_back, h.0) refl

-- The state is the letter after the last `)` and a space, whatever the name of the program in the
-- parentheses is, even where it has parentheses, spaces or letters of states itself.
pub fetch_process_state-named :
    (before rest : List ℕ) (c : ℕ)
    → All (λ x. (x == b')') ≡ false) (c ∷ rest)
    → fetch_process_state (ok (before ++ (b')' ∷ b' ' ∷ c ∷ rest))) ≡ state_of c
unfolding fetch_process_state state_after
fetch_process_state-named before rest c h =
    rw
      (
        fetch_process_state,
        reverse_onto-append before (b')' ∷ b' ' ∷ c ∷ rest) [],
        scan_back-reverse_onto (b' ' ∷ c ∷ rest) (b')' ∷ reverse_onto before []) [] (refl, h),
        scan_back,
      )
      refl
