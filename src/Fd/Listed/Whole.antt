-- ===== src/Fd/Listed/Whole.antt =====
-- Closing all descriptors but those of a list.
use libert.Base.{
  int_max, ℕ, zero, suc, ◌+◌, ◌-◌, ◌≤◌, ◌<◌, ◌≡◌, refl, sym, ◌∙◌, ap, ap₂, subst, Bool, true, false,
  ◌&&◌, ◌||◌, not, List, [], ◌∷◌, ◌++◌, length, length-append, done, ok, ran, arith, All,
}
use mathlib.Core.List.{Permᴰ}
use libert.Parse.{ℤ, pos, negsuc, to_int}
use libert.Fd.Swept.{those, those-cong, replies}
use libert.Fd.Listed.{is_below, check_list, list_loop, close_below, close_fd_descriptors}
use libert.Fd.Listed.Kept.{is_fd, listed, ◌≤ℤ◌, Sorted, UpTo, FromFd-weaken}
use libert.Fd.Listed.Closed.{left_open, list_loop-closes}

-- Negative numbers come first, and are passed over.
list_loop-all :
    (is_open : ℕ → Bool) (limit fuel : ℕ) (ws : List ℤ)
    → UpTo limit ws
    → Sorted ws
    → listed limit ws ≡ true
    → limit + 1 + length ws ≤ fuel
    → list_loop (replies is_open) fuel 0 ws [] ≡ ran (those (left_open is_open ws) limit 0) tt
unfolding list_loop
list_loop-all is_open limit fuel [] up sorted last enough = absurd cc
list_loop-all is_open limit zero (negsuc m ∷ ws) up sorted last enough =
    absurd (omega (arith, enough))
list_loop-all is_open limit (suc fuel) (negsuc m ∷ ws) up sorted last enough =
    list_loop-all is_open limit fuel ws up.1 sorted.1 last (omega (arith, enough))
list_loop-all is_open limit fuel (pos w ∷ ws) up sorted last enough =
    list_loop-closes is_open limit fuel 0 (pos w ∷ ws) []
      (omega arith, FromFd-weaken 0 w ws (omega arith) sorted.0) up sorted last
      (omega (arith, enough))
    ∙ ap (λ (n : ℕ). ran (those (left_open is_open (pos w ∷ ws)) n 0) tt) whole
  where
    whole : limit - 0 ≡ limit
    whole = omega arith

-- What a permutation keeps.
listed-Perm : (fd : ℕ) {l k : List ℤ} → Permᴰ l k → listed fd l ≡ listed fd k
listed-Perm fd Permᴰ.nil = refl
listed-Perm fd (Permᴰ.cons e p) = ap₂ (λ (a : ℤ) (b : Bool). is_fd fd a || b) e (listed-Perm fd p)
listed-Perm fd (Permᴰ.swap {a} {b} {a'} {b'} {l} e e') =
    rw (e, e') (or_swap (is_fd fd b') (is_fd fd a') (listed fd l))
  where
    or_swap : (x y z : Bool) → (x || (y || z)) ≡ (y || (x || z))
    or_swap true true z = refl
    or_swap true false z = refl
    or_swap false true z = refl
    or_swap false false z = refl
listed-Perm fd (Permᴰ.trans p q) = listed-Perm fd p ∙ listed-Perm fd q

length-Perm : {l k : List ℤ} → Permᴰ l k → length l ≡ length k
length-Perm Permᴰ.nil = refl
length-Perm (Permᴰ.cons e p) = ap suc (length-Perm p)
length-Perm (Permᴰ.swap e e') = refl
length-Perm (Permᴰ.trans p q) = length-Perm p ∙ length-Perm q

UpTo-Perm : (limit : ℕ) {l k : List ℤ} → Permᴰ l k → UpTo limit l → UpTo limit k
UpTo-Perm limit Permᴰ.nil h = tt
UpTo-Perm limit (Permᴰ.cons e p) h =
    (subst (λ (a : ℤ). a ≤ℤ pos limit) e h.0, UpTo-Perm limit p h.1)
UpTo-Perm limit (Permᴰ.swap e e') h =
    (subst (λ (a : ℤ). a ≤ℤ pos limit) e' h.1.0, (subst (λ (a : ℤ). a ≤ℤ pos limit) e h.0, h.1.1))
UpTo-Perm limit (Permᴰ.trans p q) h = UpTo-Perm limit q (UpTo-Perm limit p h)

-- The list with the limit at its end.
abbrev with_limit : ℕ → List ℤ → List ℤ
with_limit limit ws = ws ++ (pos limit ∷ [])

check_list-UpTo :
    (limit : ℕ) (ws : List ℤ)
    → All (λ w. is_below (pos limit) w ≡ true) ws
    → UpTo limit (with_limit limit ws)
check_list-UpTo limit [] h = (omega arith, tt)
check_list-UpTo limit (pos w ∷ ws) h = (ground (arith, h.0), check_list-UpTo limit ws h.1)
check_list-UpTo limit (negsuc m ∷ ws) h = (tt, check_list-UpTo limit ws h.1)

check_list-done :
    (limit : ℕ) (ws : List ℤ)
    → All (λ w. is_below (pos limit) w ≡ true) ws
    → check_list (pos limit) ws ≡ done tt
unfolding check_list
check_list-done limit [] h = refl
check_list-done limit (w ∷ ws) h = rw (check_list, h.0) (check_list-done limit ws h.1)

limit_listed : (limit : ℕ) (ws : List ℤ) → listed limit (with_limit limit ws) ≡ true
limit_listed limit [] = ground arith
limit_listed limit (w ∷ ws) = rw (limit_listed limit ws) (or_true (is_fd limit w))
  where
    or_true : (b : Bool) → (b || true) ≡ true
    or_true true = refl
    or_true false = refl

listed-with_limit :
    (limit fd : ℕ) (ws : List ℤ) → fd < limit → listed fd (with_limit limit ws) ≡ listed fd ws
listed-with_limit limit fd [] lt = ground arith
listed-with_limit limit fd (w ∷ ws) lt = rw (listed-with_limit limit fd ws lt) refl

int_kept : (limit : ℕ) → limit ≤ int_max → to_int (pos limit) ≡ pos limit
int_kept limit small = ground arith

-- All descriptors below the limit that are open and not in the list are closed, in order, and no
-- others, where the limit is not above INT_MAX, the list is not empty, its numbers are below the
-- limit, `fcntl()` fails only for descriptors that are not open, and qsort() returns its argument in
-- order. Negative numbers and repeated ones in the list make no difference.
pub close_fd_descriptors-those :
    (is_open : ℕ → Bool) (limit : ℕ) (qsort : List ℤ → List ℤ) (w : ℤ) (ws : List ℤ)
    → limit ≤ int_max
    → All (λ v. is_below (pos limit) v ≡ true) (w ∷ ws)
    → Permᴰ ((w ∷ ws) ++ (pos limit ∷ [])) (qsort ((w ∷ ws) ++ (pos limit ∷ [])))
    → Sorted (qsort ((w ∷ ws) ++ (pos limit ∷ [])))
    → close_fd_descriptors (replies is_open) qsort (ok limit) (w ∷ ws)
      ≡ ran (those (λ fd. is_open fd && not (listed fd (w ∷ ws))) limit 0) tt
unfolding close_fd_descriptors close_below
close_fd_descriptors-those is_open limit qsort w ws small below same sorted =
    let white = w ∷ ws in
    ap (λ (last : ℤ). close_below (replies is_open) qsort last white) (int_kept limit small)
    ∙ rw (close_below, check_list-done limit white below)
        (list_loop-all is_open limit (limit + length white + 2) (qsort (with_limit limit white))
            (UpTo-Perm limit same (check_list-UpTo limit white below)) sorted
            (sym (listed-Perm limit same) ∙ limit_listed limit white)
            (omega (arith, length-Perm same, length-append white (pos limit ∷ [])))
          ∙ ap (λ (l : List ℕ). ran l tt)
              (those-cong _ _ limit 0 (λ x le lt.
                let kept =
                  sym (listed-Perm x same) ∙ listed-with_limit limit x white (omega (arith, lt)) in
                ap (λ (b : Bool). is_open x && not b) kept)))
