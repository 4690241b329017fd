-- ===== src/Fd/Listed/Closed.antt =====
-- Which descriptors the loop closes.
use libert.Base.{
  ℕ, zero, suc, ◌+◌, ◌-◌, ◌≤◌, ◌<◌, ◌≡◌, refl, sym, ◌∙◌, ap, subst, Bool, true, false, ◌&&◌, not,
  List, [], ◌∷◌, ◌++◌, length, ◌==◌, if◌then◌else◌, ran, arith, Bool-cases, inl, inr, ==→eq, ==→ne,
}
use mathlib.Core.List.{append-nil, append_assoc}
use libert.Parse.{ℤ, pos, negsuc}
use libert.Fd.Swept.{those, those-cong, replies, close_valid-is_open, and_false, and_true}
use libert.Fd.Listed.{skip_same, list_loop}
use libert.Fd.Listed.Kept.{
  listed, Sorted, FromFd, UpTo, FromFd-weaken, listed_from, unlisted, skip_same-UpTo,
  skip_same-Sorted, skip_same-length, skip_same-FromFd, skip_same-listed,
}

none_left : (limit : ℕ) (ws : List ℤ) → FromFd (suc limit) ws → UpTo limit ws → ws ≡ []
none_left limit [] h u = refl
none_left limit (negsuc m ∷ ws) h u = absurd (omega (arith, h.0))
none_left limit (pos w ∷ ws) h u = absurd (omega (arith, h.0, u.0))

-- What the loop closes from a descriptor on.
abbrev pub left_open : (ℕ → Bool) → List ℤ → ℕ → Bool
left_open is_open ws x = is_open x && not (listed x ws)

those-first :
    (p : ℕ → Bool) (limit fd : ℕ)
    → fd < limit
    → those p (limit - fd) fd
      ≡ (if p fd then fd ∷ those p (limit - suc fd) (suc fd) else those p (limit - suc fd) (suc fd))
those-first p limit fd lt =
    let next : limit - fd ≡ suc (limit - suc fd) = omega (arith, lt) in
    ap (λ (n : ℕ). those p n fd) next

-- A descriptor that is listed is passed over.
pass_listed :
    (is_open : ℕ → Bool) (limit fd w : ℕ) (ws rest : List ℤ)
    → fd < limit
    → (fd == w) ≡ true
    → ((x : ℕ) → fd < x → listed x rest ≡ listed x ws)
    → those (left_open is_open (pos w ∷ ws)) (limit - fd) fd
      ≡ those (left_open is_open rest) (limit - suc fd) (suc fd)
pass_listed is_open limit fd w ws rest lt same h =
    let here : (w == fd) ≡ true = ground (arith, ==→eq fd w same) in
    those-first (left_open is_open (pos w ∷ ws)) limit fd lt
    ∙ rw (here, and_false (is_open fd))
        (those-cong _ _ (limit - suc fd) (suc fd) (λ x le up.
          let after : (w == x) ≡ false = ground (arith, ==→eq fd w same, le) in
          rw (after, h x le) refl))

-- One that is not is closed if it is open.
close_unlisted :
    (is_open : ℕ → Bool) (limit fd : ℕ) (ws : List ℤ) (closed : List ℕ)
    → fd < limit
    → listed fd ws ≡ false
    → (if is_open fd then closed ++ (fd ∷ []) else closed)
        ++ those (left_open is_open ws) (limit - suc fd) (suc fd)
      ≡ closed ++ those (left_open is_open ws) (limit - fd) fd
close_unlisted is_open limit fd ws closed lt h =
    rw (those-first (left_open is_open ws) limit fd lt, h, and_true (is_open fd))
      (elim (Bool-cases (is_open fd)) [
        | inl valid ↦ rw valid (append_assoc closed (fd ∷ []) _)
        | inr bad ↦ rw bad refl
      ])

pub list_loop-closes :
    (is_open : ℕ → Bool) (limit fuel fd : ℕ) (ws : List ℤ) (closed : List ℕ)
    → FromFd fd ws
    → UpTo limit ws
    → Sorted ws
    → listed limit ws ≡ true
    → limit + 1 + length ws ≤ fd + fuel
    → list_loop (replies is_open) fuel fd ws closed
      ≡ ran (closed ++ those (left_open is_open ws) (limit - fd) fd) tt
unfolding list_loop
list_loop-closes is_open limit fuel fd [] closed from up sorted last enough = absurd cc
list_loop-closes is_open limit fuel fd (negsuc m ∷ ws) closed from up sorted last enough =
    absurd (omega (arith, from.0))
list_loop-closes is_open limit zero fd (pos w ∷ ws) closed from up sorted last enough =
    absurd (omega (arith, enough, listed_from fd limit (pos w ∷ ws) from last))
list_loop-closes is_open limit (suc fuel) fd (pos w ∷ ws) closed from up sorted last enough =
    elim (Bool-cases (fd == w)) [
      | inl same ↦
          let rest = skip_same w ws in
          let behind = skip_same-FromFd w ws sorted.0 sorted.1 in
          let here = ==→eq fd w same in
          elim (Bool-cases (w == limit)) [
            | inl end ↦
                let none : limit - fd ≡ 0 = omega (arith, here, ==→eq w limit end) in
                let empty : rest ≡ [] = none_left w rest behind (
                  subst (λ (k : ℕ). UpTo k rest) (sym (==→eq w limit end))
                    (skip_same-UpTo limit w ws up.1)) in
                rw (list_loop, same, empty)
                  (ap (λ (l : List ℕ). ran l tt) (sym (rw none (append-nil closed))))
            | inr before ↦
                let lt : w < limit = omega (arith, ==→ne w limit before, up.0) in
                let same_limit : listed limit rest ≡ true =
                  skip_same-listed w limit ws lt ∙ (sym (rw before refl) ∙ last) in
                rw (list_loop, same)
                  (list_loop-closes is_open limit fuel (suc fd) rest closed
                      (subst (λ (k : ℕ). FromFd (suc k) rest) (sym here) behind)
                      (skip_same-UpTo limit w ws up.1) (skip_same-Sorted w ws sorted.1) same_limit
                      (omega (arith, enough, skip_same-length w ws))
                    ∙ ap (λ (l : List ℕ). ran (closed ++ l) tt)
                        (sym (
                          pass_listed is_open limit fd w ws rest (omega (arith, here, lt)) same
                            (λ x le. skip_same-listed w x ws (omega (arith, here, le))))))
          ]
      | inr other ↦
          let lt : fd < w = omega (arith, ==→ne fd w other, from.0) in
          let above : FromFd (suc fd) (pos w ∷ ws) =
            (lt, FromFd-weaken (suc fd) w ws lt sorted.0) in
          rw (list_loop, other, close_valid-is_open is_open fd closed)
            (list_loop-closes is_open limit fuel (suc fd) (pos w ∷ ws)
                (if is_open fd then closed ++ (fd ∷ []) else closed) above up sorted last
                (omega (arith, enough))
              ∙ ap (λ (l : List ℕ). ran l tt)
                  (close_unlisted is_open limit fd (pos w ∷ ws) closed (omega (arith, lt, up.0))
                    (unlisted (suc fd) fd (pos w ∷ ws) above (omega arith))))
    ]
