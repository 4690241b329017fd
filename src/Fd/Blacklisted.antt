-- ===== src/Fd/Blacklisted.antt =====
-- Which descriptors `ert_closeFdOnlyBlackList()` closes.
use libert.Base.{
  ℕ, zero, suc, ◌+◌, ◌-◌, ◌≤◌, ◌≡◌, refl, sym, ◌∙◌, ap, ap₂, ==→eq, Bool, true, false, ◌&&◌, List,
  [], ◌∷◌, ◌++◌, int_max, leb, ◌==◌, if◌then◌else◌, ok, ran, arith, Bool-cases, inl, inr,
}
use mathlib.Core.List.{append-nil, append_assoc}
use libert.FdSet.Range.{FdRange}
use libert.FdSet.Valid.{Gaps, IsValid, contains, contains-above, Gaps-weaken}
use libert.Fd.Sweep.{
  black_list_loop, black_list_visitor, visit_black_list, close_fd_only_black_list,
}
use libert.Fd.Swept.{
  those, replies, those-cong, those_none, those-cut, and_true, and_false, covers_inside,
  covers_after, close_valid-is_open,
}

module _ (is_open : ℕ → Bool) (limit : ℕ) (below : (x : ℕ) → limit ≤ x → is_open x ≡ false) where
  none_from : (n fd : ℕ) → limit ≤ fd → those is_open n fd ≡ []
  none_from n fd le = those_none is_open n fd (λ x lo hi. below x (omega arith))

  one_more :
      (n fd : ℕ) (closed : List ℕ)
      → (if is_open fd then closed ++ (fd ∷ []) else closed) ++ those is_open n (suc fd)
        ≡ closed ++ those is_open (suc n) fd
  one_more n fd closed = elim (Bool-cases (is_open fd)) [
    | inl opened ↦ rw opened (append_assoc closed (fd ∷ []) (those is_open n (suc fd)))
    | inr shut ↦ rw shut refl
  ]

  at_limit : (n fd : ℕ) → (fd == limit) ≡ true → (leb fd limit && leb limit (fd + n)) ≡ true
  at_limit n fd h = ground arith

  last_one : (fd : ℕ) → (fd == limit) ≡ false → false ≡ (leb fd limit && leb limit (fd + 0))
  last_one fd h = ground arith

  next_one :
      (n fd : ℕ)
      → (fd == limit) ≡ false
      → (leb (suc fd) limit && leb limit (suc fd + n)) ≡ (leb fd limit && leb limit (fd + suc n))
  next_one n fd h = ground arith

  black_list_loop-those :
      (n fd : ℕ) (closed : List ℕ)
      → black_list_loop (replies is_open) limit n fd closed
        ≡ ran (closed ++ those is_open (suc n) fd) (leb fd limit && leb limit (fd + n))
  unfolding black_list_loop
  black_list_loop-those zero fd closed = elim (Bool-cases (fd == limit)) [
    | inl here ↦
        rw
          (
            black_list_loop,
            here,
            none_from 1 fd (omega (arith, ==→eq fd limit here)),
            at_limit 0 fd here,
            append-nil closed,
          )
          refl
    | inr elsewhere ↦
        rw (black_list_loop, elsewhere, close_valid-is_open is_open fd closed)
          (ap₂ ran (sym (append-nil _) ∙ one_more 0 fd closed) (last_one fd elsewhere))
  ]
  black_list_loop-those (suc n) fd closed = elim (Bool-cases (fd == limit)) [
    | inl here ↦
        rw
          (
            black_list_loop,
            here,
            none_from (suc (suc n)) fd (omega (arith, ==→eq fd limit here)),
            at_limit (suc n) fd here,
            append-nil closed,
          )
          refl
    | inr elsewhere ↦
        let closed' = if is_open fd then closed ++ (fd ∷ []) else closed in
        rw
          (
            black_list_loop,
            elsewhere,
            close_valid-is_open is_open fd closed,
            black_list_loop-those n (suc fd) closed',
          )
          (ap₂ ran (one_more (suc n) fd closed) (next_one n fd elsewhere))
  ]

  -- The members that are open, from `fd` on; no set goes beyond `INT_MAX`.
  abbrev picked : List FdRange → ℕ → List ℕ
  picked l fd = those (λ x. is_open x && contains l x) (limit + (int_max + 1) - fd) fd

  picked-cons :
      (fd : ℕ) (r : FdRange) (l : List FdRange)
      → Gaps fd (r ∷ l)
      → picked (r ∷ l) fd ≡ those is_open (suc (r.rhs - r.lhs)) r.lhs ++ picked l (r.rhs + 1)
  picked-cons fd r l g =
      let m = limit + (int_max + 1) in
      let p : ℕ → Bool = λ x. is_open x && contains (r ∷ l) x in
      let q : ℕ → Bool = λ x. is_open x && contains l x in
      let e = r.rhs + 1 in
      let before : those p (r.lhs - fd) fd ≡ [] = those_none p (r.lhs - fd) fd (λ x lo hi.
        rw (contains-above r.lhs (r ∷ l) x (omega arith, g.1, g.2) (omega arith))
          (and_false (is_open x))) in
      let inside : those p (e - r.lhs) r.lhs ≡ those is_open (e - r.lhs) r.lhs =
        those-cong p is_open (e - r.lhs) r.lhs
          (λ x lo hi. rw (covers_inside r x lo (omega arith)) (and_true (is_open x))) in
      let after : those p (m - e) e ≡ those q (m - e) e =
        those-cong p q (m - e) e (λ x lo hi. rw (covers_after r x (omega arith)) refl) in
      let size : e - r.lhs ≡ suc (r.rhs - r.lhs) = omega (arith, g.1.ordered) in
      those-cut p fd r.lhs m g.0 (omega (arith, g.1.ordered, g.1.bounded))
      ∙ ap (λ (rest : List ℕ). those p (r.lhs - fd) fd ++ rest)
          (those-cut p r.lhs e m (omega (arith, g.1.ordered)) (omega (arith, g.1.bounded)))
      ∙ rw (before, inside, after, size) refl

  beyond :
      (r : FdRange) (x : ℕ)
      → r.lhs ≤ r.rhs
      → (leb r.lhs limit && leb limit (r.lhs + (r.rhs - r.lhs))) ≡ true
      → r.rhs + 1 ≤ x
      → limit ≤ x
  beyond r x ordered h le = ground arith

  visit_black_list-picked :
      (fd : ℕ) (l : List FdRange) (closed : List ℕ)
      → Gaps fd l
      → visit_black_list (replies is_open) limit l closed ≡ ran (closed ++ picked l fd) tt
  unfolding visit_black_list black_list_visitor
  visit_black_list-picked fd [] closed g =
      rw
        (
          those_none (λ x. is_open x && false) (limit + (int_max + 1) - fd) fd
              (λ x lo hi. and_false (is_open x)),
          append-nil closed,
        )
        refl
  visit_black_list-picked fd (r ∷ l) closed g =
      let n = r.rhs - r.lhs in
      let now = those is_open (suc n) r.lhs in
      elim (Bool-cases (leb r.lhs limit && leb limit (r.lhs + n))) [
        | inl stops ↦
            let none_after : picked l (r.rhs + 1) ≡ [] =
              those_none (λ x. is_open x && contains l x) (limit + (int_max + 1) - (r.rhs + 1))
                (r.rhs + 1) (λ x lo hi. rw (below x (beyond r x g.1.ordered stops lo)) refl) in
            rw
              (
                black_list_loop-those n r.lhs closed,
                stops,
                picked-cons fd r l g,
                none_after,
                append-nil now,
              )
              refl
        | inr goes ↦
            rw
              (
                black_list_loop-those n r.lhs closed,
                goes,
                visit_black_list-picked (r.rhs + 1) l (closed ++ now)
                    (Gaps-weaken (r.rhs + 1) (r.rhs + 2) l (omega arith) g.2),
                picked-cons fd r l g,
                append_assoc closed now (picked l (r.rhs + 1)),
              )
              refl
      ]

  -- Every descriptor that is open and in the set is closed, once and in order, and no other. The set
  -- is valid, no descriptor at the limit or above it is open, and `fcntl()` fails only for
  -- descriptors that are not open.
  pub close_fd_only_black_list-those :
      (l : List FdRange)
      → IsValid l
      → close_fd_only_black_list (replies is_open) (ok limit) l
        ≡ ran (those (λ fd. is_open fd && contains l fd) limit 0) tt
  unfolding close_fd_only_black_list
  close_fd_only_black_list-those l g =
      let p : ℕ → Bool = λ fd. is_open fd && contains l fd in
      let tail : those p (limit + (int_max + 1) - limit) limit ≡ [] =
        those_none p (limit + (int_max + 1) - limit) limit (λ x lo hi. rw (below x lo) refl) in
      visit_black_list-picked 0 l [] g
      ∙ ap (λ (out : List ℕ). ran out tt)
          (those-cut p 0 limit (limit + (int_max + 1)) (omega arith) (omega arith)
            ∙ rw (tail, append-nil (those p (limit - 0) 0))
                (ap (λ (k : ℕ). those p k 0) (omega arith)))
