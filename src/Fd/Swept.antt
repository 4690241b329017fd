-- ===== src/Fd/Swept.antt =====
-- Which descriptors the sweeps close.
use libert.Base.{
  ℕ, zero, suc, ◌+◌, ◌-◌, ◌≤◌, ◌<◌, ◌≡◌, refl, sym, ◌∙◌, ap, Bool, true, false, not, ◌&&◌, List, [],
  ◌∷◌, ◌++◌, min, ltb, leb, le→leb, leb→le, if◌then◌else◌, int_max, done, ebadf, Result, ok, err,
  ran, then_run, arith, Bool-cases, inl, inr,
}
use mathlib.Core.List.{append-nil, append_assoc}
use libert.FdSet.Range.{FdRange, covers, fd_range}
use libert.FdSet.Valid.{Gaps, IsValid, contains, contains-above, Gaps-weaken}
use libert.Fd.Sweep.{
  own_fd_valid, close_valid, close_span, white_list_end, white_list_visitor, visit_white_list,
  close_rest, limit_range, close_fd_except_white_list,
}

-- The descriptors that satisfy a test, of the `n` from `fd` on.
abbrev pub those : (ℕ → Bool) → ℕ → ℕ → List ℕ
those p zero fd = []
those p (suc n) fd = if p fd then fd ∷ those p n (suc fd) else those p n (suc fd)

-- What `fcntl()` returns where some descriptors are open.
abbrev pub replies : (ℕ → Bool) → ℕ → Result ℕ
replies is_open fd = if is_open fd then ok 0 else err ebadf

pub those-cong :
    (p q : ℕ → Bool) (n fd : ℕ)
    → ((x : ℕ) → fd ≤ x → x < fd + n → p x ≡ q x)
    → those p n fd ≡ those q n fd
those-cong p q zero fd h = refl
those-cong p q (suc n) fd h =
    let rest = those-cong p q n (suc fd) (λ x le lt. h x (omega arith) (omega arith)) in
    rw (h fd (omega arith) (omega arith), rest) refl

pub those_none :
    (p : ℕ → Bool) (n fd : ℕ) → ((x : ℕ) → fd ≤ x → x < fd + n → p x ≡ false) → those p n fd ≡ []
those_none p zero fd h = refl
those_none p (suc n) fd h =
    rw (h fd (omega arith) (omega arith))
      (those_none p n (suc fd) (λ x le lt. h x (omega arith) (omega arith)))

suc_add : (n m : ℕ) → suc n + m ≡ suc (n + m)
suc_add n m = omega arith

those-append : (p : ℕ → Bool) (n m fd : ℕ) → those p (n + m) fd ≡ those p n fd ++ those p m (fd + n)
those-append p zero m fd = ap (λ (k : ℕ). those p k fd) (omega arith) ∙ ap (those p m) (omega arith)
those-append p (suc n) m fd =
    let rest =
      those-append p n m (suc fd)
      ∙ ap (λ (k : ℕ). those p n (suc fd) ++ those p m k) (omega arith) in
    elim (Bool-cases (p fd)) [
      | inl yes_p ↦ rw (suc_add n m, yes_p) (ap (λ (l : List ℕ). fd ∷ l) rest)
      | inr no_p ↦ rw (suc_add n m, no_p) rest
    ]

pub those-cut :
    (p : ℕ → Bool) (a b c : ℕ)
    → a ≤ b
    → b ≤ c
    → those p (c - a) a ≡ those p (b - a) a ++ those p (c - b) b
those-cut p a b c hab hbc =
    ap (λ (k : ℕ). those p k a) (omega arith)
    ∙ those-append p (b - a) (c - b) a
    ∙ ap (λ (k : ℕ). those p (b - a) a ++ those p (c - b) k) (omega arith)

pub and_true : (b : Bool) → (b && true) ≡ b
and_true true = refl
and_true false = refl

pub and_false : (b : Bool) → (b && false) ≡ false
and_false true = refl
and_false false = refl

pub covers_before : (r : FdRange) (x : ℕ) → x < r.lhs → covers r x ≡ false
covers_before r x h = ground arith

pub covers_inside : (r : FdRange) (x : ℕ) → r.lhs ≤ x → x ≤ r.rhs → covers r x ≡ true
covers_inside r x h h' = ground arith

pub covers_after : (r : FdRange) (x : ℕ) → r.rhs < x → covers r x ≡ false
covers_after r x h = ground arith

module _ (is_open : ℕ → Bool) where
  pub close_valid-is_open :
      (fd : ℕ) (closed : List ℕ)
      → close_valid (replies is_open) fd closed
        ≡ ran (if is_open fd then closed ++ (fd ∷ []) else closed) tt
  unfolding close_valid
  close_valid-is_open fd closed = elim (Bool-cases (is_open fd)) [
    | inl opened ↦ rw (close_valid, own_fd_valid, opened) refl
    | inr shut ↦ rw (close_valid, own_fd_valid, shut) refl
  ]

  close_span-those :
      (n fd : ℕ) (closed : List ℕ)
      → close_span (replies is_open) n fd closed ≡ ran (closed ++ those is_open n fd) tt
  unfolding close_span
  close_span-those zero fd closed = ap (λ (l : List ℕ). ran l tt) (sym (append-nil closed))
  close_span-those (suc n) fd closed = elim (Bool-cases (is_open fd)) [
    | inl opened ↦
        rw
          (
            close_valid-is_open fd closed,
            opened,
            close_span-those n (suc fd) (closed ++ (fd ∷ [])),
            append_assoc closed (fd ∷ []) (those is_open n (suc fd)),
          )
          refl
    | inr shut ↦ rw (close_valid-is_open fd closed, shut) (close_span-those n (suc fd) closed)
  ]

  white_list_end-min : (limit : ℕ) (r : FdRange) → white_list_end limit r ≡ min (r.rhs + 1) limit
  unfolding white_list_end
  white_list_end-min limit r = ground arith

  -- A visit closes what is open before the range, as far as the limit.
  white_list_visitor-those :
      (limit fd : ℕ) (r : FdRange) (closed : List ℕ)
      → white_list_visitor (replies is_open) limit r fd closed
        ≡ ran
            (closed ++ those is_open (min r.lhs (min (r.rhs + 1) limit) - fd) fd)
            (leb limit (min (r.rhs + 1) limit), min (r.rhs + 1) limit)
  unfolding white_list_visitor
  white_list_visitor-those limit fd r closed =
      let e = min (r.rhs + 1) limit in
      let begin : (if ltb e r.lhs then e else r.lhs) ≡ min r.lhs e = ground arith in
      rw (white_list_end-min limit r, begin, close_span-those (min r.lhs e - fd) fd closed) refl

  limit_range-int :
      (limit : ℕ) → limit ≤ int_max → limit_range limit ≡ done (record { lhs = limit; rhs = limit })
  unfolding limit_range fd_range
  limit_range-int limit small = ground arith

  close_rest-those :
      (limit fd : ℕ) (closed : List ℕ)
      → limit ≤ int_max
      → close_rest (replies is_open) limit fd closed
        ≡ ran (closed ++ those is_open (limit - fd) fd) tt
  unfolding close_rest
  close_rest-those limit fd closed small =
      let here : min limit (min (limit + 1) limit) ≡ limit = omega arith in
      let last : min (limit + 1) limit ≡ limit = omega arith in
      rw
        (
          limit_range-int limit small,
          white_list_visitor-those limit fd (record { lhs = limit; rhs = limit }) closed,
          here,
          last,
          le→leb limit limit (omega arith),
        )
        refl

  -- What is left to close, from `fd` on.
  abbrev left : ℕ → List FdRange → ℕ → List ℕ
  left limit l fd = those (λ x. is_open x && not (contains l x)) (limit - fd) fd

  left-cons :
      (limit fd : ℕ) (r : FdRange) (l : List FdRange)
      → fd ≤ limit
      → Gaps fd (r ∷ l)
      → left limit (r ∷ l) fd
        ≡ those is_open (min r.lhs (min (r.rhs + 1) limit) - fd) fd
          ++ left limit l (min (r.rhs + 1) limit)
  left-cons limit fd r l le g =
      let e = min (r.rhs + 1) limit in
      let b = min r.lhs e in
      let p : ℕ → Bool = λ x. is_open x && not (contains (r ∷ l) x) in
      let q : ℕ → Bool = λ x. is_open x && not (contains l x) in
      let before : those p (b - fd) fd ≡ those is_open (b - fd) fd =
        those-cong p is_open (b - fd) fd (λ x lo hi.
          rw (contains-above r.lhs (r ∷ l) x (omega arith, g.1, g.2) (omega arith))
            (and_true (is_open x))) in
      let inside : those p (e - b) b ≡ [] =
        those_none p (e - b) b
          (λ x lo hi. rw (covers_inside r x (omega arith) (omega arith)) (and_false (is_open x))) in
      let after : those p (limit - e) e ≡ those q (limit - e) e =
        those-cong p q (limit - e) e (λ x lo hi. rw (covers_after r x (omega arith)) refl) in
      those-cut p fd b limit (omega (arith, g.0, g.1.ordered)) (omega arith)
      ∙ ap (λ (rest : List ℕ). those p (b - fd) fd ++ rest)
          (those-cut p b e limit (omega arith) (omega arith))
      ∙ rw (before, inside, after) refl

  visit_white_list-left :
      (limit fd : ℕ) (l : List FdRange) (closed : List ℕ)
      → limit ≤ int_max
      → fd ≤ limit
      → Gaps fd l
      → then_run
          (visit_white_list (replies is_open) limit l fd closed)
          (λ closed' fd'. close_rest (replies is_open) limit fd' closed')
        ≡ ran (closed ++ left limit l fd) tt
  unfolding visit_white_list
  visit_white_list-left limit fd [] closed small le g =
      close_rest-those limit fd closed small
      ∙ ap (λ (l : List ℕ). ran (closed ++ l) tt)
          (those-cong is_open _ (limit - fd) fd (λ x lo hi. sym (and_true (is_open x))))
  visit_white_list-left limit fd (r ∷ l) closed small le g =
      let e = min (r.rhs + 1) limit in
      let now = those is_open (min r.lhs e - fd) fd in
      elim (Bool-cases (leb limit e)) [
        | inl stops ↦
            rw (white_list_visitor-those limit fd r closed, stops)
              (let none_left : limit - e ≡ 0 = omega (arith, leb→le limit e stops) in
                close_rest-those limit e (closed ++ now) small
                ∙ rw (left-cons limit fd r l le g, none_left, append_assoc closed now []) refl)
        | inr goes ↦
            rw
              (
                white_list_visitor-those limit fd r closed,
                goes,
                visit_white_list-left limit e l (closed ++ now) small (omega arith)
                    (Gaps-weaken e (r.rhs + 2) l (omega arith) g.2),
                left-cons limit fd r l le g,
                append_assoc closed now (left limit l e),
              )
              refl
      ]

  -- Every descriptor below the limit that is open and not in the set is closed, once and in order,
  -- and no other: those of the white list stay open. The set is valid, `fcntl()` fails only for
  -- descriptors that are not open, and the limit is not above INT_MAX.
  pub close_fd_except_white_list-those :
      (limit : ℕ) (l : List FdRange)
      → limit ≤ int_max
      → IsValid l
      → close_fd_except_white_list (replies is_open) (ok limit) l
        ≡ ran (those (λ fd. is_open fd && not (contains l fd)) limit 0) tt
  unfolding close_fd_except_white_list
  close_fd_except_white_list-those limit l small g =
      visit_white_list-left limit 0 l [] small (omega arith) g
      ∙ ap (λ (k : ℕ). ran (those (λ fd. is_open fd && not (contains l fd)) k 0) tt) (omega arith)
