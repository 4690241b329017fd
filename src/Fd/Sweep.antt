-- ===== src/Fd/Sweep.antt =====
-- Closing the descriptors outside a set, or those in it. `flags` is what `fcntl(fd, F_GETFL)`
-- returns for each descriptor, which is asked at most once. The state of a run is the list of the
-- descriptors closed. The limit is `rlim_cur` of `RLIMIT_NOFILE`, of 64 bits.
use libert.Base.{
  ℕ, zero, suc, ◌+◌, ◌-◌, Bool, true, false, List, [], ◌∷◌, ◌++◌, ltb, leb, ◌==◌, nonzero,
  if◌then◌else◌, ebadf, Result, ok, err, Ran, ran, failed, then_run, within, Outcome, abort,
}
use libert.Parse.{pos, negsuc, to_int}
use libert.FdSet.Range.{FdRange, fd_range}

-- `ert_ownFdValid()`, with `ert_ownFdFlags()`: a descriptor that is not open is an answer, not an error.
unfoldable pub own_fd_valid : Result ℕ → Result Bool
own_fd_valid reply = elim (reply) [
  | ok flags ↦ ok true
  | err e ↦ if e == ebadf then ok false else err e
]

abbrev pub Sweep : Type 0 → Type 0
Sweep A = Ran (List ℕ) A

-- Where the visit of a range of the white list ends: `fdEnd`. That the right bound and one is not an
-- `int` takes a limit that is none either.
unfoldable pub white_list_end : ℕ → FdRange → ℕ
white_list_end limit r = if nonzero limit then if ltb r.rhs limit then r.rhs + 1 else limit else 0

-- `Ert_FdRange(rlim_cur, rlim_cur)`: the bounds are `int`s, and a negative one stops the process.
unfoldable pub limit_range : ℕ → Outcome FdRange
unfolding fd_range
limit_range limit = elim (to_int (pos limit)) [
  | negsuc m ↦ abort
  | pos bound ↦ fd_range bound bound
]

module _ (flags : ℕ → Result ℕ) where
  -- The test and the close that the loops share.
  unfoldable pub close_valid : ℕ → List ℕ → Sweep (Unit {0})
  unfolding own_fd_valid
  close_valid fd closed = elim (own_fd_valid (flags fd)) [
    | ok valid ↦ ran (if valid then closed ++ (fd ∷ []) else closed) tt
    | err e ↦ failed closed e
  ]

  -- The loop over `n` descriptors from `fd` on.
  unfoldable pub close_span : ℕ → ℕ → List ℕ → Sweep (Unit {0})
  unfolding close_valid
  close_span zero fd closed = ran closed tt
  close_span (suc n) fd closed =
      then_run (close_valid fd closed) (λ closed' _. close_span n (suc fd) closed')

  -- `closeFdWhiteListVisitor_()`: what it returns, and the `mFd` that it leaves.
  unfoldable pub white_list_visitor : ℕ → FdRange → ℕ → List ℕ → Sweep (Bool × ℕ)
  unfolding white_list_end close_span
  white_list_visitor limit r fd closed =
      let fd_end = white_list_end limit r in
      let fd_begin = if ltb fd_end r.lhs then fd_end else r.lhs in
      then_run (close_span (fd_begin - fd) fd closed)
        (λ closed' _. ran closed' (leb limit fd_end, fd_end))

  -- `closeFdBlackListVisitor_()`: `n` is the distance from `fd` to the end of the range.
  unfoldable pub black_list_loop : ℕ → ℕ → ℕ → List ℕ → Sweep Bool
  unfolding close_valid
  black_list_loop limit zero fd closed =
      if fd == limit
      then ran closed true
      else then_run (close_valid fd closed) (λ closed' _. ran closed' false)
  black_list_loop limit (suc n) fd closed =
      if fd == limit
      then ran closed true
      else then_run (close_valid fd closed) (λ closed' _. black_list_loop limit n (suc fd) closed')

  unfoldable pub black_list_visitor : ℕ → FdRange → List ℕ → Sweep Bool
  unfolding black_list_loop
  black_list_visitor limit r closed = black_list_loop limit (r.rhs - r.lhs) r.lhs closed

  -- `ert_visitFdSet()` with the first visitor, which keeps `mFd`.
  unfoldable pub visit_white_list : ℕ → List FdRange → ℕ → List ℕ → Sweep ℕ
  unfolding white_list_visitor
  visit_white_list limit [] fd closed = ran closed fd
  visit_white_list limit (r ∷ rs) fd closed =
      then_run (white_list_visitor limit r fd closed) (λ closed' visited.
        if visited.0 then ran closed' visited.1 else visit_white_list limit rs visited.1 closed')

  -- The same with the second one, which keeps nothing.
  unfoldable pub visit_black_list : ℕ → List FdRange → List ℕ → Sweep (Unit {0})
  unfolding black_list_visitor
  visit_black_list limit [] closed = ran closed tt
  visit_black_list limit (r ∷ rs) closed =
      then_run (black_list_visitor limit r closed)
        (λ closed' done. if done then ran closed' tt else visit_black_list limit rs closed')

  -- The last part of `ert_closeFdExceptWhiteList()`, behind the last range, whose bounds are the limit
  -- as an `int`. The visitor returns 1 there, and an error that is left over stands for what it does
  -- not.
  unfoldable pub close_rest : ℕ → ℕ → List ℕ → Sweep (Unit {0})
  unfolding limit_range white_list_visitor
  close_rest limit fd closed = within (limit_range limit) (λ r.
      then_run (white_list_visitor limit r fd closed)
        (λ closed' visited. if visited.0 then ran closed' tt else failed closed' 0))

  -- `ert_closeFdExceptWhiteList()`
  unfoldable pub close_fd_except_white_list : Result ℕ → List FdRange → Sweep (Unit {0})
  unfolding visit_white_list close_rest
  close_fd_except_white_list (err e) ranges = failed [] e
  close_fd_except_white_list (ok limit) ranges =
      then_run (visit_white_list limit ranges 0 []) (λ closed fd. close_rest limit fd closed)

  -- `ert_closeFdOnlyBlackList()`
  unfoldable pub close_fd_only_black_list : Result ℕ → List FdRange → Sweep (Unit {0})
  unfolding visit_black_list
  close_fd_only_black_list (err e) ranges = failed [] e
  close_fd_only_black_list (ok limit) ranges = visit_black_list limit ranges []
