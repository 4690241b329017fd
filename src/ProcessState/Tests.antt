-- ===== src/ProcessState/Tests.antt =====
-- Lines of /proc/<pid>/stat.
use libert.Base.{ℕ, ◌≡◌, refl, none, List, [], ◌∷◌, ◌++◌, ok}
use libert.ProcessState.{
  zombie, fetch_process_state, state_of, scan_back, state_after, extract_exit_status, signaled,
}
use libert.ProcessState.Named.{fetch_process_state-named}

-- 7 (a) S
abbrev named : List ℕ
named = b'7' ∷ b' ' ∷ b'(' ∷ b'a' ∷ b')' ∷ b' ' ∷ b'S' ∷ []

fetch_process_state-named_example :
    fetch_process_state (ok (named ++ (b')' ∷ b' ' ∷ b'Z' ∷ b' ' ∷ b'1' ∷ []))) ≡ state_of b'Z'
fetch_process_state-named_example =
    fetch_process_state-named named (b' ' ∷ b'1' ∷ []) b'Z' (refl, (refl, (refl, tt)))

is_zombie : fetch_process_state (ok (named ++ (b')' ∷ b' ' ∷ b'Z' ∷ []))) ≡ (zombie, none)
unfolding fetch_process_state scan_back state_after state_of
is_zombie = refl

killed : extract_exit_status (signaled 9) ≡ 137
unfolding extract_exit_status
killed = refl
