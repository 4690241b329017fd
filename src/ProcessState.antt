-- ===== src/ProcessState.antt =====
-- src/process.c: the state of a process, from /proc/<pid>/stat, and the exit code that stands for how a
-- process ended. What the file holds is an argument.
pub mod Named
mod Tests
use libert.Base.{
  ℕ, ◌+◌, Bool, true, false, Option, none, some, List, [], ◌∷◌, ltb, ◌==◌, if◌then◌else◌, Errno,
  Result, ok, err,
}

abbrev pub enosys : Errno
enosys = 38

-- `struct Ert_ProcessState`
pub data ProcessState : Type 0 where
  state_error running sleeping waiting zombie stopped traced dead : ProcessState

-- The loop from the end of the buffer back to the last `)`: what follows that. The bytes before are in
-- reverse order.
unfoldable pub scan_back : List ℕ → List ℕ → Option (List ℕ)
scan_back [] after = none
scan_back (c ∷ before) after =
    let further = scan_back before (c ∷ after) in if c == b')' then some after else further

abbrev pub reverse_onto : List ℕ → List ℕ → List ℕ
reverse_onto [] acc = acc
reverse_onto (c ∷ cs) acc = reverse_onto cs (c ∷ acc)

-- The switch on the letter of the state.
unfoldable pub state_of : ℕ → ProcessState × Option Errno
state_of c =
    if c == b'R'
    then (running, none)
    else if c == b'S'
    then (sleeping, none)
    else if c == b'D'
    then (waiting, none)
    else if c == b'Z'
    then (zombie, none)
    else if c == b'T'
    then (stopped, none)
    else if c == b't'
    then (traced, none)
    else if c == b'X'
    then (dead, none)
    else (state_error, some enosys)

-- A space and one more byte are needed; without them no errno is set.
unfoldable pub state_after : List ℕ → ProcessState × Option Errno
unfolding state_of
state_after [] = (state_error, none)
state_after (s ∷ []) = (state_error, none)
state_after (s ∷ c ∷ rest) = if s == b' ' then state_of c else (state_error, none)

-- `ert_fetchProcessState()`, with what reading the file returns.
unfoldable pub fetch_process_state : Result (List ℕ) → ProcessState × Option Errno
unfolding scan_back state_after
fetch_process_state (err e) = (state_error, some e)
fetch_process_state (ok buf) = elim (scan_back (reverse_onto buf []) []) [
  | none ↦ (state_error, none)
  | some after ↦ state_after after
]

-- What WIFEXITED(), WIFSIGNALED() and the like tell of a status.
pub data WaitStatus : Type 0 where
  exited signaled : ℕ → WaitStatus
  other_status : WaitStatus

-- `ert_extractProcessExitStatus()`
unfoldable pub extract_exit_status : WaitStatus → ℕ
extract_exit_status (exited code) = code
extract_exit_status (signaled signal) = if ltb 255 (128 + signal) then 255 else 128 + signal
extract_exit_status other_status = 255
