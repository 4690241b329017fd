-- ===== src/Lib.antt =====
-- Verification of libert, a runtime library in C: sets of file descriptors, time and deadlines,
-- event queues and latches, the parsing of numbers and argument lists. Paths are from the repository's root.
--
-- Parts and files
--
-- Base: shared names. `Outcome` is a call that returns or stops the process (`ert_ensure()`,
-- `ERT_ABORT_IF()`), `Result` a return of 0 or of -1 with an errno (`ERT_ERROR_IF()`). Numbers are
-- natural; what the source computes in 64 or 32 bits is taken modulo 2^64 or 2^32.
--
-- FdSet (src/fdset.c, src/ert/fdset.h): `FdRange` is `struct Ert_FdRange`. The set is a red-black tree
-- made by the macros of src/ert/tree.h, a copy of BSD code: FdSet.Tree.RangeTree has its operations
-- (RB_INSERT, RB_REMOVE, RB_NFIND, RB_MIN, RB_MAX, RB_PREV, RB_NEXT, and the assignment to the range of
-- an element) and their laws, FdSet.ListTree fills it with an ordered list. FdSet.Ops has
-- `ert_insertFdSetRange()` (`insert_range`), `ert_removeFdSetRange()` (`remove_range`),
-- `ert_invertFdSet()` (`invert`), `ert_fillFdSet()` (`fill`) and `ert_visitFdSet()` (`visit_ranges`).
-- Whether malloc() succeeds is an argument. The two loops of `invert` run on fuel, the number of elements:
-- each round moves to the next element. A set is valid where its ranges are ordered with a gap between
-- each two (FdSet.Valid).
--
-- TimeScale (src/timescale.c, src/ert/timescale.h): `change_time_scale` is `ert_changeTimeScale_()`, and
-- the conversions have the names of theirs. Seconds are not negative.
--
-- TimeKeeping (src/timekeeping.c): the clocks, `ert_deadlineTimeExpired()` and its monotonic twin, the lap
-- times. A function that changes its mark returns the new mark. Uptime: `ert_procUptime()` of that file.
--
-- Deadline (src/deadline.c, and the SIGCONT tracker of src/process.c): `check_deadline_expired` is
-- `ert_checkDeadlineExpired()` with what the poll and wait methods return as arguments. It calls
-- TimeKeeping's `deadline_time_expired` and the tracker.
--
-- EventQueue (src/fileeventqueue.c): the state of a queue with all its activities, known by their index in
-- a list; `arm`, `purge`, `close_activity`, `receive` and `dispatch` are the operations, `poll` is
-- `ert_pollFileEventQueueActivity()`, which measures its timeout with TimeKeeping and TimeScale. What
-- epoll_ctl() and epoll_wait() return is an argument, and the methods of the activities are a function
-- on the whole state. The loop over the events runs on fuel, and EventQueue.Ends has how much is enough;
-- the loop around epoll_wait() runs over its replies. EventQueue.Steps has the lives of a queue as a
-- relation.
--
-- EventLatch (src/eventlatch.c, src/eventpipe.c): the state of one pipe with all latches, known by their
-- index; `set_latch`, `disable_latch`, `reset_latch`, `bind_latch`, `unbind_latch`, `poll_pipe` and
-- `reset_event_pipe` are the calls of the like names. A latch is passed with its index. What write() and read() on the pipe return is
-- an argument, and the loop that repeats an interrupted write runs over the replies.
--
-- Parse (src/parse.c): Parse has the number parsers, with strtoull() and strtoll() written out, and
-- Parse.Args the argument lists with the blocks of memory that they hold. The loop over the words of a
-- text ends when it has found as many as were counted, and is recursion on that number.
--
-- PollFd (src/pollfd.c): `poll_turn` is one turn of the loop of `ert_runPollFdLoop()`, a function of what the
-- clock and poll(2) reply (`Turn`); the actions of the caller are functions on the whole state, `Loop`.
-- `choose_timers` and `wait_ms` choose the timeout with TimeKeeping and TimeScale, `serve` calls the
-- actions. `Ran` (Base.Runs) is how a loop over replies ends; `starved` means that the replies given were
-- used up, and the theorems that promise a result give enough of them.
--
-- Signals (src/process.c): the watch of the four signals that end a process, as the table of its slots with
-- the actions that the system and the library have; `change_sig_action` is `changeSigAction_()` without its
-- locks, with the flags and the mask of `struct sigaction` and the refusal of SA_RESTART, and whether sigaction()
-- succeeds is a function of the signal. JobControl (src/jobcontrol.c) calls it:
-- `Jobs` is a job control with the methods that its process has, and the operations have the names of theirs.
--
-- ProcessState (src/process.c): `fetch_process_state` is `ert_fetchProcessState()` on the text of the file, and
-- `extract_exit_status` is `ert_extractProcessExitStatus()`.
--
-- Fd (src/fd.c): `io_loop` is the loop of `readFdDeadline_()` and `writeFdDeadline_()`, over the replies of the
-- deadline's check, of read() or write(), and of the wait; `read_fd_fully` is `ert_readFdFully()`, over what
-- each `ert_readFd()` returns. Fd.Sweep has the visitors that close descriptors, over what fcntl() replies for
-- each, with the ranges of FdSet; the limit of descriptors has 64 bits, and is taken to an `int`
-- where the source does so (`limit_range`, `close_fd_descriptors`).
--
-- Fd.Wait has `waitFdReady_()`, over what the clock and poll(2) reply in each turn, Fd.Flags the calls that read
-- and set flags and make duplicates, on the word of flags, and Fd.Calls those that are repeated while they are
-- interrupted, and the locks. Fd.Listed has `ert_closeFdDescriptors()`, with qsort() as a parameter and its loop
-- on fuel, the limit and the length of the list, and `ert_openStdFds()`.
--
-- ErrorFrame (src/error.c, src/ert/error.h): the stacks of error frames of one thread. A chunk has `capacity`
-- frames, at least one, and a stack's memory is a function of the chunk's number and of the frame's place in
-- it. A visit is the list of the frames that the visitor gets as long as it does not fail. ErrorFrame.Frozen has the writing and reading of
-- a sequence, over what each transfer returns.
--
-- Env (src/env.c): the environment is a list of names and values, with getenv(), setenv() and unsetenv() on it;
-- numbers are printed in decimal, on fuel that is one more than the number, and parsed by Parse.
--
-- Not modelled: threads, processes but for the tracker and the watches of signals, error messages and traces, files and sockets,
-- and the interleaving of threads within one call; the order in which a cleared set frees its elements; output.
pub mod Base
pub mod TimeScale
pub mod TimeKeeping
pub mod Uptime
pub mod Deadline
pub mod FdSet
pub mod Parse
pub mod EventQueue
pub mod EventLatch
pub mod PollFd
pub mod Signals
pub mod JobControl
pub mod ProcessState
pub mod Fd
pub mod Env
pub mod ErrorFrame
