-- ===== src/Deadline/Restart.antt =====
-- A deadline across a stop of the process.
use libert.Base.{ℕ, ◌+◌, ◌^◌, ◌≤◌, ◌<◌, ◌≡◌, ◌≢◌, Option, some, u64_mod, done, ok, arith}
use libert.TimeScale.{Duration}
use libert.TimeKeeping.{deadline_time_expired}
use libert.Deadline.{
  SigContCount, Deadline, Ready, sigcont, fetch_sigcont_tracker, finish_check,
  check_deadline_expired,
}

-- The handler of SIGCONT always moves the tracker, also where its count wraps round.
fetch-sigcont :
    (c : SigContCount) → c < 2 ^ 32 → fetch_sigcont_tracker (sigcont c) ≢ fetch_sigcont_tracker c
unfolding fetch_sigcont_tracker sigcont
fetch-sigcont c h = omega arith

-- For a deadline with a period and a mark: a check that finds a whole period gone, after one
-- SIGCONT since the tracker was read, does not time out. It returns 0, and the next check, at any
-- time that is set, has the whole period before it once more, where neither poll fails.
pub check_deadline_expired-restarts :
    (d : Deadline) (time period c n : ℕ) (wait : Option Duration → Ready) (later count m : ℕ)
    (wait' : Option Duration → Ready)
    → d.duration ≡ some period
    → d.sigcont_tracker ≡ fetch_sigcont_tracker c
    → c < 2 ^ 32
    → 0 < d.since
    → d.since + period ≤ time
    → time < u64_mod
    → 0 < later
    → (d' : Deadline) × (check_deadline_expired d (done time) (sigcont c) (ok n) wait
        ≡ done (ok 0, d'))
      × (d'.expired ≡ d.expired)
      × (check_deadline_expired d' (done later) count (ok m) wait'
          ≡ finish_check
              (record d' { time = later; since = later; remaining = period })
              m
              (wait' (some period)))
unfolding check_deadline_expired deadline_time_expired
check_deadline_expired-restarts d time period c n wait later count m wait' limited tracked hc pos
      late fits h =
    (
      record d {
        time = time;
        remaining = 0;
        sigcont_tracker = fetch_sigcont_tracker (sigcont c);
        since = 0;
      },
      ground (arith, fetch-sigcont c hc),
      ground arith,
      ground arith,
    )
