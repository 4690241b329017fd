-- ===== src/JobControl/Tests.antt =====
-- Watches of one job.
use libert.Base.{ℕ, ◌≡◌, refl, true, none, some, [], ◌∷◌, ok, err, eintr, ◌==◌, if◌then◌else◌}
use libert.Signals.{plain_action, default_action, Watches, watched_signals}
use libert.JobControl.{
  Jobs, Reply, create_job_control, watch_job_done, watch_job_stop, unwatch_job_stop,
}
use libert.JobControl.Callbacks.{raise_stop, called, stopped_process}
use libert.JobControl.Backed.{
  is_backed, created, stepped, done_watched, stop_watched, stop_unwatched, JobLife-is_backed,
}

abbrev process_watches : Watches
process_watches = record {
  method = none;
  slots = watched_signals;
  signals = record {
    actions = λ n. plain_action default_action;
    handlers = λ n. plain_action default_action;
  };
}

abbrev at_start : Jobs
at_start = record {
  job = create_job_control;
  process = record { watches = process_watches; children = none; stop = none; cont = none };
}

abbrev watched : Jobs
watched =
    (unwatch_job_stop
      (watch_job_stop (some 8) none (watch_job_done (ok tt) (some 9) at_start).1).1).1

JobLife-is_backed_example : is_backed watched ≡ true
JobLife-is_backed_example = JobLife-is_backed (
    stepped
      (stepped (stepped (created process_watches refl) (done_watched (ok tt) (some 9)))
        (stop_watched (some 8) none))
      stop_unwatched)

abbrev granted : ℕ → Reply
granted n = ok tt

-- The pause method, the stop, and the resume method, which fails.
stops :
    raise_stop
      (λ m. if m == 8 then ok tt else err eintr)
      (ok tt)
      (record create_job_control { pause_method = some 8; resume_method = some 9 })
    ≡ (err eintr, called 8 ∷ stopped_process ∷ called 9 ∷ [])
unfolding raise_stop
stops = refl
