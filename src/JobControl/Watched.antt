-- ===== src/JobControl/Watched.antt =====
-- Watches of the signals, from their start to their end.
use libert.Base.{ℕ, ◌≡◌, refl, sym, none, some, done, ok, if◌then◌else◌}
use libert.Signals.{MethodId, next_action}
use libert.Signals.Restore.{listed, Distinct, Succeeds}
use libert.Signals.Slots.{Restorable}
use libert.Signals.Ends.{watch_signals-unwatch}
use libert.JobControl.{Jobs, Reply, raise_job_signal, watch_job_signals, unwatch_job_signals}

-- Job control that has no method for the signals can watch them and end the watch: it is then as
-- before, and the system has for a signal of the table what installing the former action gives, and
-- for another one what it had. The calls of sigaction() succeed, the signals of the table differ,
-- and no handler among the former actions has SA_RESTART.
pub watch_job_signals-unwatch :
    (reply revert unwatch : ℕ → Reply) (m : MethodId) (s : Jobs) (n : ℕ)
    → Succeeds reply
    → Succeeds unwatch
    → Distinct s.process.watches.slots
    → Restorable s.process.watches.signals s.process.watches.slots
    → s.job.raise_method ≡ none
    → (q : Jobs) × (watch_job_signals reply revert (some m) s ≡ done (ok tt, q))
      × ((unwatch_job_signals unwatch q).1.job ≡ s.job)
      × ((unwatch_job_signals unwatch q).1.process.watches.signals.actions n ≡ (
          if listed n s.process.watches.slots
          then next_action (s.process.watches.signals.actions n)
          else s.process.watches.signals.actions n))
unfolding watch_job_signals unwatch_job_signals
watch_job_signals-unwatch reply revert unwatch m s n granted undone h restorable idle =
    let w =
      watch_signals-unwatch reply revert unwatch raise_job_signal s.process.watches n granted undone
        h restorable in
    (
      record {
        job = record (s.job) { raise_method = some m };
        process = record (s.process) { watches = w.0 };
      },
      rw (watch_job_signals, idle, w.1) refl,
      rw (w.2, sym idle) refl,
      w.3,
    )
