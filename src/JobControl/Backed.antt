-- ===== src/JobControl/Backed.antt =====
-- The process calls job control only where a client's method is there to be called.
use libert.Base.{ℕ, ◌≡◌, Bool, true, false, ◌&&◌, Option, none, some, done, arith}
use libert.Signals.{MethodId, Watches, watch_signals, unwatch_signals, change_sig_action}
use libert.JobControl.{
  Jobs, Reply, either, watch_children, unwatch_children, create_job_control, watch_job_signals,
  unwatch_job_signals, watch_job_done, unwatch_job_done, watch_job_stop, unwatch_job_stop,
  watch_job_continue, unwatch_job_continue, close_job_control,
}

abbrev pub is_some : Option MethodId → Bool
is_some none = false
is_some (some m) = true

-- A method of the process that is set has one of the job to call.
abbrev backed : Option MethodId → Bool → Bool
backed none job = true
backed (some m) job = job

abbrev pub is_backed : Jobs → Bool
is_backed s =
    backed s.process.watches.method (is_some s.job.raise_method)
    && backed s.process.children (is_some s.job.reap_method)
    && backed s.process.stop (either s.job.pause_method s.job.resume_method)
    && backed s.process.cont (is_some s.job.continue_method)

-- The calls of job control, each with what it returns.
pub data JobStep : Jobs → Jobs → Type 0 where
  signals_watched :
      (reply revert : ℕ → Reply) (m : Option MethodId) {s s' : Jobs} {r : Reply}
      → watch_job_signals reply revert m s ≡ done (r, s')
      → JobStep s s'
  signals_unwatched : (reply : ℕ → Reply) {s : Jobs} → JobStep s (unwatch_job_signals reply s).1
  done_watched :
      (reply : Reply) (m : Option MethodId) {s : Jobs} → JobStep s (watch_job_done reply m s).1
  done_unwatched : (reply : Reply) {s : Jobs} → JobStep s (unwatch_job_done reply s).1
  stop_watched :
      (pause resume : Option MethodId) {s : Jobs} → JobStep s (watch_job_stop pause resume s).1
  stop_unwatched : {s : Jobs} → JobStep s (unwatch_job_stop s).1
  continue_watched : (m : Option MethodId) {s : Jobs} → JobStep s (watch_job_continue m s).1
  continue_unwatched : {s : Jobs} → JobStep s (unwatch_job_continue s).1
  closed :
      (reply : ℕ → Reply) (chld : Reply) {s s' : Jobs}
      → close_job_control reply chld s ≡ done s'
      → JobStep s s'

pub data JobLife : Jobs → Type 0 where
  created :
      (signals : Watches)
      → signals.method ≡ none
      → JobLife (record {
        job = create_job_control;
        process = record { watches = signals; children = none; stop = none; cont = none };
      })
  stepped : {s s' : Jobs} → JobLife s → JobStep s s' → JobLife s'

watch_job_stop-is_backed :
    (pause resume : Option MethodId) (s : Jobs)
    → is_backed s ≡ true
    → is_backed (watch_job_stop pause resume s).1 ≡ true
unfolding watch_job_stop
watch_job_stop-is_backed pause resume s h = ground (arith, h)

unwatch_job_stop-is_backed :
    (s : Jobs) → is_backed s ≡ true → is_backed (unwatch_job_stop s).1 ≡ true
unfolding unwatch_job_stop
unwatch_job_stop-is_backed s h = ground (arith, h)

watch_job_continue-is_backed :
    (m : Option MethodId) (s : Jobs)
    → is_backed s ≡ true
    → is_backed (watch_job_continue m s).1 ≡ true
unfolding watch_job_continue
watch_job_continue-is_backed m s h = ground (arith, h)

unwatch_job_continue-is_backed :
    (s : Jobs) → is_backed s ≡ true → is_backed (unwatch_job_continue s).1 ≡ true
unfolding unwatch_job_continue
unwatch_job_continue-is_backed s h = ground (arith, h)

watch_job_done-is_backed :
    (reply : Reply) (m : Option MethodId) (s : Jobs)
    → is_backed s ≡ true
    → is_backed (watch_job_done reply m s).1 ≡ true
unfolding watch_job_done watch_children change_sig_action
watch_job_done-is_backed reply m s h = ground (arith, h)

unwatch_job_done-is_backed :
    (reply : Reply) (s : Jobs) → is_backed s ≡ true → is_backed (unwatch_job_done reply s).1 ≡ true
unfolding unwatch_job_done unwatch_children change_sig_action
unwatch_job_done-is_backed reply s h = ground (arith, h)

unwatch_job_signals-is_backed :
    (reply : ℕ → Reply) (s : Jobs)
    → is_backed s ≡ true
    → is_backed (unwatch_job_signals reply s).1 ≡ true
unfolding unwatch_job_signals unwatch_signals
unwatch_job_signals-is_backed reply s h = ground (arith, h)

watch_job_signals-is_backed :
    (reply revert : ℕ → Reply) (m : Option MethodId) (s s' : Jobs) (r : Reply)
    → watch_job_signals reply revert m s ≡ done (r, s')
    → is_backed s ≡ true
    → is_backed s' ≡ true
unfolding watch_job_signals watch_signals
watch_job_signals-is_backed reply revert m s s' r e h = ground (arith, e, h)

close_job_control-is_backed :
    (reply : ℕ → Reply) (chld : Reply) (s s' : Jobs)
    → close_job_control reply chld s ≡ done s'
    → is_backed s ≡ true
    → is_backed s' ≡ true
unfolding close_job_control unwatch_signals unwatch_children change_sig_action
close_job_control-is_backed reply chld s s' e h = ground (arith, e, h)

-- In every life of a job control, whatever sigaction() returns, the process has a method of job control
-- only where a method of the client is there for it to call.
pub JobLife-is_backed : {s : Jobs} → JobLife s → is_backed s ≡ true
unfolding create_job_control
JobLife-is_backed (created signals off) = ground (arith, off)
JobLife-is_backed (stepped life step) = JobStep-is_backed step (JobLife-is_backed life)
  where
    JobStep-is_backed : {s s' : Jobs} → JobStep s s' → is_backed s ≡ true → is_backed s' ≡ true
    JobStep-is_backed (signals_watched reply revert m e) h =
        watch_job_signals-is_backed reply revert m _ _ _ e h
    JobStep-is_backed (signals_unwatched reply {s}) h = unwatch_job_signals-is_backed reply s h
    JobStep-is_backed (done_watched reply m {s}) h = watch_job_done-is_backed reply m s h
    JobStep-is_backed (done_unwatched reply {s}) h = unwatch_job_done-is_backed reply s h
    JobStep-is_backed (stop_watched pause resume {s}) h = watch_job_stop-is_backed pause resume s h
    JobStep-is_backed (stop_unwatched {s}) h = unwatch_job_stop-is_backed s h
    JobStep-is_backed (continue_watched m {s}) h = watch_job_continue-is_backed m s h
    JobStep-is_backed (continue_unwatched {s}) h = unwatch_job_continue-is_backed s h
    JobStep-is_backed (closed reply chld e) h = close_job_control-is_backed reply chld _ _ e h
