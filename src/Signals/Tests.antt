-- ===== src/Signals/Tests.antt =====
-- Watches of the four signals.
use libert.Base.{ℕ, ◌≡◌, refl, true, none, some, ◌==◌, if◌then◌else◌, Result, ok, err, done}
use libert.Signals.{
  SigAction, plain_action, default_action, foreign, catch_action, Signals, Watches, watched_signals,
  is_handler, is_allowed, next_action, set_action, install_action, change_sig_action, watch_slots,
  reset_slots, first_error, watch_signals, unwatch_signals,
}
use libert.Signals.Restore.{listed}
use libert.Signals.Ends.{watch_signals-unwatch, unwatch_signals-again}

abbrev untouched : ℕ → SigAction
untouched n = plain_action default_action

-- SIGINT has an action.
abbrev with_sigint : SigAction → Watches
with_sigint a = record {
  method = none;
  slots = watched_signals;
  signals = record {
    actions = λ n. if n == 2 then a else plain_action default_action;
    handlers = untouched;
  };
}

abbrev at_start : Watches
at_start = with_sigint (plain_action (foreign 5))

abbrev granted : ℕ → Result (Unit {0})
granted n = ok tt

watch_signals-unwatch_example :
    (q : Watches) × (watch_signals granted granted 7 at_start ≡ done (ok tt, q))
    × ((unwatch_signals granted q).0 ≡ ok tt)
    × ((unwatch_signals granted q).1.signals.actions 2 ≡ (
        if listed 2 at_start.slots
        then next_action (at_start.signals.actions 2)
        else at_start.signals.actions 2))
    × ((unwatch_signals granted q).1.signals.handlers 2 ≡ (
        if listed 2 at_start.slots
        then at_start.signals.actions 2
        else at_start.signals.handlers 2))
unfolding watched_signals is_allowed is_handler
watch_signals-unwatch_example =
    watch_signals-unwatch granted granted granted 7 at_start 2 (λ n. refl) (λ n. refl)
      ((refl, (refl, (refl, tt))), ((refl, (refl, tt)), ((refl, tt), (tt, tt))))
      (refl, (refl, (refl, (refl, tt))))

-- A program that has set another handler for SIGINT after the first unwatch loses it by the second.
abbrev since : Signals
since = record { actions = λ n. plain_action (foreign 6); handlers = untouched }

unwatch_signals-again_example :
    (q : Watches) × (watch_signals granted granted 7 at_start ≡ done (ok tt, q))
    × ((unwatch_signals granted q).0 ≡ ok tt)
    × ((unwatch_signals granted
            (record (unwatch_signals granted q).1 { signals = since })).1.signals.actions
          2
        ≡ next_action (at_start.signals.actions 2))
    × ((unwatch_signals granted
            (record (unwatch_signals granted q).1 { signals = since })).1.signals.handlers
          2
        ≡ at_start.signals.actions 2)
unfolding watched_signals is_allowed is_handler
unwatch_signals-again_example =
    unwatch_signals-again granted granted granted 7 at_start since 2 (λ n. refl) (λ n. refl)
      ((refl, (refl, (refl, tt))), ((refl, (refl, tt)), ((refl, tt), (tt, tt))))
      (refl, (refl, (refl, (refl, tt)))) refl

-- A handler with SA_RESTART, as signal() sets it, is not put back: the unwatch fails and the signal
-- stays with the library.
abbrev restarting : Watches
restarting = with_sigint (record (plain_action (foreign 5)) { restart = true })

abbrev watched : Watches
watched = record {
  method = some 7;
  slots = (watch_slots granted restarting.slots restarting.signals).1;
  signals = (watch_slots granted restarting.slots restarting.signals).2;
}

not_put_back : (unwatch_signals granted watched).0 ≡ err 0
unfolding watched_signals unwatch_signals reset_slots watch_slots first_error change_sig_action
    is_allowed is_handler install_action
not_put_back = refl

stays_caught : (unwatch_signals granted watched).1.signals.handlers 2 ≡ catch_action
unfolding watched_signals unwatch_signals reset_slots watch_slots first_error change_sig_action
    is_allowed is_handler install_action set_action next_action
stays_caught = refl
