-- ===== src/JobControl/Callbacks.antt =====
-- The callbacks that job control gives to the process.
use libert.Base.{Option, none, some, List, [], ◌∷◌, ◌++◌, ok, err}
use libert.Signals.{MethodId}
use libert.JobControl.{JobControl, Reply}

-- What a callback does, in order.
pub data Event : Type 0 where
  called : MethodId → Event
  stopped_process : Event

-- The call of a method, if there is one; and what follows where it returns 0.
abbrev call_client : (MethodId → Reply) → Option MethodId → Reply × List Event
call_client returns none = (ok tt, [])
call_client returns (some m) = (returns m, called m ∷ [])

abbrev then_call : Reply × List Event → Reply × List Event → Reply × List Event
then_call first next = elim first.0 [
  | err e ↦ (err e, first.1)
  | ok _ ↦ (next.0, first.1 ++ next.1)
]

-- `ert_raiseJobControlSignal_()`, `ert_reapJobControl_()` and `ert_raiseJobControlSigCont_()`
pub raise_signal : (MethodId → Reply) → JobControl → Reply × List Event
raise_signal returns job = call_client returns job.raise_method

pub reap : (MethodId → Reply) → JobControl → Reply × List Event
reap returns job = call_client returns job.reap_method

pub raise_cont : (MethodId → Reply) → JobControl → Reply × List Event
raise_cont returns job = call_client returns job.continue_method

-- `ert_raiseJobControlSigStop_()`: what the methods and raise() return.
unfoldable pub raise_stop : (MethodId → Reply) → Reply → JobControl → Reply × List Event
raise_stop returns raised job =
    then_call (call_client returns job.pause_method)
      (then_call (raised, stopped_process ∷ []) (call_client returns job.resume_method))
