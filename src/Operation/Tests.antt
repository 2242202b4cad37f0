-- ===== src/Operation/Tests.antt =====
-- The theorems on operations at concrete operations and schedules.
use mercuryc.Base.{List, [], ◌∷◌, none, some, true, false, ◌≡◌, ◌⊎◌, ◌↔◌, refl, codes, arith}
use mercuryc.Operation.{
  Operation, Status, Class, Reply, Error, Metadata, pending, running, cancelling, success, failure,
  cancelled, task, websocket, token, ok, err, only_pending_started, only_running_cancelled,
  only_active_updated, not_cancelable, run, cancel, update_resources, update_metadata, connect,
  wait_final, check_hooks, new_operation,
}
use mercuryc.Operation.Threads.{Action, Runner, Caller, Hook, Finish, System, steps, fresh}
use mercuryc.Operation.Proofs.Methods.{check_hooks_iff}
use mercuryc.Operation.Proofs.Safety.{IsClosed, uncancelled_safe}
use mercuryc.Operation.Proofs.Finish.{uncancelled_closes}
use mercuryc.Operation.Proofs.Races.{IsNew, double_close, to_contended, to_closes}

-- A new task that cannot be cancelled.
abbrev job : Operation
job = record {
  id = codes "1";
  class = task;
  created_at = 5;
  updated_at = 5;
  status = pending;
  url = codes "/1.0/operations/1";
  resources = [];
  metadata = [];
  err = [];
  readonly = false;
  canceler = none;
  on_run = true;
  on_cancel = false;
  on_connect = false;
  chan_done_closed = false;
}

-- Run has started the hook, and the hook has succeeded and its goroutine has closed the operation.
abbrev to_working : List Action
to_working = Action.run_called ∷ Action.run_writes ∷ Action.run_begins ∷ []

abbrev to_closed : List Action
to_closed =
    Action.run_called
    ∷ Action.run_writes
    ∷ Action.run_begins
    ∷ Action.run_returns none
    ∷ Action.run_tests
    ∷ Action.run_closes
    ∷ []

abbrev working_job : System
working_job = record {
  op = record job { status = running };
  runner = Runner.working;
  caller = Caller.idle;
  hook = Hook.idle;
  panicked = false;
}

abbrev closed_job : System
closed_job = record {
  op = record job { status = success; readonly = true; on_run = false; chan_done_closed = true };
  runner = Runner.finishing Finish.gone;
  caller = Caller.idle;
  hook = Hook.idle;
  panicked = false;
}

check_hooks_iff_example :
    (check_hooks token true false false ≡ ok)
    ↔ (((token ≡ websocket) ↔ (false ≡ true)) × (token ≡ token → (true ≡ false) × (false ≡ false)))
check_hooks_iff_example = check_hooks_iff token true false false

job-IsClosed : IsClosed job
job-IsClosed = record {
  closed = refl;
  no_run = λ h. ground arith;
  no_cancel = λ h. ground arith;
  no_connect = λ h. ground arith;
}

uncancelled_safe_example :
    (closed_job.panicked ≡ false)
    × (closed_job.op.readonly ≡ true
        → (closed_job.op.status ≡ success) ⊎ (closed_job.op.status ≡ failure))
unfolding mercuryc.Operation.may_cancel steps mercuryc.Operation.Threads.step
uncancelled_safe_example =
    uncancelled_safe to_closed job closed_job refl refl refl refl refl refl refl

-- The hook works on a download, whose canceler nobody calls, and fails.
abbrev download_job : System
download_job = record working_job {
  op = record job { status = running; canceler = some (record { armed = true }) };
}

abbrev failed_job : System
failed_job = record download_job {
  op = record job {
    status = failure;
    err = codes "no space";
    canceler = some (record { armed = false });
  };
  runner = Runner.finishing Finish.locking;
}

uncancelled_closes_example :
    (v : System) × (steps (Action.run_closes ∷ []) failed_job ≡ some v)
    × (v.op.readonly ≡ true)
    × (v.op.status ≡ failure)
unfolding mercuryc.Operation.may_cancel steps mercuryc.Operation.Threads.step
uncancelled_closes_example =
    uncancelled_closes
      (Action.run_called ∷ Action.run_writes ∷ Action.run_begins ∷ Action.canceler_set
        ∷ Action.canceler_armed ∷ [])
      (Action.canceler_reset ∷ Action.run_tests ∷ []) job download_job failed_job
      (some (codes "no space")) refl refl refl refl refl refl refl refl refl

job-IsNew : IsNew job
job-IsNew = record {
  runs = refl;
  no_cancel = refl;
  waits = refl;
  writable = refl;
  open_channel = refl;
}

double_close_example :
    (t : System) × (steps (to_contended (to_closes none)) (fresh job) ≡ some t)
    × (t.panicked ≡ true)
double_close_example = double_close job none job-IsNew
