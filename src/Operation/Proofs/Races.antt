-- ===== src/Operation/Proofs/Races.antt =====
-- What the goroutine of Run and a caller of Cancel can do to an operation whose hook downloads an image:
-- operationCreate gets no cancel hook for it, and the hook of Run gives it a canceler.
use mercuryc.Base.{Bytes, List, [], ◌∷◌, Option, none, some, true, false, ◌≡◌, arith, refl, ◌∙◌}
use mercuryc.Operation.{Operation, cancelling, pending, settle_run}
use mercuryc.Operation.Threads.{System, Action, Finish, Runner, Caller, Hook, step, steps, fresh}

-- A new operation with a hook to run and none to cancel, as every caller of operationCreate makes them.
pub record IsNew (op : Operation) : Type 0 where
  pub runs : op.on_run ≡ true
  pub no_cancel : op.on_cancel ≡ false
  pub waits : op.status ≡ pending
  pub writable : op.readonly ≡ false
  pub open_channel : op.chan_done_closed ≡ false

-- The hook of Run has started a download, and Cancel has been let in and has written Cancelling.
abbrev pub to_contended : List Action → List Action
to_contended rest =
    Action.run_called ∷ Action.run_writes ∷ Action.run_begins ∷ Action.canceler_set
    ∷ Action.canceler_armed ∷ Action.cancel_called ∷ Action.cancel_writes ∷ Action.cancel_spawns
    ∷ rest

abbrev contended : Operation → System
contended op = record {
  op = record op { status = cancelling; canceler = some (record { armed = true }) };
  runner = Runner.working;
  caller = Caller.calling;
  hook = Hook.idle;
  panicked = false;
}

contend :
    (op : Operation) (rest : List Action)
    → IsNew op
    → steps (to_contended rest) (fresh op) ≡ steps rest (contended op)
unfolding steps step
contend op rest c = ground arith

-- Cancel stops the download and writes Cancelled, the hook of Run returns, both goroutines test readonly in
-- done, and then both lock and close.
abbrev pub to_closes : Option Bytes → List Action
to_closes result =
    Action.canceler_called
    ∷ Action.cancel_checks
    ∷ Action.run_returns result
    ∷ Action.caller_tests
    ∷ Action.run_tests
    ∷ Action.caller_closes
    ∷ Action.run_closes
    ∷ []

abbrev crashed : Option Bytes → Operation → System
crashed result op = record {
  op = record (unfold settle_run in settle_run result op) {
    readonly = true;
    canceler = some (record { armed = false });
    on_run = false;
    on_cancel = false;
    on_connect = false;
    chan_done_closed = true;
  };
  runner = Runner.finishing Finish.gone;
  caller = Caller.finishing Finish.gone;
  hook = Hook.idle;
  panicked = true;
}

contended-crashed :
    (op : Operation) (result : Option Bytes)
    → IsNew op
    → steps (to_closes result) (contended op) ≡ some (crashed result op)
unfolding steps step
contended-crashed op none c = ground arith
contended-crashed op (some x) c = ground arith

-- A new operation with a hook to run and none to cancel is run, its hook gives it a canceler and a download
-- sets the canceler's channel; then Cancel is called, stops the download and writes Cancelled, while the hook
-- returns any result. If both goroutines test readonly in done before either locks the operation, the second
-- to lock it closes a closed channel, which panics.
pub double_close :
    (op : Operation) (result : Option Bytes)
    → IsNew op
    → (t : System) × (steps (to_contended (to_closes result)) (fresh op) ≡ some t)
      × (t.panicked ≡ true)
double_close op result c =
    (crashed result op, contend op (to_closes result) c ∙ contended-crashed op result c, refl)

-- The same operation, if the caller of Cancel is through done before the hook of Run returns.
abbrev pub to_overwritten : Option Bytes → List Action
to_overwritten result =
    Action.canceler_called
    ∷ Action.cancel_checks
    ∷ Action.caller_tests
    ∷ Action.caller_closes
    ∷ Action.run_returns result
    ∷ Action.run_tests
    ∷ []

abbrev overwritten : Option Bytes → Operation → System
overwritten result op = record (crashed result op) { panicked = false }

-- The hook's result is then written over Cancelled in the operation that is already read-only.
contended-overwritten :
    (op : Operation) (result : Option Bytes)
    → IsNew op
    → steps (to_overwritten result) (contended op) ≡ some (overwritten result op)
unfolding steps step
contended-overwritten op none c = ground arith
contended-overwritten op (some x) c = ground arith

-- Cancel is through before the hook returns: the operation has been read-only and Cancelled, and the hook's
-- result is written over that.
cancel_overwritten :
    (op : Operation) (result : Option Bytes)
    → IsNew op
    → steps (to_contended (to_overwritten result)) (fresh op) ≡ some (overwritten result op)
cancel_overwritten op result c =
    contend op (to_overwritten result) c ∙ contended-overwritten op result c
