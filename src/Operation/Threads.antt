-- ===== src/Operation/Threads.antt =====
-- The goroutines of one operation: that of Run, the caller of Cancel, that of Cancel's hook, and that of a
-- download which the hook of Run can start (apollo/daemon_images.go, shared/cancel/canceler.go). A step of
-- one of them runs up to the next point where another may take over: each locked section is a step, and so
-- are the tests at the head of Run, Cancel and done, each call of a hook, and each write to the canceler.
-- Run is called once, and one caller of Cancel comes through its tests; the download may set and reset the
-- canceler's channel at any time once the canceler is there, which allows more schedules than the code has.
use mercuryc.Base.{
  Bytes, List, [], ◌∷◌, Option, none, some, Bool, true, false, ◌&&◌, if◌then◌else◌, ◌>>=◌,
}
use mercuryc.Operation.{
  Operation, Canceler, Status, running, cancelling, cancelled, is_pending, is_running, panic,
  close_done, settle_run, may_cancel, cancel_canceler,
}

-- A goroutine inside done: before its test of readonly, behind it, and out of it.
pub data Finish : Type 0 where
  testing locking gone : Finish

pub data Runner : Type 0 where
  idle admitted spawned working : Runner
  finishing : Finish → Runner

-- The caller of Cancel: behind its tests, behind the write of Cancelling over a status, behind the start of
-- the hook's goroutine, behind the canceler's call, and in done if there was no hook.
pub data Caller : Type 0 where
  idle admitted calling checking : Caller
  written : Status → Caller
  finishing : Finish → Caller

-- The goroutine of Cancel's hook, with the status that Cancel found.
pub data Hook : Type 0 where
  idle : Hook
  spawned working : Status → Hook
  finishing : Finish → Hook

pub record System : Type 0 where
  pub op : Operation
  pub runner : Runner
  pub caller : Caller
  pub hook : Hook
  pub panicked : Bool

pub data Action : Type 0 where
  run_called run_writes run_begins run_tests run_closes : Action
  run_returns : Option Bytes → Action
  canceler_set canceler_armed canceler_reset : Action
  cancel_called cancel_writes cancel_spawns : Action
  canceler_called cancel_checks caller_tests caller_closes : Action
  hook_begins hook_tests hook_closes : Action
  hook_returns : Bool → Action

-- The test of readonly at the head of done.
abbrev pub test_readonly : Operation → Finish
test_readonly op = if op.readonly then gone else locking

-- The locked part of done, by one goroutine, whose new state `put` writes.
unfoldable pub close : (System → System) → System → System
unfolding close_done
close put s =
    let (op', reply) = close_done s.op in
    put (record s { op = op'; panicked = elim reply [ panic ↦ true | _ ↦ s.panicked ] })

-- A goroutine that starts calls its hook, which is nil if done has been there before.
abbrev pub begin : Bool → System → System → System
begin set s t = if set then t else record s { panicked = true }

unfoldable pub step_runner : Action → Runner → System → Option System
unfolding settle_run close
step_runner run_called idle s =
    if is_pending s.op.status then some (record s { runner = Runner.admitted }) else none
step_runner run_writes admitted s = some (record s {
  op = record (s.op) { status = running };
  runner = if s.op.on_run then Runner.spawned else idle;
})
step_runner run_begins spawned s = some (begin s.op.on_run s (record s { runner = Runner.working }))
step_runner (run_returns result) working s =
    some (record s { op = settle_run result s.op; runner = Runner.finishing testing })
step_runner canceler_set working s =
    some (record s { op = record (s.op) { canceler = some (record { armed = false }) } })
step_runner run_tests (finishing testing) s =
    some (record s { runner = Runner.finishing (test_readonly s.op) })
step_runner run_closes (finishing locking) s =
    some (close (λ t. record t { runner = Runner.finishing gone }) s)
step_runner _ _ s = none

unfoldable pub step_caller : Action → Caller → System → Option System
unfolding may_cancel cancel_canceler close
step_caller cancel_called idle s =
    if is_running s.op.status && may_cancel s.op
    then some (record s { caller = Caller.admitted })
    else none
step_caller cancel_writes admitted s =
    some
      (record s { op = record (s.op) { status = cancelling }; caller = Caller.written s.op.status })
step_caller cancel_spawns (written old) s = some (record s {
  caller = Caller.calling;
  hook = if s.op.on_cancel then Hook.spawned old else s.hook;
})
step_caller canceler_called calling s = elim (cancel_canceler s.op) [
  | none ↦ some (record s { caller = Caller.finishing gone })
  | some op' ↦ some (record s { op = op'; caller = Caller.checking })
]
step_caller cancel_checks checking s = some (
    if s.op.on_cancel
    then record s { caller = Caller.finishing gone }
    else record s { op = record (s.op) { status = cancelled }; caller = Caller.finishing testing })
step_caller caller_tests (finishing testing) s =
    some (record s { caller = Caller.finishing (test_readonly s.op) })
step_caller caller_closes (finishing locking) s =
    some (close (λ t. record t { caller = Caller.finishing gone }) s)
step_caller _ _ s = none

unfoldable pub step_hook : Action → Hook → System → Option System
unfolding close
step_hook hook_begins (spawned old) s =
    some (begin s.op.on_cancel s (record s { hook = Hook.working old }))
step_hook (hook_returns failed) (working old) s = some (
    if failed
    then record s { op = record (s.op) { status = old }; hook = Hook.finishing gone }
    else record s { op = record (s.op) { status = cancelled }; hook = Hook.finishing testing })
step_hook hook_tests (finishing testing) s =
    some (record s { hook = Hook.finishing (test_readonly s.op) })
step_hook hook_closes (finishing locking) s =
    some (close (λ t. record t { hook = Hook.finishing gone }) s)
step_hook _ _ s = none

-- The goroutine of CancelableDownload: it sets the channel of the canceler, and resets it at its end.
unfoldable pub step_download : Bool → Option Canceler → System → Option System
step_download armed none s = none
step_download armed (some c) s =
    some (record s { op = record (s.op) { canceler = some (record { armed = armed }) } })

-- The goroutine that an action belongs to.
abbrev pub dispatch : Action → System → Option System
dispatch run_called s = step_runner run_called s.runner s
dispatch run_writes s = step_runner run_writes s.runner s
dispatch canceler_set s = step_runner canceler_set s.runner s
dispatch canceler_armed s = step_download true s.op.canceler s
dispatch canceler_reset s = step_download false s.op.canceler s
dispatch run_begins s = step_runner run_begins s.runner s
dispatch (run_returns r) s = step_runner (run_returns r) s.runner s
dispatch run_tests s = step_runner run_tests s.runner s
dispatch run_closes s = step_runner run_closes s.runner s
dispatch cancel_called s = step_caller cancel_called s.caller s
dispatch cancel_writes s = step_caller cancel_writes s.caller s
dispatch cancel_spawns s = step_caller cancel_spawns s.caller s
dispatch canceler_called s = step_caller canceler_called s.caller s
dispatch cancel_checks s = step_caller cancel_checks s.caller s
dispatch caller_tests s = step_caller caller_tests s.caller s
dispatch caller_closes s = step_caller caller_closes s.caller s
dispatch hook_begins s = step_hook hook_begins s.hook s
dispatch (hook_returns f) s = step_hook (hook_returns f) s.hook s
dispatch hook_tests s = step_hook hook_tests s.hook s
dispatch hook_closes s = step_hook hook_closes s.hook s

-- One step of the system; `none` if the action cannot be taken. A panic stops the program.
unfoldable pub step : Action → System → Option System
unfolding step_runner step_caller step_hook step_download
step a s = if s.panicked then none else dispatch a s

-- The states that a schedule leads to.
unfoldable pub steps : List Action → System → Option System
steps [] s = some s
steps (a ∷ schedule) s = step a s >>= steps schedule

-- An operation that nothing has been done to.
abbrev pub fresh : Operation → System
fresh op = record { op = op; runner = idle; caller = idle; hook = idle; panicked = false }
