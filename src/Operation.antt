-- ===== src/Operation.antt =====
-- apollo/operations.go, with the status codes of shared/api/status_code.go and the canceler of
-- shared/cancel/canceler.go. An operation is a record; a method returns the new record and its reply.
-- The hooks are parameters of the program: a field says whether one is set, and what a hook returns
-- is an argument of the step behind its call.
pub mod Threads
pub mod Registry
pub mod Proofs
mod Tests
use mercuryc.Base.{
  ℕ, ◌+◌, ◌-◌, Bytes, List, [], ◌∷◌, ◌++◌, Option, none, some, Bool, true, false, ◌&&◌, ◌||◌, not,
  ◌==◌, leb, if◌then◌else◌, ◌≡◌, refl, codes,
}
use mercuryc.Base.Word.{Int64, minus_one, lt}

-- api.StatusCode
pub data Status : Type 0 where
  operation_created started stopped running cancelling pending starting stopping : Status
  aborting freezing frozen thawed error success failure cancelled : Status

pub Status-discrete : Discrete Status
Status-discrete = hlevel

unfoldable pub status_code : Status → ℕ
status_code operation_created = 100
status_code started = 101
status_code stopped = 102
status_code running = 103
status_code cancelling = 104
status_code pending = 105
status_code starting = 106
status_code stopping = 107
status_code aborting = 108
status_code freezing = 109
status_code frozen = 110
status_code thawed = 111
status_code error = 112
status_code success = 200
status_code failure = 400
status_code cancelled = 401

-- StatusCode.String
unfoldable pub status_string : Status → Bytes
status_string operation_created = codes "Operation created"
status_string started = codes "Started"
status_string stopped = codes "Stopped"
status_string running = codes "Running"
status_string cancelling = codes "Cancelling"
status_string pending = codes "Pending"
status_string success = codes "Success"
status_string failure = codes "Failure"
status_string cancelled = codes "Cancelled"
status_string starting = codes "Starting"
status_string stopping = codes "Stopping"
status_string aborting = codes "Aborting"
status_string freezing = codes "Freezing"
status_string frozen = codes "Frozen"
status_string thawed = codes "Thawed"
status_string error = codes "Error"

-- StatusCode.IsFinal
unfoldable pub is_final : Status → Bool
unfolding status_code
is_final s = leb 200 (status_code s)

-- The comparisons of a status with Pending and with Running.
abbrev pub is_pending : Status → Bool
is_pending pending = true
is_pending _ = false

abbrev pub is_running : Status → Bool
is_running running = true
is_running _ = false

-- operationClass
pub data Class : Type 0 where
  task websocket token : Class

unfoldable pub class_string : Class → Bytes
class_string task = codes "task"
class_string websocket = codes "websocket"
class_string token = codes "token"

abbrev pub is_websocket : Class → Bool
is_websocket websocket = true
is_websocket _ = false

abbrev pub is_token : Class → Bool
is_token token = true
is_token _ = false

-- cancel.Canceler: whether chCancel is set.
pub record Canceler : Type 0 where
  pub armed : Bool

-- Canceler.Cancelable and Canceler.Cancel; `none` is the error.
unfoldable pub cancelable : Canceler → Bool
cancelable c = c.armed

unfoldable pub cancel_download : Canceler → Option Canceler
cancel_download c = if c.armed then some (record { armed = false }) else none

-- A map of string keys, with the values as they are rendered.
abbrev pub Metadata : Type 0
Metadata = List (Bytes × Bytes)

abbrev pub Resources : Type 0
Resources = List (Bytes × List Bytes)

pub record Operation : Type 0 where
  pub id : Bytes
  pub class : Class
  pub created_at : ℕ
  pub updated_at : ℕ
  pub status : Status
  pub url : Bytes
  pub resources : Resources
  pub metadata : Metadata
  pub err : Bytes
  pub readonly : Bool
  pub canceler : Option Canceler
  pub on_run : Bool
  pub on_cancel : Bool
  pub on_connect : Bool
  pub chan_done_closed : Bool

pub data Error : Type 0 where
  only_pending_started only_running_cancelled cannot_cancel not_cancelable : Error
  only_websocket_connected only_running_connected only_active_updated readonly_updated : Error
  bad_metadata connect_hook_unexpected connect_hook_missing run_hook_token cancel_hook_token : Error
  hook_failed : Error

-- What a method call ends with; closing a closed channel panics.
pub data Reply : Type 0 where
  ok : Reply
  err : Error → Reply
  panic : Reply

-- The locked part of done.
unfoldable pub close_done : Operation → Operation × Reply
close_done op = if op.chan_done_closed then (op, panic) else (
  record op {
    readonly = true;
    on_run = false;
    on_cancel = false;
    on_connect = false;
    chan_done_closed = true;
  },
  ok,
)

-- done, where no other goroutine runs between its test and its locked part.
unfoldable pub done : Operation → Operation × Reply
unfolding close_done
done op = if op.readonly then (op, ok) else close_done op

-- The caller's part of Run. The goroutine that it starts is `finish_run`.
unfoldable pub run : Operation → Operation × Reply
run op =
    if not (is_pending op.status)
    then (op, err only_pending_started)
    else (record op { status = running }, ok)

-- What the goroutine of Run writes when onRun has returned; `none` is no error, and an error comes
-- with SmartError's text.
unfoldable pub settle_run : Option Bytes → Operation → Operation
settle_run none op = record op { status = success }
settle_run (some text) op = record op { status = failure; err = text }

unfoldable pub finish_run : Option Bytes → Operation → Operation × Reply
unfolding settle_run done
finish_run result op = done (settle_run result op)

unfoldable pub may_cancel : Operation → Bool
unfolding cancelable
may_cancel op =
    is_token op.class || (op.on_cancel || elim op.canceler [ none ↦ false | some c ↦ cancelable c ])

-- op.canceler.Cancel(), if there is a canceler.
unfoldable pub cancel_canceler : Operation → Option Operation
unfolding cancel_download
cancel_canceler op = elim op.canceler [
  | none ↦ some op
  | some c ↦ elim (cancel_download c) [
    | none ↦ none
    | some c' ↦ some (record op { canceler = some c' })
  ]
]

-- The end of Cancel for an operation without a hook.
unfoldable pub cancel_now : Operation → Operation × Reply
unfolding done
cancel_now op = if op.on_cancel then (op, ok) else done (record op { status = cancelled })

-- The part of Cancel behind the write of Cancelling.
unfoldable pub cancel_rest : Operation → Operation × Reply
unfolding cancel_canceler cancel_now
cancel_rest op = elim (cancel_canceler op) [
  | none ↦ (op, err not_cancelable)
  | some op' ↦ cancel_now op'
]

-- The caller's part of Cancel, with the goroutine of the hook, if one is set, still to run.
unfoldable pub cancel : Operation → Operation × Reply
unfolding may_cancel cancel_rest
cancel op =
    if not (is_running op.status)
    then (op, err only_running_cancelled)
    else if not (may_cancel op)
    then (op, err cannot_cancel)
    else cancel_rest (record op { status = cancelling })

-- The goroutine of Cancel behind onCancel's return: `true` is an error, which restores the status
-- that Cancel found.
unfoldable pub finish_cancel : Bool → Status → Operation → Operation × Reply
unfolding done
finish_cancel failed old_status op =
    if failed
    then (record op { status = old_status }, err hook_failed)
    else done (record op { status = cancelled })

-- The checks of Connect; the hook runs in a goroutine and its result changes no field.
unfoldable pub connect : Operation → Operation × Reply
connect op =
    if not (is_websocket op.class)
    then (op, err only_websocket_connected)
    else if not (is_running op.status)
    then (op, err only_running_connected)
    else (op, ok)

-- WaitFinal: `none` blocks until chanDone is closed. With a timeout the select returns false from
-- either of its cases.
unfoldable pub wait_final : Int64 → Operation → Option Bool
unfolding is_final
wait_final timeout op =
    if is_final op.status
    then some true
    else if timeout == minus_one
    then if op.chan_done_closed then some true else none
    else if lt 0 timeout
    then some false
    else some false

-- The two checks that UpdateResources and UpdateMetadata share.
unfoldable pub check_update : Operation → Reply
check_update op =
    if not (is_pending op.status) && not (is_running op.status)
    then err only_active_updated
    else if op.readonly
    then err readonly_updated
    else ok

unfoldable pub update_resources : ℕ → Resources → Operation → Operation × Reply
unfolding check_update
update_resources now resources op = elim (check_update op) [
  | ok ↦ (record op { updated_at = now; resources = resources }, ok)
  | err e ↦ (op, err e)
  | panic ↦ (op, panic)
]

-- shared.ParseMetadata is a parameter's result: `none` is its error.
unfoldable pub update_metadata : ℕ → Option Metadata → Operation → Operation × Reply
unfolding check_update
update_metadata now parsed op = elim (check_update op) [
  | ok ↦ elim parsed [
    | none ↦ (op, err bad_metadata)
    | some m ↦ (record op { updated_at = now; metadata = m }, ok)
  ]
  | err e ↦ (op, err e)
  | panic ↦ (op, panic)
]

-- The sanity checks of operationCreate on the class and the hooks.
unfoldable pub check_hooks : Class → Bool → Bool → Bool → Reply
check_hooks class on_run on_cancel on_connect =
    if not (is_websocket class) && on_connect
    then err connect_hook_unexpected
    else if is_websocket class && not on_connect
    then err connect_hook_missing
    else if is_token class && on_run
    then err run_hook_token
    else if is_token class && on_cancel
    then err cancel_hook_token
    else ok

unfoldable pub new_operation :
    Bytes → Bytes → ℕ → Class → Resources → Metadata → Bool → Bool → Bool → Operation
new_operation id url now class resources metadata on_run on_cancel on_connect = record {
  id = id;
  class = class;
  created_at = now;
  updated_at = now;
  status = pending;
  url = url;
  resources = resources;
  metadata = metadata;
  err = [];
  readonly = false;
  canceler = none;
  on_run = on_run;
  on_cancel = on_cancel;
  on_connect = on_connect;
  chan_done_closed = false;
}
