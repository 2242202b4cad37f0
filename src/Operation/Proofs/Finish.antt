-- ===== src/Operation/Proofs/Finish.antt =====
-- How an operation that nobody cancels ends.
use mercuryc.Base.{Bytes, List, [], ◌∷◌, Option, none, some, true, false, ◌≡◌, arith, refl, ap, ◌∙◌}
use mercuryc.Operation.{Operation, Status, success, failure, pending, may_cancel, settle_run}
use mercuryc.Operation.Threads.{System, Action, Finish, Runner, Caller, Hook, step, steps, fresh}
use mercuryc.Operation.Proofs.Safety.{
  IsUncancelled, is_quiet, quiet-IsUncancelled, fresh-IsUncancelled, steps_keep, split_bind,
}

-- The outcome of a hook.
abbrev pub outcome : Option Bytes → Status
outcome none = success
outcome (some text) = failure

-- The goroutine of Run behind its hook.
abbrev EndStage : Runner → Operation → Type 0
EndStage (Runner.finishing Finish.gone) op = op.readonly ≡ true
EndStage (Runner.finishing f) op = op.readonly ≡ false
EndStage _ op = ⊥

-- The hook has returned its result, and nothing has been cancelled.
record IsEnding (result : Option Bytes) (s : System) : Type 0 where
  closed : s.op.chan_done_closed ≡ s.op.readonly
  no_caller : s.caller ≡ Caller.idle
  no_hook : s.hook ≡ Hook.idle
  calm : s.panicked ≡ false
  status : s.op.status ≡ outcome result
  stage : EndStage s.runner s.op

-- Cancel refuses an operation that has succeeded or failed, so every step keeps this.
step-IsEnding :
    (result : Option Bytes) (a : Action) (s t : System)
    → IsEnding result s
    → step a s ≡ some t
    → IsEnding result t
unfolding step
step-IsEnding none _ s t i h = ground arith
step-IsEnding (some x) _ s t i h = ground arith

returns-IsEnding :
    (result : Option Bytes) (s t : System)
    → IsUncancelled s
    → s.runner ≡ Runner.working
    → step (Action.run_returns result) s ≡ some t
    → IsEnding result t
unfolding step settle_run
returns-IsEnding none s t i w h = ground (arith, i.stage)
returns-IsEnding (some x) s t i w h = ground (arith, i.stage)

-- The steps that the goroutine of Run has left.
abbrev pub steps_left : Runner → List Action
steps_left (Runner.finishing Finish.testing) = Action.run_tests ∷ Action.run_closes ∷ []
steps_left (Runner.finishing Finish.locking) = Action.run_closes ∷ []
steps_left _ = []

-- What the goroutine of Run leaves.
abbrev pub Ends : Option Bytes → System → Type 0
Ends result s =
    (v : System) × (steps (steps_left s.runner) s ≡ some v)
    × (v.op.readonly ≡ true)
    × (v.op.status ≡ outcome result)

-- The system with the operation closed by the goroutine of Run.
abbrev closed_by : System → System
closed_by s = record s {
  op = record (s.op) {
    readonly = true;
    on_run = false;
    on_cancel = false;
    on_connect = false;
    chan_done_closed = true;
  };
  runner = Runner.finishing Finish.gone;
}

testing_ends :
    (result : Option Bytes) (s : System)
    → IsEnding result s
    → s.runner ≡ Runner.finishing Finish.testing
    → steps (Action.run_tests ∷ Action.run_closes ∷ []) s ≡ some (closed_by s)
unfolding steps step
testing_ends result s i e = ground (arith, i.stage)

locking_ends :
    (result : Option Bytes) (s : System)
    → IsEnding result s
    → s.runner ≡ Runner.finishing Finish.locking
    → steps (Action.run_closes ∷ []) s ≡ some (closed_by s)
unfolding steps step
locking_ends result s i e = ground (arith, i.stage)

IsEnding-Ends : (result : Option Bytes) (s : System) → IsEnding result s → Ends result s
unfolding steps
IsEnding-Ends result s i = by_runner s.runner refl i.stage
  where
    by_runner : (r : Runner) → s.runner ≡ r → EndStage r s.op → Ends result s
    by_runner Runner.idle e g = elim g [ ]
    by_runner Runner.admitted e g = elim g [ ]
    by_runner Runner.spawned e g = elim g [ ]
    by_runner Runner.working e g = elim g [ ]
    by_runner (Runner.finishing Finish.testing) e g = (
      closed_by s,
      ap (λ r. steps (steps_left r) s) e ∙ testing_ends result s i e,
      refl,
      i.status,
    )
    by_runner (Runner.finishing Finish.locking) e g = (
      closed_by s,
      ap (λ r. steps (steps_left r) s) e ∙ locking_ends result s i e,
      refl,
      i.status,
    )
    by_runner (Runner.finishing Finish.gone) e g =
        (s, ap (λ r. steps (steps_left r) s) e, g, i.status)

-- For an operation that starts pending, not read-only, with its channel open, that cannot be cancelled and has
-- no canceler: let its hook be at work after a schedule in which the hook gives it no canceler or nobody calls
-- Cancel. Then, once the hook has returned, and whatever any goroutine does after that, the at most two steps
-- that the goroutine of Run has left can be taken, and leave the operation read-only with the status of the
-- hook's result.
pub uncancelled_closes :
    (schedule rest : List Action) (op : Operation) (t u : System) (result : Option Bytes)
    → op.status ≡ pending
    → op.readonly ≡ false
    → op.chan_done_closed ≡ false
    → may_cancel op ≡ false
    → op.canceler ≡ none
    → is_quiet schedule ≡ true
    → steps schedule (fresh op) ≡ some t
    → t.runner ≡ Runner.working
    → steps (Action.run_returns result ∷ rest) t ≡ some u
    → (v : System) × (steps (steps_left u.runner) u ≡ some v)
      × (v.op.readonly ≡ true)
      × (v.op.status ≡ outcome result)
unfolding steps
uncancelled_closes schedule rest op t u result p r c m n q h w k =
    let i =
      quiet-IsUncancelled schedule (fresh op) t q (record { fixed = m; no_canceler = n })
        (fresh-IsUncancelled op p r c) h in
    let (x, e, f) = split_bind (step (Action.run_returns result) t) (steps rest) u k in
    IsEnding-Ends result u (
      steps_keep (IsEnding result) (step-IsEnding result) rest x u
        (returns-IsEnding result t x i w e) f)
