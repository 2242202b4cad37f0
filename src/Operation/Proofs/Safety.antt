-- ===== src/Operation/Proofs/Safety.antt =====
-- What holds of an operation under every schedule of its goroutines.
use mercuryc.Base.{
  List, [], ◌∷◌, Option, none, some, true, false, ◌>>=◌, ◌≡◌, arith, ◌⊎◌, inl, refl, subst,
  some_inj, Bool, not, ◌&&◌, ◌||◌, Bool-cases, inr,
}
use mercuryc.Operation.{Operation, running, success, failure, pending, may_cancel}
use mercuryc.Operation.Threads.{System, Action, Finish, Runner, Caller, Hook, step, steps, fresh}

-- A read-only operation has closed its channel and dropped its hooks, and no other has.
pub record IsClosed (op : Operation) : Type 0 where
  pub closed : op.chan_done_closed ≡ op.readonly
  pub no_run : op.readonly ≡ true → op.on_run ≡ false
  pub no_cancel : op.readonly ≡ true → op.on_cancel ≡ false
  pub no_connect : op.readonly ≡ true → op.on_connect ≡ false

step-IsClosed : (a : Action) (s t : System) → IsClosed s.op → step a s ≡ some t → IsClosed t.op
unfolding step
step-IsClosed (Action.run_called) s t c h = ground arith
step-IsClosed _ s t c h = ground arith

pub split_bind :
    (o : Option System) (f : System → Option System) (t : System)
    → (o >>= f) ≡ some t
    → (u : System) × (o ≡ some u) × (f u ≡ some t)
split_bind none f t h = absurd (cc)
split_bind (some u) f t h = (u, refl, h)

-- What every step keeps, every schedule keeps.
pub steps_keep :
    (P : System → Type 0) (keep : (a : Action) (s t : System) → P s → step a s ≡ some t → P t)
    (schedule : List Action) (s t : System)
    → P s
    → steps schedule s ≡ some t
    → P t
unfolding steps
steps_keep P keep [] s t p h = subst P (some_inj h) p
steps_keep P keep (a ∷ schedule) s t p h =
    let (u, e, k) = split_bind (step a s) (steps schedule) t h in
    steps_keep P keep schedule u t (keep a s u p e) k

-- An operation that is read-only exactly when its channel is closed, and has no hook left then,
-- stays so under every schedule of Run, Cancel and their goroutines.
pub fresh-IsClosed :
    (schedule : List Action) (op : Operation) (t : System)
    → IsClosed op
    → steps schedule (fresh op) ≡ some t
    → IsClosed t.op
fresh-IsClosed schedule op t c h =
    steps_keep (λ s. IsClosed s.op) step-IsClosed schedule (fresh op) t c h

-- How far the goroutine of Run is, where nothing cancels.
abbrev pub Stage : Runner → Operation → Type 0
Stage Runner.idle op =
    (op.readonly ≡ false) × ((op.status ≡ pending) ⊎ ((op.status ≡ running) × (op.on_run ≡ false)))
Stage Runner.admitted op = (op.readonly ≡ false) × (op.status ≡ pending)
Stage Runner.spawned op = (op.readonly ≡ false) × (op.status ≡ running) × (op.on_run ≡ true)
Stage Runner.working op = (op.readonly ≡ false) × (op.status ≡ running)
Stage (Runner.finishing Finish.gone) op =
    (op.readonly ≡ true) × ((op.status ≡ success) ⊎ (op.status ≡ failure))
Stage (Runner.finishing f) op =
    (op.readonly ≡ false) × ((op.status ≡ success) ⊎ (op.status ≡ failure))

-- A system in which nothing has been cancelled.
pub record IsUncancelled (s : System) : Type 0 where
  pub closed : s.op.chan_done_closed ≡ s.op.readonly
  pub no_caller : s.caller ≡ Caller.idle
  pub no_hook : s.hook ≡ Hook.idle
  pub calm : s.panicked ≡ false
  pub stage : Stage s.runner s.op

-- An operation that cannot be cancelled and has no canceler, so that no download makes it cancellable.
pub record IsFixed (op : Operation) : Type 0 where
  pub fixed : may_cancel op ≡ false
  pub no_canceler : op.canceler ≡ none

-- The actions that call Cancel, and that give an operation a canceler.
abbrev pub is_cancel : Action → Bool
is_cancel (Action.cancel_called) = true
is_cancel _ = false

abbrev pub is_set : Action → Bool
is_set (Action.canceler_set) = true
is_set _ = false

-- No action of the schedule passes the test.
abbrev pub free_of : (Action → Bool) → List Action → Bool
free_of test [] = true
free_of test (a ∷ schedule) = not (test a) && free_of test schedule

step-IsFixed :
    (a : Action) (s t : System) → is_set a ≡ false → IsFixed s.op → step a s ≡ some t → IsFixed t.op
unfolding step may_cancel
step-IsFixed (Action.canceler_set) s t n f h = ground arith
step-IsFixed _ s t n f h = ground arith

-- No caller of Cancel comes through its tests at an operation that is fixed.
step-IsUncancelled :
    (a : Action) (s t : System)
    → (is_cancel a ≡ false) ⊎ IsFixed s.op
    → IsUncancelled s
    → step a s ≡ some t
    → IsUncancelled t
unfolding step may_cancel
step-IsUncancelled (Action.run_called) s t q c h = ground arith
step-IsUncancelled (Action.cancel_called) s t q c h = elim q [
  | inl n ↦ absurd (cc)
  | inr f ↦ ground (arith, f.fixed)
]
step-IsUncancelled _ s t q c h = ground arith

-- What the steps that do not pass a test keep, a schedule free of it keeps.
pub steps_free :
    (test : Action → Bool) (P : System → Type 0)
    (keep : (a : Action) (s t : System) → test a ≡ false → P s → step a s ≡ some t → P t)
    (schedule : List Action) (s t : System)
    → free_of test schedule ≡ true
    → P s
    → steps schedule s ≡ some t
    → P t
unfolding steps
steps_free test P keep [] s t f p h = subst P (some_inj h) p
steps_free test P keep (a ∷ schedule) s t f p h =
    let (u, e, k) = split_bind (step a s) (steps schedule) t h in
    steps_free test P keep schedule u t (ground arith) (keep a s u (ground arith) p e) k

abbrev IsFixedUncancelled : System → Type 0
IsFixedUncancelled s = IsFixed s.op × IsUncancelled s

-- Either the hook of Run gives the operation no canceler, or nobody calls Cancel.
abbrev pub is_quiet : List Action → Bool
is_quiet schedule = free_of is_set schedule || free_of is_cancel schedule

pub quiet-IsUncancelled :
    (schedule : List Action) (s t : System)
    → is_quiet schedule ≡ true
    → IsFixed s.op
    → IsUncancelled s
    → steps schedule s ≡ some t
    → IsUncancelled t
quiet-IsUncancelled schedule s t q f i h = elim (Bool-cases (free_of is_set schedule)) [
  | inl n ↦
      (steps_free is_set IsFixedUncancelled
        (λ a u v n (f, i) k. (step-IsFixed a u v n f k, step-IsUncancelled a u v (inr f) i k))
        schedule s t n (f, i) h).1
  | inr n ↦
      steps_free is_cancel IsUncancelled (λ a u v n i k. step-IsUncancelled a u v (inl n) i k)
        schedule s t (ground arith) i h
]

pub fresh-IsUncancelled :
    (op : Operation)
    → op.status ≡ pending
    → op.readonly ≡ false
    → op.chan_done_closed ≡ false
    → IsUncancelled (fresh op)
fresh-IsUncancelled op p r c = record {
  closed = cc;
  no_caller = refl;
  no_hook = refl;
  calm = refl;
  stage = (r, inl p);
}

-- An operation that is pending, not read-only, with its channel open, that cannot be cancelled and has no
-- canceler, never panics, and is read-only only once it has succeeded or failed, under any schedule in which
-- the hook of Run gives it no canceler or nobody calls Cancel.
pub uncancelled_safe :
    (schedule : List Action) (op : Operation) (t : System)
    → op.status ≡ pending
    → op.readonly ≡ false
    → op.chan_done_closed ≡ false
    → may_cancel op ≡ false
    → op.canceler ≡ none
    → is_quiet schedule ≡ true
    → steps schedule (fresh op) ≡ some t
    → (t.panicked ≡ false)
      × (t.op.readonly ≡ true → (t.op.status ≡ success) ⊎ (t.op.status ≡ failure))
uncancelled_safe schedule op t p r c m n q h =
    let i =
      quiet-IsUncancelled schedule (fresh op) t q (record { fixed = m; no_canceler = n })
        (fresh-IsUncancelled op p r c) h in
    (i.calm, readonly_final t i)
  where
    readonly_final :
        (t : System)
        → IsUncancelled t
        → t.op.readonly ≡ true
        → (t.op.status ≡ success) ⊎ (t.op.status ≡ failure)
    readonly_final t i w = ground (arith, i.stage)
