-- ===== src/Operation/Proofs/Methods.antt =====
-- What the methods of an operation do, one at a time, and the table's handlers.
use mercuryc.Base.{ℕ, Option, some, Bool, true, false, ◌≡◌, ◌≢◌, ◌↔◌, arith, refl, ◌⊎◌}
use mercuryc.Operation.{
  Operation, Class, websocket, token, running, cancelling, is_final, Resources, Metadata, ok, err,
  not_cancelable, only_pending_started, only_running_cancelled, only_active_updated, run, cancel,
  update_resources, update_metadata, check_hooks, wait_final, connect,
}

-- An operation whose status is final is changed by none of its methods: Run, Cancel and both
-- updates refuse it, Connect refuses it, and a wait returns at once.
pub final_frozen :
    (op : Operation) (now : ℕ) (resources : Resources) (metadata : Option Metadata) (timeout : ℕ)
    → is_final op.status ≡ true
    → (run op ≡ (op, err only_pending_started))
      × (cancel op ≡ (op, err only_running_cancelled))
      × (update_resources now resources op ≡ (op, err only_active_updated))
      × (update_metadata now metadata op ≡ (op, err only_active_updated))
      × ((connect op).0 ≡ op)
      × ((connect op).1 ≢ ok)
      × (wait_final timeout op ≡ some true)
unfolding run cancel update_resources update_metadata connect wait_final is_final
final_frozen op now resources metadata timeout h = ground arith

-- The sanity checks pass exactly for the websocket operations with a Connect hook and the others
-- without one, where a token operation has neither a Run hook nor a Cancel hook.
pub check_hooks_iff :
    (class : Class) (on_run on_cancel on_connect : Bool)
    → (check_hooks class on_run on_cancel on_connect ≡ ok) ↔ (
        ((class ≡ websocket) ↔ (on_connect ≡ true))
        × (class ≡ token → (on_run ≡ false) × (on_cancel ≡ false)))
unfolding check_hooks
check_hooks_iff Class.task on_run on_cancel on_connect =
    (λ h. ((λ e. cc, λ e. ground arith), λ e. cc), λ (w, t). ground arith)
check_hooks_iff Class.websocket on_run on_cancel on_connect =
    (λ h. ((λ e. ground arith, λ e. refl), λ e. cc), λ (w, t). ground (arith, w.0 refl))
check_hooks_iff Class.token on_run on_cancel on_connect =
    (λ h. ((λ e. cc, λ e. ground arith), λ e. ground arith), λ (w, t). ground (arith, t refl))

-- A running operation whose download can no longer be cancelled, and that is a token or has a
-- Cancel hook: Cancel fails and still leaves it marked as cancelling, where Run, a second Cancel
-- and the updates refuse it.
cancel_stuck :
    (op : Operation) (now : ℕ) (resources : Resources)
    → op.status ≡ running
    → op.canceler ≡ some (record { armed = false })
    → (op.class ≡ token) ⊎ (op.on_cancel ≡ true)
    → (cancel op ≡ (record op { status = cancelling }, err not_cancelable))
      × (run (cancel op).0 ≡ ((cancel op).0, err only_pending_started))
      × (cancel (cancel op).0 ≡ ((cancel op).0, err only_running_cancelled))
      × (update_resources now resources (cancel op).0 ≡ ((cancel op).0, err only_active_updated))
unfolding cancel run update_resources
cancel_stuck op now resources r c k = ground arith
