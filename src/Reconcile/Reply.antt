-- ===== src/Reconcile/Reply.antt =====
-- internal/controller/upgradeaccelerator_controller.go: what `Reconcile` returns, and the two calls
-- that end it when they fail.
use openshift_upgrade_accele.Prelude.{ℕ, Option, none, some, List, [], ◌∷◌, String}
use openshift_upgrade_accele.Api.{UpgradeAccelerator, UpgradeAcceleratorStatus}
use openshift_upgrade_accele.Cluster.{Env, NamespacedName}
use openshift_upgrade_accele.Exec.{Error, ok, err, done, fail, Exec, throw, or_else}
use openshift_upgrade_accele.Conditions.{
  status_update, condition_type_successful, condition_type_primer,
  condition_type_priming_in_progress, condition_type_setup_complete,
}

-- ctrl.Result with its error. The time is in seconds.
pub record Reply : Type 0 where
  pub requeue_after : ℕ
  pub error : Option Error

abbrev pub after_error : Error → Reply
after_error e = record { requeue_after = 30; error = some e }

abbrev pub after : ℕ → Reply
after seconds = record { requeue_after = seconds; error = none }

abbrev pub update_nodes :
    (UpgradeAcceleratorStatus → UpgradeAcceleratorStatus) → UpgradeAccelerator → UpgradeAccelerator
update_nodes f ua = record ua { status = f ua.status }

abbrev pub cleared : List String
cleared =
    condition_type_successful ∷ condition_type_primer ∷ condition_type_priming_in_progress
    ∷ condition_type_setup_complete ∷ []

module _ {W : Type 0} (env : Env W) where
  -- The status update whose error ends the reconciliation.
  unfoldable pub save : Exec W Reply (Unit {0})
  save = or_else (status_update env) (λ e. throw (after_error e))

  -- r.Get into the same object
  unfoldable pub refetch : NamespacedName → Exec W Reply (Unit {0})
  refetch req s =
      let (found, w) = env.get_upgrade_accelerator req s.world in
      elim found [
        | ok ua ↦ (done tt, record { ua = ua; world = w })
        | err e ↦ (fail (after_error e), record s { world = w })
      ]
