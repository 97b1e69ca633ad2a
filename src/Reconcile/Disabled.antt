-- ===== src/Reconcile/Disabled.antt =====
-- internal/controller/upgradeaccelerator_controller.go: a disabled UpgradeAccelerator.
use openshift_upgrade_accele.Prelude.{
  String, ◌≡◌, refl, ◌∙◌, List, [], ◌∷◌, true, some, is_lower_case_of, arith,
}
use openshift_upgrade_accele.Api.{UpgradeAccelerator, UpgradeAcceleratorStatus}
use openshift_upgrade_accele.Cluster.{Env, NamespacedName}
use openshift_upgrade_accele.Exec.{State, done, ok}
use openshift_upgrade_accele.Conditions.Frame.{
  core, core-append_condition, core-delete_conditions, then-append_condition,
  then-delete_conditions,
}
use openshift_upgrade_accele.Conditions.{
  get_condition_reason, append_condition, delete_conditions, condition_type_failure,
  condition_type_successful, condition_type_running, condition_type_primer,
  condition_type_priming_in_progress, condition_type_infrastructure_found,
  condition_type_setup_complete, condition_status_false, condition_reason_running_disabled,
}
use openshift_upgrade_accele.Conditions.Laws.{
  get_condition_reason-append_condition, get_condition_reason-delete_conditions,
  get_condition_status, get_condition_status-append_condition,
  get_condition_status-delete_conditions,
}
use openshift_upgrade_accele.Schedule.{reset_nodes}
use openshift_upgrade_accele.Reconcile.Reply.{after, update_nodes}
use openshift_upgrade_accele.Reconcile.Checks.{reconcile_disabled}
use openshift_upgrade_accele.Reconcile.Run.{reconcile_fetched, reconcile}

-- No node is in any of the lists.
abbrev pub no_nodes : UpgradeAcceleratorStatus → UpgradeAcceleratorStatus
no_nodes status = record status {
  nodes_selected = [];
  nodes_preheated = [];
  nodes_warming = [];
  nodes_waiting = [];
  primer_nodes = [];
}

module _ {W : Type 0} (env : Env W) where
  abbrev after_reset : State W → State W
  after_reset s = record s { ua = update_nodes reset_nodes s.ua }

  abbrev after_not_running : State W → State W
  after_not_running s =
      (append_condition env condition_type_running condition_status_false
        condition_reason_running_disabled "UpgradeAccelerator is disabled" (after_reset s)).1

  disabled_types : List String
  disabled_types =
      condition_type_failure ∷ condition_type_successful ∷ condition_type_infrastructure_found
      ∷ condition_type_primer ∷ condition_type_priming_in_progress ∷ condition_type_setup_complete
      ∷ []

  disabled_at :
      (s : State W)
      → reconcile_disabled env s
        ≡ (done (after 30), (delete_conditions env disabled_types (after_not_running s)).1)
  unfolding reconcile_disabled disabled_types
  disabled_at s = then-append_condition env _ _ _ _ _ _ ∙ then-delete_conditions env _ _ _

  branch_at :
      (s : State W)
      → ((reconcile_disabled env s).0 ≡ done (after 30))
        × (core (reconcile_disabled env s).1.ua ≡ core (update_nodes no_nodes s.ua))
        × (get_condition_status (reconcile_disabled env s).1.ua condition_type_running ≡ "False")
        × (get_condition_reason (reconcile_disabled env s).1.ua condition_type_running
            ≡ condition_reason_running_disabled)
  unfolding reset_nodes disabled_types
  branch_at s = rw (disabled_at s) (
    refl,
    core-delete_conditions env disabled_types (after_not_running s)
        ∙ core-append_condition env _ _ _ _ (after_reset s),
    get_condition_status-delete_conditions env disabled_types (after_not_running s) _
        ∙ get_condition_status-append_condition env condition_type_running condition_status_false
            condition_reason_running_disabled "UpgradeAccelerator is disabled" (after_reset s) _,
    get_condition_reason-delete_conditions env disabled_types (after_not_running s) _
        ∙ get_condition_reason-append_condition env condition_type_running condition_status_false
            condition_reason_running_disabled "UpgradeAccelerator is disabled" (after_reset s) _,
  )

  -- If the object that is fetched has a `spec.state` that is "disabled" in lower case, `Reconcile`
  -- ends without an error or a panic, to be called again in 30 seconds, in the world in which its
  -- branch ends. There no node is selected, preheated, warming, waiting or a primer, all else of the
  -- object but the conditions is as it was fetched, and the condition `Running` is "False" with the
  -- reason `UpdateAcceleratorDisabled`.
  pub reconcile-disabled :
      (req : NamespacedName) (w : W) {ua : UpgradeAccelerator} {w' : W}
      → env.get_upgrade_accelerator req w ≡ (ok ua, w')
      → is_lower_case_of "disabled" ua.spec.state ≡ true
      → let ended = (reconcile_fetched env req (record { ua = ua; world = w' })).1 in
        (reconcile env req w ≡ (some (after 30), ended.world))
        × (core ended.ua ≡ core (update_nodes no_nodes ua))
        × (get_condition_status ended.ua condition_type_running ≡ "False")
        × (get_condition_reason ended.ua condition_type_running ≡ "UpdateAcceleratorDisabled")
  unfolding reconcile reconcile_fetched
  reconcile-disabled req w {ua} {w'} fetched disabled =
      let ended = branch_at (record { ua = ua; world = w' }) in
      rw (fetched, disabled) (ground (arith, ended.0), ended.1, ended.2, ended.3)
