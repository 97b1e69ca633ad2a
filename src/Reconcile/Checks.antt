-- ===== src/Reconcile/Checks.antt =====
-- internal/controller/upgradeaccelerator_controller.go: the sections of `Reconcile` up to the
-- waiting list.
use openshift_upgrade_accele.Prelude.{String, not, List, [], ◌∷◌, ◌==◌}
use openshift_upgrade_accele.Cluster.{Env, NamespacedName}
use openshift_upgrade_accele.Exec.{
  Exec, ◌>>=◌, ◌>>◌, pure, throw, get, modify, when, or_else, ignore,
}
use openshift_upgrade_accele.Conditions
use openshift_upgrade_accele.Conditions.{
  delete_conditions, condition_type_failure, condition_type_successful, condition_type_primer,
  condition_type_priming_in_progress, condition_type_infrastructure_found,
  condition_type_setup_complete,
}
use openshift_upgrade_accele.Versions.{
  OpenShiftClusterVersionState, get_openshift_infrastructure_type,
}
use openshift_upgrade_accele.Setup
use openshift_upgrade_accele.Setup.{setup_cluster_version, setup_resources}
use openshift_upgrade_accele.Schedule.{fill_waiting, all_preheated, is_completed, reset_nodes}
use openshift_upgrade_accele.Reconcile.Reply.{
  Reply, after_error, after, update_nodes, cleared, refetch, save,
}

module _ {W : Type 0} (env : Env W) where
  unfoldable pub reconcile_disabled : Exec W Reply Reply
  unfolding reset_nodes
  reconcile_disabled = do
    modify (update_nodes reset_nodes)
    ignore (
        Conditions.set_condition_not_running env Conditions.condition_reason_running_disabled
          "UpgradeAccelerator is disabled")
    ignore (
        delete_conditions env (
          condition_type_failure ∷ condition_type_successful ∷ condition_type_infrastructure_found
          ∷ condition_type_primer ∷ condition_type_priming_in_progress
          ∷ condition_type_setup_complete ∷ []))
    pure (after 30)

  unfoldable pub infrastructure_phase : NamespacedName → Exec W Reply (Unit {0})
  infrastructure_phase req = do
    type_name ← or_else (get_openshift_infrastructure_type env) (λ e. do
      ignore (Conditions.set_condition_infrastructure_not_found env e)
      ignore (
          Conditions.set_condition_failure env
            Conditions.condition_reason_failure_get_infrastructure e.message)
      ignore (delete_conditions env cleared)
      throw (after_error e))
    ua ← get
    when (not (ua.status.cluster_infrastructure == type_name)) (do
      modify (update_nodes (λ status. record status { cluster_infrastructure = type_name }))
      ignore (Conditions.set_condition_infrastructure_found env type_name)
      refetch env req)

  unfoldable pub version_phase : NamespacedName → Exec W Reply OpenShiftClusterVersionState
  version_phase req = do
    (v, changed) ← or_else (setup_cluster_version env) (λ e. do
      ignore
          (Conditions.set_condition_failure env Conditions.condition_reason_failure_setup e.message)
      ignore (delete_conditions env Setup.cleared)
      throw (after_error e))
    when changed (refetch env req)
    pure v

  -- The statuses and conditions of the primer nodes.
  unfoldable pub primer_checks : List String → Exec W Reply (Unit {0})
  unfolding all_preheated
  primer_checks [] =
      ignore (Conditions.set_condition_primer_skipped env "Priming effectively disabled")
  primer_checks (p ∷ ps) = do
    ua ← get
    when (all_preheated ua.status.nodes_preheated (p ∷ ps))
        (ignore (Conditions.set_condition_primer_completed env "All primer nodes are preheated"))

  unfoldable pub initial_checks :
      NamespacedName → (targeted primers : List String) → Exec W Reply (Unit {0})
  unfolding primer_checks reset_nodes is_completed
  initial_checks req [] primers = do
    modify (update_nodes reset_nodes)
    ignore (
        Conditions.set_condition_not_running env
          Conditions.condition_reason_running_no_nodes_selected "No targeted nodes found")
    ignore (delete_conditions env cleared)
    throw (after 30)
  initial_checks req (t ∷ ts) primers = do
    modify
        (update_nodes (λ status. record status { nodes_selected = t ∷ ts; primer_nodes = primers }))
    primer_checks primers
    ua ← get
    when (is_completed ua.status) (do
      ignore (
          Conditions.set_condition_not_running env
            Conditions.condition_reason_running_reconciliation_completed
            Conditions.condition_message_completed)
      ignore (Conditions.set_condition_completed env Conditions.condition_message_completed)
      throw (after 60))
    save env
    refetch env req

  unfoldable pub setup_phase : OpenShiftClusterVersionState → Exec W Reply String
  setup_phase v = do
    namespace ← or_else (setup_resources env v) (λ e. do
      ignore
          (Conditions.set_condition_failure env Conditions.condition_reason_failure_setup e.message)
      ignore (delete_conditions env Setup.cleared)
      throw (after_error e))
    ignore (Conditions.set_condition_setup_complete env)
    pure namespace

  unfoldable pub waiting_phase : List String → Exec W Reply (Unit {0})
  unfolding fill_waiting
  waiting_phase targeted = do
    ua ← get
    let (waiting, changed) =
        fill_waiting ua.status.nodes_warming ua.status.nodes_preheated ua.status.nodes_waiting
          targeted
    when changed
        (do modify (update_nodes (λ status. record status { nodes_waiting = waiting })); save env)
