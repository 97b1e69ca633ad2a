-- ===== src/Reconcile/Completed.antt =====
-- internal/controller/upgradeaccelerator_controller.go: when a version is recorded as completed.
use openshift_upgrade_accele.Prelude.{◌≡◌, ◌≢◌, [], length, arith}
use openshift_upgrade_accele.Cluster.{Env}
use openshift_upgrade_accele.Exec.{State}
use openshift_upgrade_accele.Conditions.{append_condition, status_update}
use openshift_upgrade_accele.Schedule.{is_all_preheated}
use openshift_upgrade_accele.Reconcile.Reply.{save}
use openshift_upgrade_accele.Reconcile.Run.{completion_phase}

module _ {W : Type 0} (env : Env W) where
  -- If the last section of a reconciliation, which follows the scan of the Jobs, changes the version
  -- that is recorded as completed, then at its start no node waits and none warms, as many nodes are
  -- preheated as are selected, and the version that is recorded is the target version.
  pub completion_phase-last_completed_version :
      (s : State W)
      → (completion_phase env s).1.ua.status.last_completed_version
        ≢ s.ua.status.last_completed_version
      → (s.ua.status.nodes_waiting ≡ [])
        × (s.ua.status.nodes_warming ≡ [])
        × (length s.ua.status.nodes_preheated ≡ length s.ua.status.nodes_selected)
        × ((completion_phase env s).1.ua.status.last_completed_version ≡ s.ua.status.target_version)
  unfolding completion_phase append_condition status_update save is_all_preheated
  completion_phase-last_completed_version s h = ground arith
