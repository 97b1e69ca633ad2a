-- ===== src/Tests/Calls.antt =====
-- The theorems on the setup, the Jobs, the ConfigMaps and `Reconcile` at concrete objects.
use openshift_upgrade_accele.Prelude.{
  String, ◌≡◌, refl, true, false, some, none, zero, suc, List, [], ◌∷◌, pos, arith, Distinct,
}
use openshift_upgrade_accele.Api.{UpgradeAccelerator}
use openshift_upgrade_accele.Exec.{State, err, fail, panic}
use openshift_upgrade_accele.Conditions.{get_condition_reason}
use openshift_upgrade_accele.Conditions.Frame.{core}
use openshift_upgrade_accele.Versions.{OpenShiftClusterVersionState}
use openshift_upgrade_accele.Setup.{setup_cluster_version, setup_resources}
use openshift_upgrade_accele.Setup.Laws.{setup_cluster_version_lem}
use openshift_upgrade_accele.Setup.Failures.{
  namespace_step, namespace_fails, setup_resources-failed,
}
use openshift_upgrade_accele.Cluster.{Env}
use openshift_upgrade_accele.Conditions.Laws.{get_condition_status}
use openshift_upgrade_accele.Jobs.{create_pull_job}
use openshift_upgrade_accele.Reconcile.Reply.{update_nodes, after}
use openshift_upgrade_accele.Reconcile.Checks.{initial_checks}
use openshift_upgrade_accele.Reconcile.Scheduling.{visit_nodes}
use openshift_upgrade_accele.Reconcile.Run.{schedule, reconcile_fetched, reconcile}
use openshift_upgrade_accele.Reconcile.Reply.{Reply}
use openshift_upgrade_accele.Reconcile.Requeue.{
  Requeue, after_backoff, after_seconds, forgotten, IsQueue, IsRequeued, reconcile-IsRequeued,
}
use openshift_upgrade_accele.Reconcile.Tracked.{IsTracked}
use openshift_upgrade_accele.Reconcile.Tracked.Whole.{schedule-IsTracked}
use openshift_upgrade_accele.Reconcile.Panic.{visit_nodes-panic}
use openshift_upgrade_accele.Reconcile.Stale.{initial_checks-completed}
use openshift_upgrade_accele.Reconcile.Disabled.{no_nodes, reconcile-disabled}
use openshift_upgrade_accele.Samples.{
  World, cluster, sample, sample_spec, no_status, sample_request, world_of, missing,
}
use openshift_upgrade_accele.Tests.Objects.{start}

abbrev found_version : OpenShiftClusterVersionState
found_version = record {
  current_version = "4.18.1";
  desired_version = "4.19.0";
  desired_image = "quay.io/release";
}

setup_cluster_version_lem_example :
    let after = (setup_cluster_version cluster start).1.ua.status in
    (after.current_version ≡ "4.18.1")
    × (after.target_version ≡ "4.19.0")
    × (after.desired_version ≡ "4.19.0")
    × (after.desired_image ≡ "quay.io/release")
    × (after.nodes_selected ≡ [])
    × (after.nodes_preheated ≡ [])
    × (after.nodes_warming ≡ [])
    × (after.nodes_waiting ≡ [])
    × (after.primer_nodes ≡ [])
    × (after.conditions ≡ [])
unfolding setup_cluster_version openshift_upgrade_accele.Versions.get_cluster_version_state
    openshift_upgrade_accele.Setup.versions_changed
    openshift_upgrade_accele.Conditions.status_update
setup_cluster_version_lem_example =
    setup_cluster_version_lem cluster start {v = found_version} {changed = true} refl

abbrev settled : State World
settled = record {
  ua = record sample {
    status = record no_status {
      current_version = "4.18.1";
      target_version = "4.19.0";
      desired_version = "4.19.0";
      desired_image = "quay.io/release";
      nodes_preheated = "a" ∷ [];
    };
  };
  world = world_of sample [];
}

-- A cluster in which no namespace can be created.
abbrev no_namespaces : Env World
no_namespaces = record cluster { create_namespace = λ n w. (err missing, w) }

setup_resources-failed_example :
    let (o, ended) = setup_resources no_namespaces found_version start in
    (o ≡ fail missing)
    × (get_condition_reason ended.ua "Failure" ≡ "SetupFailed")
    × (get_condition_reason ended.ua "SetupComplete" ≡ "")
unfolding openshift_upgrade_accele.Setup.create_operator_namespace
    openshift_upgrade_accele.Images.get_release_images
setup_resources-failed_example =
    setup_resources-failed no_namespaces found_version start missing {step = namespace_step}
      (namespace_fails refl refl)

abbrev waiting_two : State World
waiting_two = record {
  ua = record sample {
    spec = record sample_spec { parallelism = pos 2 };
    status = record no_status { desired_version = "4.19.0"; nodes_waiting = "a" ∷ "b" ∷ [] };
  };
  world = world_of sample [];
}

visit_nodes-panic_example : (visit_nodes cluster "ns" waiting_two).0 ≡ panic
unfolding openshift_upgrade_accele.Reconcile.Scheduling.schedule_node create_pull_job
visit_nodes-panic_example =
    visit_nodes-panic cluster "ns" 1 "a" ("b" ∷ []) waiting_two refl refl (ground arith) refl

initial_checks-completed_example :
    let (o, ended) = initial_checks cluster sample_request ("b" ∷ []) [] settled in
    (o ≡ fail (after 60))
    × (core ended.ua
        ≡ core (
            update_nodes
              (λ status. record status { nodes_selected = "b" ∷ []; primer_nodes = [] })
              settled.ua))
    × (get_condition_status ended.ua "Running" ≡ "False")
    × (get_condition_reason ended.ua "Running" ≡ "ReconciliationCompleted")
    × (get_condition_status ended.ua "Completed" ≡ "True")
    × (get_condition_reason ended.ua "Completed" ≡ "ReconciliationCompleted")
initial_checks-completed_example =
    initial_checks-completed cluster sample_request "b" [] [] settled refl refl

schedule-IsTracked_example :
    IsTracked "a" (schedule cluster "ns" found_version ("a" ∷ "b" ∷ []) ("b" ∷ []) settled).1.ua
schedule-IsTracked_example =
    schedule-IsTracked cluster "a" "ns" found_version ("a" ∷ "b" ∷ []) ("b" ∷ []) settled refl refl

abbrev disabled : UpgradeAccelerator
disabled = record sample {
  spec = record sample_spec { state = "Disabled" };
  status = settled.ua.status;
}

reconcile-disabled_example :
    let ended =
      (reconcile_fetched cluster sample_request
        (record { ua = disabled; world = world_of disabled [] })).1 in
    (reconcile cluster sample_request (world_of disabled []) ≡ (some (after 30), ended.world))
    × (core ended.ua ≡ core (update_nodes no_nodes disabled))
    × (get_condition_status ended.ua "Running" ≡ "False")
    × (get_condition_reason ended.ua "Running" ≡ "UpdateAcceleratorDisabled")
unfolding openshift_upgrade_accele.Prelude.is_lower_case_of
reconcile-disabled_example =
    reconcile-disabled cluster sample_request (world_of disabled []) {ua = disabled} refl refl

-- A queue that waits as it is told.
abbrev waits : Reply → Requeue
waits reply = elim reply.error [
  | some e ↦ after_backoff
  | none ↦ elim reply.requeue_after [ zero ↦ forgotten | suc n ↦ after_seconds (suc n) ]
]

waits-IsQueue : IsQueue waits
waits-IsQueue = record {
  on_error = λ e reply h. rw h refl;
  on_time = λ n reply h k. rw (h, k) refl;
}

reconcile-IsRequeued_example : IsRequeued waits (after 30)
unfolding reconcile openshift_upgrade_accele.Prelude.is_lower_case_of
    openshift_upgrade_accele.Conditions.append_condition
    openshift_upgrade_accele.Conditions.delete_conditions
reconcile-IsRequeued_example =
    reconcile-IsRequeued cluster waits waits-IsQueue sample_request (world_of disabled [])
      {reply = after 30} refl
