-- ===== src/Setup.antt =====
-- internal/controller/upgradeaccelerator_setup.go, and `createOperatorNamespace` of
-- upgradeaccelerator_func.go: the versions in the status, and the resources that the Jobs need.
pub mod Laws
pub mod Handlers
pub mod Failures
use openshift_upgrade_accele.Prelude.{String, Bool, not, ◌||◌, List, [], ◌∷◌, ◌==◌, if◌then◌else◌}
use openshift_upgrade_accele.Api.{UpgradeAcceleratorStatus}
use openshift_upgrade_accele.Cluster.{Env}
use openshift_upgrade_accele.Exec.{
  Error, ok, err, done, fail, Exec, ◌>>=◌, ◌>>◌, pure, throw, get, modify, call, when, or_else,
  ignore,
}
use openshift_upgrade_accele.Conditions.{
  status_update, delete_conditions, set_condition_failure, set_condition_setup_namespace_failure,
  set_condition_setup_config_map_failure, condition_type_running, condition_type_successful,
  condition_type_primer, condition_type_priming_in_progress, condition_type_setup_complete,
  condition_reason_failure_get_cluster_version, condition_reason_failure_get_release_images,
  condition_reason_failure_setup,
}
use openshift_upgrade_accele.Versions.{OpenShiftClusterVersionState, get_cluster_version_state}
use openshift_upgrade_accele.Images.{get_release_images, filter_release_images}
use openshift_upgrade_accele.ConfigMaps.{
  target_namespace, create_release_config_map, create_puller_script_config_map,
}

abbrev pub cleared : List String
cleared =
    condition_type_running ∷ condition_type_successful ∷ condition_type_primer
    ∷ condition_type_priming_in_progress ∷ condition_type_setup_complete ∷ []

-- The four assignments of `setupClusterVersion`.
unfoldable pub set_versions :
    OpenShiftClusterVersionState → UpgradeAcceleratorStatus → UpgradeAcceleratorStatus
set_versions v status = record status {
  current_version = v.current_version;
  target_version = v.desired_version;
  desired_version = v.desired_version;
  desired_image = v.desired_image;
}

-- `upgradeAcceleratorStatusChanged`: one of the four fields is not what it should be.
unfoldable pub versions_changed : OpenShiftClusterVersionState → UpgradeAcceleratorStatus → Bool
versions_changed v status =
    not (status.current_version == v.current_version)
    || not (status.target_version == v.desired_version)
    || not (status.desired_version == v.desired_version)
    || not (status.desired_image == v.desired_image)

module _ {W : Type 0} (env : Env W) where
  -- The state of the versions, and whether the status was changed.
  unfoldable pub setup_cluster_version : Exec W Error (OpenShiftClusterVersionState × Bool)
  setup_cluster_version = do
    v ← or_else (get_cluster_version_state env) (λ e. do
      ignore (set_condition_failure env condition_reason_failure_get_cluster_version e.message)
      ignore (
          delete_conditions env (
            condition_type_successful ∷ condition_type_running ∷ condition_type_primer
            ∷ condition_type_priming_in_progress ∷ condition_type_setup_complete ∷ []))
      throw e)
    ua ← get
    let changed = versions_changed v ua.status
    modify (λ u. record u { status = set_versions v u.status })
    when changed (status_update env)
    pure (v, changed)

  unfoldable pub create_operator_namespace : Exec W Error String
  create_operator_namespace s =
      let target = target_namespace s.ua in
      let (found, w) = env.get_namespace target s.world in
      elim found [
        | ok namespace ↦ (done target, record s { world = w })
        | err e ↦
            if e.not_found
            then (do
              call (
                  env.create_namespace
                    (record { name = target; labels = ("app", "upgrade-accelerator") ∷ [] }))
              pure target)
                (record s { world = w })
            else (fail e, record s { world = w })
      ]

  abbrev pub setup_failed : {A : Type 0} → String → Error → Exec W Error A
  setup_failed reason e = do
    ignore (set_condition_failure env reason e.message)
    ignore (delete_conditions env cleared)
    throw e

  abbrev pub config_map_failed : {A : Type 0} → Error → Exec W Error A
  config_map_failed e = do
    ignore (set_condition_setup_config_map_failure env e.message)
    setup_failed condition_reason_failure_setup e

  abbrev pub script_failed : {A : Type 0} → Error → Exec W Error A
  script_failed e = do
    ignore (set_condition_failure env condition_reason_failure_setup e.message)
    ignore (delete_conditions env cleared)
    ignore (set_condition_setup_config_map_failure env e.message)
    throw e

  abbrev pub namespace_failed : {A : Type 0} → Error → Exec W Error A
  namespace_failed e = do
    ignore (set_condition_setup_namespace_failure env e.message)
    setup_failed condition_reason_failure_setup e

  -- The namespace of the Jobs.
  unfoldable pub setup_resources : OpenShiftClusterVersionState → Exec W Error String
  setup_resources v = do
    images ←
        or_else (get_release_images env v.desired_image)
          (setup_failed condition_reason_failure_get_release_images)
    ua ← get
    let filtered = filter_release_images images ua.status.cluster_infrastructure
    namespace ← or_else (create_operator_namespace) namespace_failed
    images_json ← or_else (call (λ w. (env.marshal_images images, w))) config_map_failed
    filtered_json ← or_else (call (λ w. (env.marshal_images filtered, w))) config_map_failed
    or_else (create_release_config_map env images_json filtered_json) config_map_failed
    ua' ← get
    when (ua'.spec.config.pull_script_config_map_name == "")
        (or_else (create_puller_script_config_map env) script_failed)
    pure namespace
