-- ===== src/Versions.antt =====
-- internal/controller/upgradeaccelerator_func.go: the versions of the cluster, the infrastructure
-- type, and the short hash.
pub mod Laws
use Prim.Native.String
use openshift_upgrade_accele.Prelude.{
  String, Bool, false, not, ◌&&◌, Option, none, some, List, [], ◌∷◌, ◌==◌, if◌then◌else◌,
}
use openshift_upgrade_accele.Cluster.{Env, OperandVersion, ClusterOperator, ClusterVersion}
use openshift_upgrade_accele.Exec.{Error, Exec, ◌>>=◌, pure, throw, crash, get, call}
use openshift_upgrade_accele.Images.{get_release_image_from_version, get_release_version_from_image}

-- upgradeaccelerator_types.go: OpenShiftClusterVersionState
pub record OpenShiftClusterVersionState : Type 0 where
  pub current_version : String
  pub desired_version : String
  pub desired_image : String

abbrev status_version_key : String
status_version_key = "operator"

-- The loop over `.status.versions`: the last match stays.
unfoldable pub version_from : String → List OperandVersion → String
version_from matched [] = matched
version_from matched (v ∷ versions) =
    version_from (if v.name == status_version_key then v.version else matched) versions

unfoldable pub operator_version : List OperandVersion → String
unfolding version_from
operator_version = version_from ""

unfoldable pub has_cluster_version_changed : Option ClusterVersion → Option ClusterVersion → Bool
has_cluster_version_changed none n = false
has_cluster_version_changed (some o) none = false
has_cluster_version_changed (some o) (some n) = not (o.desired_version == n.desired_version)

unfoldable pub has_machine_config_cluster_operator_changed :
    Option ClusterOperator → Option ClusterOperator → Bool
unfolding operator_version
has_machine_config_cluster_operator_changed none n = false
has_machine_config_cluster_operator_changed (some o) none = false
has_machine_config_cluster_operator_changed (some o) (some n) =
    o.name == "machine-config"
    && not (operator_version o.versions == "")
    && not (operator_version n.versions == "")
    && not (operator_version o.versions == operator_version n.versions)

module _ {W : Type 0} (env : Env W) where
  -- The first 8 digits.
  unfoldable pub hash_string : String → String
  hash_string name = String.slice (env.sha256_hex name) 0 8

  unfoldable pub get_current_version : Exec W Error String
  unfolding operator_version
  get_current_version = do
    cluster_operator ← call (
        env.get_cluster_operator
          (record { namespace = "openshift-machine-api"; name = "machine-config" }))
    let matched = operator_version cluster_operator.versions
    if matched == ""
        then throw (record {
          message = "failed to find machine-config operator version";
          not_found = false;
        })
        else pure matched

  -- The version and the image.
  unfoldable pub get_desired_version : Exec W Error (String × String)
  get_desired_version = do
    ua ← get
    let override = ua.spec.config.override_release_version
    if not (override.version == "") && not (override.image == "")
        then pure (override.version, override.image)
        else if not (override.version == "") && override.image == ""
        then (do
          release_image ← get_release_image_from_version env override.version
          pure (override.version, release_image))
        else if not (override.image == "") && override.version == ""
        then (do
          release_version ← get_release_version_from_image env override.image
          pure (release_version, override.image))
        else (do
          cluster_version ← call (
              env.get_cluster_version
                (record { namespace = "openshift-cluster-version"; name = "version" }))
          pure (cluster_version.desired_version, cluster_version.desired_image))

  unfoldable pub get_cluster_version_state : Exec W Error OpenShiftClusterVersionState
  unfolding get_current_version get_desired_version
  get_cluster_version_state = do
    current_version ← get_current_version
    (desired_version, desired_image) ← get_desired_version
    pure (record {
      current_version = current_version;
      desired_version = desired_version;
      desired_image = desired_image;
    })

  -- A nil `.status.platformStatus` is dereferenced.
  unfoldable pub get_openshift_infrastructure_type : Exec W Error String
  get_openshift_infrastructure_type = do
    infrastructure ← call (env.get_infrastructure "cluster")
    elim infrastructure.platform_status [ some type_name ↦ pure type_name | none ↦ crash ]
