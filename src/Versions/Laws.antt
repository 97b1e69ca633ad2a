-- ===== src/Versions/Laws.antt =====
-- internal/controller/upgradeaccelerator_func.go: which versions are read, and when they count as
-- changed.
use openshift_upgrade_accele.Prelude.{
  String, ◌≡◌, ◌≢◌, ◌↔◌, refl, Bool, true, false, some, List, [], ◌∷◌, ◌++◌, ◌==◌, if◌then◌else◌,
  any, arith, eq_iff,
}
use openshift_upgrade_accele.Cluster.{Env, OperandVersion, ClusterOperator}
use openshift_upgrade_accele.Exec.{State, done}
use openshift_upgrade_accele.Versions.{
  version_from, operator_version, has_machine_config_cluster_operator_changed, get_desired_version,
  get_current_version, get_cluster_version_state,
}
use openshift_upgrade_accele.Images.Commands.{
  ua-get_release_image_from_version, ua-get_release_version_from_image,
}

abbrev pub is_operator : OperandVersion → Bool
is_operator v = v.name == "operator"

version_from-none :
    (m : String) (versions : List OperandVersion)
    → any is_operator versions ≡ false
    → version_from m versions ≡ m
unfolding version_from
version_from-none m [] h = refl
version_from-none m (v ∷ versions) h = ground (arith, version_from-none m versions)

version_from-last :
    (m : String) (before : List OperandVersion) (v : OperandVersion) (after : List OperandVersion)
    → is_operator v ≡ true
    → any is_operator after ≡ false
    → version_from m (before ++ (v ∷ after)) ≡ v.version
unfolding version_from
version_from-last m [] v after h none_after = ground (arith, version_from-none v.version after)
version_from-last m (b ∷ before) v after h none_after =
    version_from-last (if is_operator b then b.version else m) before v after h none_after

-- The version of the operator is that of the last entry of that name; it is empty where there is
-- none.
pub operator_version_lem :
    (before : List OperandVersion) (v : OperandVersion) (after : List OperandVersion)
    → is_operator v ≡ true
    → any is_operator after ≡ false
    → (operator_version (before ++ (v ∷ after)) ≡ v.version) × (operator_version after ≡ "")
unfolding operator_version
operator_version_lem before v after is h =
    (version_from-last "" before v after is h, version_from-none "" after h)

-- The ClusterOperator counts as changed exactly if it is machine-config, both its versions are
-- known, and they differ.
pub has_machine_config_cluster_operator_changed_iff :
    (o n : ClusterOperator)
    → (has_machine_config_cluster_operator_changed (some o) (some n) ≡ true) ↔ (
        (o.name ≡ "machine-config")
        × (operator_version o.versions ≢ "")
        × (operator_version n.versions ≢ "")
        × (operator_version o.versions ≢ operator_version n.versions))
unfolding has_machine_config_cluster_operator_changed
has_machine_config_cluster_operator_changed_iff o n = grind (
  arith,
  eq_iff o.name "machine-config",
  eq_iff (operator_version o.versions) "",
  eq_iff (operator_version n.versions) "",
  eq_iff (operator_version o.versions) (operator_version n.versions),
)

module _ {W : Type 0} (env : Env W) where
  pub ua-get_desired_version : (s : State W) → (get_desired_version env s).1.ua ≡ s.ua
  unfolding get_desired_version
  ua-get_desired_version s =
      let override = s.ua.spec.config.override_release_version in
      ground (
        arith,
        ua-get_release_image_from_version env override.version s,
        ua-get_release_version_from_image env override.image s,
      )

  ua-get_current_version : (s : State W) → (get_current_version env s).1.ua ≡ s.ua
  unfolding get_current_version
  ua-get_current_version s = ground arith

  pub ua-get_cluster_version_state : (s : State W) → (get_cluster_version_state env s).1.ua ≡ s.ua
  unfolding get_cluster_version_state
  ua-get_cluster_version_state s =
      ground (arith, ua-get_current_version s, ua-get_desired_version (get_current_version env s).1)

  -- Where the spec overrides the version and the desired version is found, it is the one that the
  -- spec gives, whatever the cluster and the command line say.
  pub get_desired_version-override_version :
      (s : State W) {version image : String}
      → s.ua.spec.config.override_release_version.version ≢ ""
      → (get_desired_version env s).0 ≡ done (version, image)
      → version ≡ s.ua.spec.config.override_release_version.version
  unfolding get_desired_version
  get_desired_version-override_version s some_version h =
      ground (arith, eq_iff s.ua.spec.config.override_release_version.version "")

  -- Where the spec overrides the image and the desired image is found, it is the one that the spec
  -- gives, whatever the cluster and the command line say.
  pub get_desired_version-override_image :
      (s : State W) {version image : String}
      → s.ua.spec.config.override_release_version.image ≢ ""
      → (get_desired_version env s).0 ≡ done (version, image)
      → image ≡ s.ua.spec.config.override_release_version.image
  unfolding get_desired_version
  get_desired_version-override_image s some_image h =
      ground (arith, eq_iff s.ua.spec.config.override_release_version.image "")
