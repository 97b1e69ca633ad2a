-- ===== src/Reconcile/Warrant/Calls.antt =====
-- internal/controller/upgradeaccelerator_func.go and upgradeaccelerator_setup.go: that the calls of
-- the client and the setup of the versions keep what is known of the object.
use mathlib.Core.Path.{subst}
use openshift_upgrade_accele.Prelude.{arith, String, ◌≡◌, sym, refl, List, Option, none, some}
use openshift_upgrade_accele.Cluster.{Env, NamespacedName, Labels}
use openshift_upgrade_accele.Exec.{Error, Exec, call, modify, pure, crash}
use openshift_upgrade_accele.Exec.Preserves.{
  Preserves, preserves_rules, Preserves-bind, Preserves-pure,
}
use openshift_upgrade_accele.Conditions.{append_condition, delete_conditions, status_update}
use openshift_upgrade_accele.Images.{
  run_command, get_release_image_from_version, get_release_version_from_image,
}
use openshift_upgrade_accele.Versions.{
  OpenShiftClusterVersionState, get_current_version, get_desired_version, get_cluster_version_state,
  get_openshift_infrastructure_type,
}
use openshift_upgrade_accele.Setup.{setup_cluster_version, set_versions}
use openshift_upgrade_accele.Reconcile.Reply.{refetch}
use openshift_upgrade_accele.Reconcile.Warrant.{
  View, IsWarrant, IsWarranted, call-Preserves, modify-Preserves, crash-Preserves,
  append_condition-Preserves, delete_conditions-Preserves, status_update-Preserves,
  refetch-Preserves,
}

module _ {W : Type 0} (env : Env W) (P : W → Type 0) (Q : View → Type 0)
    (warrant : IsWarrant env P Q) where
  abbrev Holds : {E A : Type 0} → Exec W E A → Type 0
  Holds m = Preserves (IsWarranted P Q) m

  pub conditions :
      (type_name status reason message : String)
      → Holds (append_condition env type_name status reason message)
  conditions = append_condition-Preserves env P Q warrant

  pub deletes : (types : List String) → Holds (delete_conditions env types)
  deletes = delete_conditions-Preserves env P Q warrant

  pub updates : Holds (status_update env)
  updates = status_update-Preserves env P Q warrant

  pub fetches : (req : NamespacedName) → Holds (refetch env req)
  fetches = refetch-Preserves env P Q warrant

  pub lists_nodes : (labels : Labels) → Holds (call (env.list_nodes labels))
  lists_nodes labels = call-Preserves _ (warrant.by_list_nodes labels)

  pub lists_pools : Holds (call env.list_machine_config_pools)
  lists_pools = call-Preserves _ warrant.by_list_pools

  world-run_command :
      (line : String) (w : W) → (run_command env line w).1 ≡ (env.run_shell line w).1
  unfolding run_command
  world-run_command line w = ground arith

  pub runs_shell : (line : String) → Holds (call (run_command env line))
  runs_shell line =
      call-Preserves _ λ w p. subst P (sym (world-run_command line w)) (warrant.by_shell line w p)

  infrastructure : (name : String) → Holds (call (env.get_infrastructure name))
  infrastructure name = call-Preserves _ (warrant.by_infrastructure name)

  platform_at :
      (o : Option String)
      → Holds {E = Error} {A = String}
          (elim o as (λ _. Exec W Error String) [ some type_name ↦ pure type_name | none ↦ crash ])
  platform_at none = crash-Preserves
  platform_at (some type_name) = Preserves-pure type_name

  pub get_openshift_infrastructure_type-Preserves : Holds (get_openshift_infrastructure_type env)
  unfolding get_openshift_infrastructure_type
  get_openshift_infrastructure_type-Preserves =
      Preserves-bind _ _ (infrastructure "cluster") λ i. platform_at i.platform_status

  operators : (key : NamespacedName) → Holds (call (env.get_cluster_operator key))
  operators key = call-Preserves _ (warrant.by_operator key)

  get_current_version-Preserves : Holds (get_current_version env)
  unfolding get_current_version
  get_current_version-Preserves = search (preserves_rules, operators) depth 12

  versions : (key : NamespacedName) → Holds (call (env.get_cluster_version key))
  versions key = call-Preserves _ (warrant.by_version key)

  image_of : (version : String) → Holds (get_release_image_from_version env version)
  unfolding get_release_image_from_version
  image_of version = runs_shell _

  version_of : (image : String) → Holds (get_release_version_from_image env image)
  unfolding get_release_version_from_image
  version_of image = runs_shell _

  get_desired_version-Preserves : Holds (get_desired_version env)
  unfolding get_desired_version
  get_desired_version-Preserves = search (preserves_rules, image_of, version_of, versions) depth 16

  get_cluster_version_state-Preserves : Holds (get_cluster_version_state env)
  unfolding get_cluster_version_state
  get_cluster_version_state-Preserves =
      search (preserves_rules, get_current_version-Preserves, get_desired_version-Preserves) depth
        12

  sets_versions :
      (v : OpenShiftClusterVersionState)
      → Holds (modify {E = Error} (λ u. record u { status = set_versions v u.status }))
  unfolding set_versions
  sets_versions v = modify-Preserves _ λ ua. refl

  pub setup_cluster_version-Preserves : Holds (setup_cluster_version env)
  unfolding setup_cluster_version
  setup_cluster_version-Preserves =
      search
        (
          preserves_rules, get_cluster_version_state-Preserves, conditions, deletes, sets_versions,
          updates,
        )
        depth 20
