-- ===== src/Reconcile/Warrant/Phases.antt =====
-- internal/controller/upgradeaccelerator_controller.go: that the sections before the waiting list
-- keep what is known of the object.
use openshift_upgrade_accele.Prelude.{String, refl, List, [], ◌∷◌}
use openshift_upgrade_accele.Cluster.{Env, NamespacedName}
use openshift_upgrade_accele.Exec.{Exec, modify}
use openshift_upgrade_accele.Exec.Preserves.{Preserves, preserves_rules}
use openshift_upgrade_accele.Conditions
use openshift_upgrade_accele.Versions.{
  OpenShiftClusterVersionState, get_openshift_infrastructure_type,
}
use openshift_upgrade_accele.Setup.{setup_cluster_version, setup_resources}
use openshift_upgrade_accele.Schedule.{reset_nodes}
use openshift_upgrade_accele.Reconcile.Reply.{Reply, update_nodes, refetch, save}
use openshift_upgrade_accele.Reconcile.Checks.{
  reconcile_disabled, infrastructure_phase, version_phase, primer_checks, initial_checks,
  setup_phase,
}
use openshift_upgrade_accele.Reconcile.Warrant.{
  View, view, IsWarrant, IsWarranted, modify-Preserves, append_condition-Preserves, save-Preserves,
}
use openshift_upgrade_accele.Reconcile.Warrant.Calls.{
  deletes, fetches, get_openshift_infrastructure_type-Preserves, setup_cluster_version-Preserves,
}
use openshift_upgrade_accele.Reconcile.Warrant.Sections.{setup_resources-Preserves}

-- No node waits, warms or is preheated.
abbrev pub empty_view : View → View
empty_view v = record v { waiting = []; warming = []; preheated = [] }

module _ {W : Type 0} (env : Env W) (P : W → Type 0) (Q : View → Type 0)
    (emptied : (v : View) → Q v → Q (empty_view v)) (warrant : IsWarrant env P Q) where
  abbrev Holds : {E A : Type 0} → Exec W E A → Type 0
  Holds m = Preserves (IsWarranted P Q) m

  sets_condition :
      (type_name status reason message : String)
      → Holds (Conditions.append_condition env type_name status reason message)
  sets_condition = append_condition-Preserves env P Q warrant

  drops : (types : List String) → Holds (Conditions.delete_conditions env types)
  drops = deletes env P Q warrant

  gets : (req : NamespacedName) → Holds (refetch env req)
  gets = fetches env P Q warrant

  saves : Holds (save env)
  saves = save-Preserves env P Q warrant

  finds_infrastructure : Holds (get_openshift_infrastructure_type env)
  finds_infrastructure = get_openshift_infrastructure_type-Preserves env P Q warrant

  names_infrastructure :
      (type_name : String)
      → Holds (
          modify {E = Reply}
            (update_nodes (λ status. record status { cluster_infrastructure = type_name })))
  names_infrastructure type_name = modify-Preserves _ λ ua. refl

  pub infrastructure_phase-Preserves : (req : NamespacedName) → Holds (infrastructure_phase env req)
  unfolding infrastructure_phase
  infrastructure_phase-Preserves req =
      search
        (preserves_rules, finds_infrastructure, sets_condition, drops, names_infrastructure, gets)
        depth 20

  sets_up_versions : Holds (setup_cluster_version env)
  sets_up_versions = setup_cluster_version-Preserves env P Q warrant

  pub version_phase-Preserves : (req : NamespacedName) → Holds (version_phase env req)
  unfolding version_phase
  version_phase-Preserves req =
      search (preserves_rules, sets_up_versions, sets_condition, drops, gets) depth 20

  primer_checks-Preserves : (primers : List String) → Holds (primer_checks env primers)
  unfolding primer_checks
  primer_checks-Preserves [] = search (preserves_rules, sets_condition) depth 12
  primer_checks-Preserves (p ∷ ps) = search (preserves_rules, sets_condition) depth 12

  -- All the lists of nodes become empty.
  empties : Holds (modify {E = Reply} (update_nodes reset_nodes))
  unfolding reset_nodes
  empties = record { at = λ s p. record { world = p.world; object = emptied (view s.ua) p.object } }

  selects :
      (targeted primers : List String)
      → Holds (
          modify {E = Reply} (
            update_nodes
              (λ status. record status { nodes_selected = targeted; primer_nodes = primers })))
  selects targeted primers = modify-Preserves _ λ ua. refl

  pub initial_checks-Preserves :
      (req : NamespacedName) (targeted primers : List String)
      → Holds (initial_checks env req targeted primers)
  unfolding initial_checks
  initial_checks-Preserves req [] primers =
      search (preserves_rules, empties, sets_condition, drops) depth 16
  initial_checks-Preserves req (t ∷ ts) primers =
      search (preserves_rules, selects, primer_checks-Preserves, sets_condition, saves, gets) depth
        20

  sets_up_resources : (v : OpenShiftClusterVersionState) → Holds (setup_resources env v)
  sets_up_resources = setup_resources-Preserves env P Q warrant

  pub setup_phase-Preserves : (v : OpenShiftClusterVersionState) → Holds (setup_phase env v)
  unfolding setup_phase
  setup_phase-Preserves v =
      search (preserves_rules, sets_up_resources, sets_condition, drops) depth 16

  pub reconcile_disabled-Preserves : Holds (reconcile_disabled env)
  unfolding reconcile_disabled
  reconcile_disabled-Preserves = search (preserves_rules, empties, sets_condition, drops) depth 16
