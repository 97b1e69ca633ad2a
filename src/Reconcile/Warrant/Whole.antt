-- ===== src/Reconcile/Warrant/Whole.antt =====
-- internal/controller/upgradeaccelerator_controller.go: what every reconciliation, and any number
-- of them among the steps of others, keeps of the preheated nodes.
use openshift_upgrade_accele.Prelude.{String, Bool, List, []}
use openshift_upgrade_accele.Api.{UpgradeAccelerator}
use openshift_upgrade_accele.Cluster.{Env, NamespacedName}
use openshift_upgrade_accele.Exec.{Result, ok, err, Exec}
use openshift_upgrade_accele.Exec.Preserves.{Preserves, preserves_rules}
use openshift_upgrade_accele.Versions.{OpenShiftClusterVersionState}
use openshift_upgrade_accele.Nodes.Targets.{determine_targeted_nodes}
use openshift_upgrade_accele.Reconcile.Checks.{
  reconcile_disabled, infrastructure_phase, version_phase, initial_checks, setup_phase,
}
use openshift_upgrade_accele.Reconcile.Run.{
  schedule, reconcile_enabled, reconcile_fetched, reconcile, after_fetch,
}
use openshift_upgrade_accele.Reconcile.Warrant.{
  View, OfPreheated, IsGrowing, IsWarrant, IsJobWarrant, IsWarranted, Stored,
}
use openshift_upgrade_accele.Reconcile.Warrant.Sections.{determine_targeted_nodes-Preserves}
use openshift_upgrade_accele.Reconcile.Warrant.Loops.{schedule-Preserves}
use openshift_upgrade_accele.Reconcile.Warrant.Phases.{
  infrastructure_phase-Preserves, version_phase-Preserves, initial_checks-Preserves,
  setup_phase-Preserves, reconcile_disabled-Preserves,
}

module _ {W : Type 0} (env : Env W) (good : String → Bool) (P : W → Type 0)
    (R : List String → Type 0) (growing : IsGrowing good R)
    (warrant : IsWarrant env P (OfPreheated R)) (jobs : IsJobWarrant env good P) where
  abbrev Holds : {E A : Type 0} → Exec W E A → Type 0
  Holds m = Preserves (IsWarranted P (OfPreheated R)) m

  emptied : (v : View) → R v.preheated → R []
  emptied v p = growing.empty

  schedules :
      (namespace : String) (v : OpenShiftClusterVersionState) (targeted primers : List String)
      → Holds (schedule env namespace v targeted primers)
  schedules = schedule-Preserves env good P R growing warrant jobs

  finds_nodes : Holds (determine_targeted_nodes env)
  finds_nodes = determine_targeted_nodes-Preserves env P (OfPreheated R) warrant

  finds_infrastructure : (req : NamespacedName) → Holds (infrastructure_phase env req)
  finds_infrastructure = infrastructure_phase-Preserves env P (OfPreheated R) emptied warrant

  finds_versions : (req : NamespacedName) → Holds (version_phase env req)
  finds_versions = version_phase-Preserves env P (OfPreheated R) emptied warrant

  checks :
      (req : NamespacedName) (targeted primers : List String)
      → Holds (initial_checks env req targeted primers)
  checks = initial_checks-Preserves env P (OfPreheated R) emptied warrant

  sets_up : (v : OpenShiftClusterVersionState) → Holds (setup_phase env v)
  sets_up = setup_phase-Preserves env P (OfPreheated R) emptied warrant

  disables : Holds (reconcile_disabled env)
  disables = reconcile_disabled-Preserves env P (OfPreheated R) emptied warrant

  reconcile_enabled-Preserves : (req : NamespacedName) → Holds (reconcile_enabled env req)
  unfolding reconcile_enabled
  reconcile_enabled-Preserves req =
      search
        (
          preserves_rules, finds_infrastructure, finds_versions, finds_nodes, checks, sets_up,
          schedules,
        )
        depth 24

  reconcile_fetched-Preserves : (req : NamespacedName) → Holds (reconcile_fetched env req)
  unfolding reconcile_fetched
  reconcile_fetched-Preserves req =
      search (preserves_rules, disables, reconcile_enabled-Preserves) depth 12

  world-after_fetch :
      (req : NamespacedName) (r : Result UpgradeAccelerator × W)
      → Stored (OfPreheated R) r.0
      → P r.1
      → P (after_fetch env req r).1
  world-after_fetch req (ok ua, w) q p =
      ((reconcile_fetched-Preserves req).at _ (record { world = p; object = q })).world
  world-after_fetch req (err e, w) q p = p

  -- A reconciliation keeps what `IsWarrant` says of the world, however it ends.
  pub world-reconcile : (req : NamespacedName) (w : W) → P w → P (reconcile env req w).1
  unfolding reconcile
  world-reconcile req w p =
      world-after_fetch req (env.get_upgrade_accelerator req w) (warrant.fetched req w p)
        (warrant.by_fetch req w p)
