-- ===== src/Setup/Laws.antt =====
-- internal/controller/upgradeaccelerator_setup.go: what the setup of the versions changes, and what
-- a failed setup reports.
use openshift_upgrade_accele.Prelude.{◌≡◌, sym, ap, ◌∙◌, Bool, false, arith, eq_iff}
use openshift_upgrade_accele.Api.{UpgradeAccelerator, UpgradeAcceleratorStatus}
use openshift_upgrade_accele.Cluster.{Env}
use openshift_upgrade_accele.Exec.{State, done}
use openshift_upgrade_accele.Conditions.Frame.{ua-status_update}
use openshift_upgrade_accele.Versions.{OpenShiftClusterVersionState, get_cluster_version_state}
use openshift_upgrade_accele.Versions.Laws.{ua-get_cluster_version_state}
use openshift_upgrade_accele.Setup.{set_versions, versions_changed, setup_cluster_version}

set_versions-unchanged :
    (v : OpenShiftClusterVersionState) (status : UpgradeAcceleratorStatus)
    → versions_changed v status ≡ false
    → set_versions v status ≡ status
unfolding set_versions versions_changed
set_versions-unchanged v status h = ground (
  arith,
  eq_iff status.current_version v.current_version,
  eq_iff status.target_version v.desired_version,
  eq_iff status.desired_version v.desired_version,
  eq_iff status.desired_image v.desired_image,
)

module _ {W : Type 0} (env : Env W) where
  setup_cluster_version-ua :
      (s : State W) {v : OpenShiftClusterVersionState} {changed : Bool}
      → (setup_cluster_version env s).0 ≡ done (v, changed)
      → ((setup_cluster_version env s).1.ua ≡ record (s.ua) { status = set_versions v s.ua.status })
        × (changed ≡ versions_changed v s.ua.status)
  unfolding setup_cluster_version
  setup_cluster_version-ua s {v} {changed} h =
      let s' = (get_cluster_version_state env s).1 in
      ground (
        arith,
        ua-get_cluster_version_state env s,
        ua-status_update env
            (record s' { ua = record (s'.ua) { status = set_versions v s'.ua.status } }),
      )

  -- If the setup of the versions succeeds, the status has the versions that were found, and the
  -- selected, preheated, warming, waiting and primer nodes and the conditions are what they were,
  -- also when the versions are new.
  pub setup_cluster_version_lem :
      (s : State W) {v : OpenShiftClusterVersionState} {changed : Bool}
      → (setup_cluster_version env s).0 ≡ done (v, changed)
      → let after = (setup_cluster_version env s).1.ua.status in
        (after.current_version ≡ v.current_version)
        × (after.target_version ≡ v.desired_version)
        × (after.desired_version ≡ v.desired_version)
        × (after.desired_image ≡ v.desired_image)
        × (after.nodes_selected ≡ s.ua.status.nodes_selected)
        × (after.nodes_preheated ≡ s.ua.status.nodes_preheated)
        × (after.nodes_warming ≡ s.ua.status.nodes_warming)
        × (after.nodes_waiting ≡ s.ua.status.nodes_waiting)
        × (after.primer_nodes ≡ s.ua.status.primer_nodes)
        × (after.conditions ≡ s.ua.status.conditions)
  unfolding set_versions
  setup_cluster_version_lem s {v} h =
      let same = ap (λ (u : UpgradeAccelerator). u.status) (setup_cluster_version-ua s h).0 in
      (
        ap (λ (t : UpgradeAcceleratorStatus). t.current_version) same,
        ap (λ (t : UpgradeAcceleratorStatus). t.target_version) same,
        ap (λ (t : UpgradeAcceleratorStatus). t.desired_version) same,
        ap (λ (t : UpgradeAcceleratorStatus). t.desired_image) same,
        ap (λ (t : UpgradeAcceleratorStatus). t.nodes_selected) same,
        ap (λ (t : UpgradeAcceleratorStatus). t.nodes_preheated) same,
        ap (λ (t : UpgradeAcceleratorStatus). t.nodes_warming) same,
        ap (λ (t : UpgradeAcceleratorStatus). t.nodes_waiting) same,
        ap (λ (t : UpgradeAcceleratorStatus). t.primer_nodes) same,
        ap (λ (t : UpgradeAcceleratorStatus). t.conditions) same,
      )

  -- If the setup of the versions succeeds and reports no change, the object is what it was.
  pub setup_cluster_version-unchanged :
      (s : State W) {v : OpenShiftClusterVersionState}
      → (setup_cluster_version env s).0 ≡ done (v, false)
      → (setup_cluster_version env s).1.ua ≡ s.ua
  setup_cluster_version-unchanged s {v} h =
      let (e, flag) = setup_cluster_version-ua s h in
      e
      ∙ ap (λ (status : UpgradeAcceleratorStatus). record (s.ua) { status = status })
          (set_versions-unchanged v s.ua.status (sym flag))
