-- ===== src/Reconcile/Mounts.antt =====
-- internal/controller/upgradeaccelerator_job.go and upgradeaccelerator_configmap.go: what the Jobs
-- mount.
use openshift_upgrade_accele.Prelude.{
  String, ◌≡◌, Bool, true, false, Option, none, some, List, [], ◌∷◌, map, if◌then◌else◌, ◌==◌,
  arith,
}
use openshift_upgrade_accele.Cluster.{
  Env, Job, Volume, VolumeMount, VolumeSource, config_map, host_path,
}
use openshift_upgrade_accele.Exec.{State, done}
use openshift_upgrade_accele.ConfigMaps.{release_config_map, script_config_map}
use openshift_upgrade_accele.Jobs.{pull_job_manifest}
use openshift_upgrade_accele.Setup.{create_operator_namespace}
use openshift_upgrade_accele.Reconcile.Scheduling.{pull_job}

-- The volume of that name.
abbrev source_of : List Volume → String → Option VolumeSource
source_of [] name = none
source_of (v ∷ vs) name = if v.name == name then some v.source else source_of vs name

-- Where the container of a Job mounts something, whether it may only read it, and what it is.
abbrev pub mounted : Job → List (String × Bool × Option VolumeSource)
mounted job =
    map (λ (m : VolumeMount). (m.mount_path, m.read_only, source_of job.volumes m.name))
      job.container.volume_mounts

module _ {W : Type 0} (env : Env W) where
  -- The pull Job that is created for a node in the namespace with which the setup ended runs on that
  -- node, in the namespace of the two ConfigMaps of the setup. Its container mounts exactly three
  -- volumes: read-only the ConfigMap of the release images, read-only that of the puller script,
  -- or, if the spec names another for the script, that one, and the root directory of the host,
  -- each at the path that is written here.
  pub pull_job_manifest-setup :
      (node namespace total filtered : String) (s : State W)
      → (create_operator_namespace env s).0 ≡ done namespace
      → let ua = s.ua in
        let job = pull_job_manifest env ua (pull_job env namespace ua node) in
        let custom = ua.spec.config.pull_script_config_map_name in
        (job.node_name ≡ node)
        × (job.namespace ≡ (release_config_map env ua total filtered).namespace)
        × (job.namespace ≡ (script_config_map env ua).namespace)
        × (mounted job
            ≡ (
              "/etc/upgrade-accelerator/release",
              true,
              some (config_map (release_config_map env ua total filtered).name),
            )
              ∷ (
                "/opt/upgrade-accelerator",
                true,
                some
                    (config_map (if custom == "" then (script_config_map env ua).name else custom)),
              )
              ∷ ("/host", false, some (host_path "/" "Directory"))
              ∷ [])
  unfolding create_operator_namespace pull_job_manifest release_config_map script_config_map
  pull_job_manifest-setup node namespace total filtered s h = ground arith
