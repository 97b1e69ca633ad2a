-- ===== src/Jobs.antt =====
-- internal/controller/upgradeaccelerator_job.go: the Job that pulls the release images on a node.
use Prim.Native.String
use openshift_upgrade_accele.Prelude.{
  ℕ, String, Bool, true, false, List, [], ◌∷◌, ◌++◌, ◌==◌, ltb, not, if◌then◌else◌,
}
use openshift_upgrade_accele.Api.{Toleration, UpgradeAccelerator}
use openshift_upgrade_accele.Cluster.{Env, Job, NamespacedName, VolumeMount, config_map, host_path}
use openshift_upgrade_accele.Exec.{Error, ok, err, done, fail, Exec, ◌>>=◌, ◌>>◌, pure, call}
use openshift_upgrade_accele.Versions.{hash_string}

abbrev pub key_of : Job → NamespacedName
key_of job = record { namespace = job.namespace; name = job.name }

pub record PullJob : Type 0 where
  pub name : String
  pub namespace : String
  pub target_node_name : String
  pub release_config_map_name : String

abbrev default_job_puller_image : String
default_job_puller_image = "registry.redhat.io/rhel9/support-tools:latest"

abbrev pub default_app_label_value : String
default_app_label_value = "upgrade-accelerator"

abbrev default_job_ttl : ℕ
default_job_ttl = 7200

abbrev default_job_tolerations : List Toleration
default_job_tolerations = record { key = ""; operator = "Exists"; value = ""; effect = "" } ∷ []

-- `if override != "" { value = override }`
abbrev pub or_default : String → String → String
or_default override value = if not (override == "") then override else value

abbrev tolerations_or_default : List Toleration → List Toleration
tolerations_or_default [] = default_job_tolerations
tolerations_or_default (t ∷ ts) = t ∷ ts

abbrev volume_mounts : List VolumeMount
volume_mounts =
    record { name = "release"; mount_path = "/etc/upgrade-accelerator/release"; read_only = true }
    ∷ record { name = "pull-script"; mount_path = "/opt/upgrade-accelerator"; read_only = true }
    ∷ record { name = "host"; mount_path = "/host"; read_only = false }
    ∷ []

module _ {W : Type 0} (env : Env W) where
  abbrev job_image : UpgradeAccelerator → String
  job_image ua = or_default ua.spec.config.job_image default_job_puller_image

  abbrev release_config_map_name : UpgradeAccelerator → String
  release_config_map_name ua = String.◌++◌ "release-" (hash_string env ua.status.desired_version)

  abbrev script_config_map_name : UpgradeAccelerator → String
  script_config_map_name ua =
      String.◌++◌ "release-puller-script-" (hash_string env ua.status.desired_version)

  -- `jobConstructor`
  unfoldable pub pull_job_manifest : UpgradeAccelerator → PullJob → Job
  pull_job_manifest ua pull_job =
      let release = or_default pull_job.release_config_map_name (release_config_map_name ua) in
      let script =
        or_default ua.spec.config.pull_script_config_map_name (script_config_map_name ua) in
      record {
        name = pull_job.name;
        namespace = pull_job.namespace;
        labels =
            ("app", default_app_label_value)
            ∷ ("upgrade-accelerator/name", ua.name)
            ∷ ("pull-job/release", ua.status.desired_version)
            ∷ ("pull-job/name", pull_job.name)
            ∷ ("pull-job/namespace", pull_job.namespace)
            ∷ ("pull-job/targetNodeName", pull_job.target_node_name)
            ∷ [];
        owner = ua.name;
        ttl_seconds_after_finished = default_job_ttl;
        restart_policy = "Never";
        host_pid = true;
        host_network = true;
        host_ipc = true;
        node_name = pull_job.target_node_name;
        tolerations = tolerations_or_default ua.spec.config.scheduling.tolerations;
        container = record {
          name = "preheater";
          image = job_image ua;
          command = "/bin/sh" ∷ [];
          args = "-c" ∷ "--" ∷ "sh /opt/upgrade-accelerator/puller.sh;" ∷ [];
          env =
              (record { name = "PULL_JOB_NAME"; value = pull_job.name }
                ∷ record { name = "PULL_JOB_NAMESPACE"; value = pull_job.namespace }
                ∷ record { name = "PULL_JOB_IMAGE"; value = job_image ua }
                ∷ record { name = "PULL_JOB_RELEASE_CONFIGMAP"; value = release }
                ∷ record { name = "PULL_JOB_SCRIPT_CONFIGMAP"; value = script }
                ∷ [])
              ++ env.proxy_vars;
          tty = true;
          privileged = true;
          run_as_user = 0;
          seccomp_profile = "Unconfined";
          volume_mounts = volume_mounts;
        };
        volumes =
            record { name = "release"; source = config_map release }
            ∷ record { name = "pull-script"; source = config_map script }
            ∷ record { name = "host"; source = host_path "/" "Directory" }
            ∷ [];
        succeeded = 0;
      }

  -- Whether the Job was created. The status of the UpgradeAccelerator is only read.
  unfoldable pub create_pull_job : PullJob → Exec W Error Bool
  unfolding pull_job_manifest
  create_pull_job pull_job s =
      let (found, w) =
        env.get_job (record { namespace = pull_job.namespace; name = pull_job.name }) s.world in
      elim found [
        | ok existing ↦ (done false, record s { world = w })
        | err e ↦
            if e.not_found
            then (do call (env.create_job (pull_job_manifest s.ua pull_job)); pure true)
                (record s { world = w })
            else (fail e, record s { world = w })
      ]

  completed_nodes : List Job → List String
  completed_nodes [] = []
  completed_nodes (job ∷ jobs) =
      let rest = completed_nodes jobs in if ltb 0 job.succeeded then job.node_name ∷ rest else rest

  -- In all namespaces.
  unfoldable pub get_completed_job_node_list :
      (name release_version : String) → Exec W Error (List String)
  unfolding completed_nodes
  get_completed_job_node_list name release_version = do
    jobs ← call (
        env.list_jobs "" (
          ("app", default_app_label_value)
          ∷ ("upgrade-accelerator/name", name)
          ∷ ("pull-job/release", release_version)
          ∷ []))
    pure (completed_nodes jobs)
