-- ===== src/Tests/Parts.antt =====
-- The theorems on the images, the versions, the events and the lists at concrete objects.
use openshift_upgrade_accele.Prelude.{
  ℕ, some, length, String, ◌≡◌, ◌≢◌, ◌↔◌, not, refl, Bool, true, false, List, [], ◌∷◌, contains,
  keep, arith,
}
use openshift_upgrade_accele.Api.{UpgradeAcceleratorStatus}
use openshift_upgrade_accele.Cluster.{OperandVersion, ReleaseImageTags}
use openshift_upgrade_accele.Exec.{State, ok}
use openshift_upgrade_accele.Images.{filter_release_images, run_command}
use openshift_upgrade_accele.Images.Commands.{Succeeds, run_command_lem}
use openshift_upgrade_accele.Images.Filter.{IsForeign, filter_release_images_lem}
use openshift_upgrade_accele.Manager.{Object, cluster_version, update, passes}
use openshift_upgrade_accele.Manager.Laws.{passes-update_iff}
use openshift_upgrade_accele.Samples.{World, cluster, no_status, quiet, sample, world_of}
use openshift_upgrade_accele.Schedule.{settle_jobs}
use openshift_upgrade_accele.Schedule.Settle.{
  contains-preheated_settle_jobs, contains-warming_settle_jobs,
}
use openshift_upgrade_accele.Tests.Objects.{done_job}
use openshift_upgrade_accele.Cluster.{config_map, host_path}
use openshift_upgrade_accele.ConfigMaps.{release_config_map, script_config_map}
use openshift_upgrade_accele.Jobs.{pull_job_manifest}
use openshift_upgrade_accele.Setup.{create_operator_namespace}
use openshift_upgrade_accele.Reconcile.Scheduling.{pull_job}
use openshift_upgrade_accele.Reconcile.Run.{completion_phase}
use openshift_upgrade_accele.Reconcile.Completed.{completion_phase-last_completed_version}
use openshift_upgrade_accele.Reconcile.Mounts.{mounted, pull_job_manifest-setup}

abbrev text : String → String
text s = s

abbrev count : ℕ → ℕ
count n = n

filter_release_images_lem_example :
    (blocked : String → Bool) × ((name : String) → (blocked name ≡ true) ↔ IsForeign "aws-" name)
    × ((images : List ReleaseImageTags)
        → filter_release_images images "AWS" ≡ keep (λ item. not (blocked item.name)) images)
filter_release_images_lem_example = filter_release_images_lem "AWS" refl

run_command_lem_example :
    ((run_command cluster "oc adm release info" (world_of sample [])).0 ≡ ok "[]")
    ↔ (Succeeds quiet × (text "[]" ≡ "[]"))
run_command_lem_example = run_command_lem cluster "oc adm release info" (world_of sample []) "[]"

abbrev operator : String → OperandVersion
operator version = record { name = "operator"; version = version }

abbrev version_at : String → Object
version_at version = record {
  generation = 1;
  kind = cluster_version (record { desired_version = version; desired_image = "" });
}

passes-update_iff_example :
    (passes (update (version_at "4.18.0") (version_at "4.19.0")) ≡ true)
    ↔ ((text "4.18.0" ≢ text "4.19.0") × (count 1 ≢ count 1))
passes-update_iff_example = passes-update_iff (version_at "4.18.0") (version_at "4.19.0")

abbrev warming_two : UpgradeAcceleratorStatus
warming_two = record no_status { nodes_warming = "a" ∷ "b" ∷ [] }

contains-preheated_settle_jobs_example :
    contains (settle_jobs warming_two (done_job "a" ∷ [])).nodes_preheated "a" ≡ true
contains-preheated_settle_jobs_example =
    contains-preheated_settle_jobs warming_two (done_job "a" ∷ []) "a"

contains-warming_settle_jobs_example :
    contains (settle_jobs warming_two (done_job "a" ∷ [])).nodes_warming "a" ≡ false
contains-warming_settle_jobs_example =
    contains-warming_settle_jobs warming_two (done_job "a" ∷ []) "a" (ground arith)

abbrev all_done : State World
all_done = record {
  ua = record sample {
    status = record no_status {
      target_version = "4.19.0";
      nodes_selected = "a" ∷ [];
      nodes_preheated = "a" ∷ [];
    };
  };
  world = world_of sample [];
}

version_ne : text "4.19.0" ≢ text ""
version_ne e = let wrong : text "4.19.0" ≡ "" = e in cc

completion_phase-last_completed_version_example :
    (all_done.ua.status.nodes_waiting ≡ [])
    × (all_done.ua.status.nodes_warming ≡ [])
    × (length all_done.ua.status.nodes_preheated ≡ length all_done.ua.status.nodes_selected)
    × ((completion_phase cluster all_done).1.ua.status.last_completed_version ≡ "4.19.0")
unfolding completion_phase openshift_upgrade_accele.Conditions.append_condition
    openshift_upgrade_accele.Reconcile.Reply.save
completion_phase-last_completed_version_example =
    completion_phase-last_completed_version cluster all_done version_ne

pull_job_manifest-setup_example :
    let job =
      pull_job_manifest cluster sample
        (pull_job cluster "openshift-upgrade-accelerator" sample "a") in
    (job.node_name ≡ "a")
    × (job.namespace ≡ (release_config_map cluster sample "[]" "[]").namespace)
    × (job.namespace ≡ (script_config_map cluster sample).namespace)
    × (mounted job
        ≡ (
          "/etc/upgrade-accelerator/release",
          true,
          some (config_map (release_config_map cluster sample "[]" "[]").name),
        )
          ∷ (
            "/opt/upgrade-accelerator",
            true,
            some (config_map (script_config_map cluster sample).name),
          )
          ∷ ("/host", false, some (host_path "/" "Directory"))
          ∷ [])
unfolding create_operator_namespace
pull_job_manifest-setup_example =
    pull_job_manifest-setup cluster "a" "openshift-upgrade-accelerator" "[]" "[]"
      (record { ua = sample; world = world_of sample [] }) refl
