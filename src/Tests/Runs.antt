-- ===== src/Tests/Runs.antt =====
-- Runs of the code on the sample cluster.
use openshift_upgrade_accele.Prelude.{◌≡◌, refl, [], ◌∷◌, map}
use openshift_upgrade_accele.Exec.{State}
use openshift_upgrade_accele.Images.{filter_release_images}
use openshift_upgrade_accele.Cluster.{ReleaseImageTags}
use openshift_upgrade_accele.Reconcile.Scheduling.{visit_nodes}
use openshift_upgrade_accele.Samples.{World, cluster, sample, no_status, world_of, sample_images}

abbrev waiting_four : State World
waiting_four = record {
  ua = record sample { status = record no_status { nodes_waiting = "a" ∷ "b" ∷ "c" ∷ "d" ∷ [] } };
  world = world_of sample [];
}

-- With `Parallelism` 0, four nodes wait, and the second one is passed over.
visit_nodes_skips :
    ((visit_nodes cluster "ns" waiting_four).1.ua.status.nodes_waiting ≡ "b" ∷ [])
    × ((visit_nodes cluster "ns" waiting_four).1.ua.status.nodes_warming ≡ "a" ∷ "c" ∷ "d" ∷ [])
unfolding visit_nodes openshift_upgrade_accele.Jobs.create_pull_job
    openshift_upgrade_accele.Reconcile.Reply.save openshift_upgrade_accele.Conditions.status_update
    openshift_upgrade_accele.Versions.hash_string
visit_nodes_skips = (refl, refl)

-- On AWS the image of another platform is left out.
filter_release_images_aws :
    map (λ (item : ReleaseImageTags). item.name) (filter_release_images sample_images "AWS")
    ≡ "etcd" ∷ "aws-machine-controllers" ∷ []
unfolding filter_release_images
filter_release_images_aws = refl
