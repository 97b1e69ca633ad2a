-- ===== src/Tests/Planned.antt =====
-- The plan of a reconciliation at a concrete cluster: four nodes wait and a fifth is targeted.
use openshift_upgrade_accele.Prelude.{String, ◌≡◌, refl, ◌||◌, List, [], ◌∷◌, contains, keep}
use openshift_upgrade_accele.Api.{Condition}
use openshift_upgrade_accele.Cluster.{Job}
use openshift_upgrade_accele.Exec.{State, done}
use openshift_upgrade_accele.Conditions.{condition_type_primer, condition_reason_primer_skipped}
use openshift_upgrade_accele.Schedule.Alternate.{visited}
use openshift_upgrade_accele.Reconcile.Run.{schedule}
use openshift_upgrade_accele.Reconcile.Visited.{has_job, job_key, is_found}
use openshift_upgrade_accele.Reconcile.Plan.{lists_of, after_jobs, filled_state}
use openshift_upgrade_accele.Reconcile.Plan.Whole.{schedule-plan}
use openshift_upgrade_accele.Reconcile.Plan.Next.{alternated}
use openshift_upgrade_accele.Samples.{World, cluster, has_labels, sample, no_status, world_of}
use openshift_upgrade_accele.Tests.Loops.{cluster-JobServer, four, found_version}

abbrev skipped : Condition
skipped = record {
  type_name = condition_type_primer;
  status = "False";
  reason = condition_reason_primer_skipped;
  message = "";
  last_transition_time = 0;
}

abbrev five_targeted : State World
five_targeted = record {
  ua = record sample {
    status = record no_status { nodes_waiting = four; conditions = skipped ∷ [] };
  };
  world = world_of sample [];
}

abbrev listed_jobs : World → List Job
listed_jobs w =
    keep
      (λ (j : Job). has_labels (("pull-job/release", found_version.desired_version) ∷ []) j.labels)
      w.jobs

schedule-plan_example :
    let targeted : List String = "e" ∷ [] in
    let filled = (filled_state targeted five_targeted).status in
    let r = schedule cluster "ns" found_version targeted [] five_targeted in
    (r.0 ≡ done tt)
    × (w : World) × ((y : String)
        → is_found (cluster.get_job (job_key cluster "ns" five_targeted.ua y) w).0
          ≡ (contains (visited filled.nodes_waiting) y || has_job cluster "ns" five_targeted y))
    × (lists_of r.1.ua.status ≡ lists_of (after_jobs (listed_jobs w) (alternated filled)))
unfolding openshift_upgrade_accele.Conditions.get_condition_reason
schedule-plan_example =
    schedule-plan cluster "ns" cluster-JobServer found_version ("e" ∷ []) five_targeted listed_jobs
      refl refl (refl, (refl, (refl, (refl, tt)))) (λ y h. (refl, refl)) (λ w. refl)
