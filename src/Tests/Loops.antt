-- ===== src/Tests/Loops.antt =====
-- The theorems on the names of the Jobs and on the loops that create them at concrete objects.
use openshift_upgrade_accele.Prelude.{
  ◌+◌, ◌≤◌, ◌<◌, ◌↔◌, String, ◌≡◌, ◌≢◌, refl, false, ◌||◌, List, [], ◌∷◌, contains, length, arith,
  eq_refl,
}
use Prim.Native.String.{len}
use openshift_upgrade_accele.Api.{UpgradeAccelerator}
use openshift_upgrade_accele.Versions.{hash_string}
use openshift_upgrade_accele.Exec.{State, done, panic}
use openshift_upgrade_accele.Versions.{OpenShiftClusterVersionState}
use openshift_upgrade_accele.Jobs.{create_pull_job}
use openshift_upgrade_accele.Reconcile.Names.{HexDigest, len-pull_job, pull_job-name_iff}
use openshift_upgrade_accele.Reconcile.Scheduling.{pull_job, visit_primer, visit_nodes}
use openshift_upgrade_accele.Reconcile.Run.{schedule}
use openshift_upgrade_accele.Reconcile.Unwait.{visit_primer-panic_iff}
use openshift_upgrade_accele.Reconcile.Visited.{JobStore, has_job}
use openshift_upgrade_accele.Reconcile.Shared.{visit_nodes-ne_panic}
use openshift_upgrade_accele.Reconcile.Unbatched.{visit_nodes-alternate}
use openshift_upgrade_accele.Reconcile.Unbatched.Steps.{rescheduled}
use openshift_upgrade_accele.Reconcile.Unbatched.Visits.{JobServer}
use openshift_upgrade_accele.Reconcile.Scoped.{IsScoped}
use openshift_upgrade_accele.Reconcile.Scoped.Whole.{schedule-IsScoped}
use openshift_upgrade_accele.Tests.Objects.{is_listed, OnlyListed, listed-IsScope}
use openshift_upgrade_accele.Samples.{missing, World, cluster, sample, no_status, world_of}

abbrev long_name : String
long_name = "ip-10-0-142-117.eu-central-1.compute.internal"

digest : HexDigest cluster.sha256_hex
digest = record {
  first = λ text. "01234567";
  rest = λ text. "89abcdef";
  split = λ text. refl;
  digits = λ text. refl;
}

len-pull_job_example :
    (len (pull_job cluster "ns" sample long_name).name ≡ len long_name + 19)
    × ((len (pull_job cluster "ns" sample long_name).name ≤ 63) ↔ (len long_name ≤ 44))
len-pull_job_example = len-pull_job cluster digest "ns" sample long_name

abbrev second : UpgradeAccelerator
second = record sample { name = "second" }

abbrev node_b : String
node_b = "b"

pull_job-name_iff_example :
    ((pull_job cluster "ns" sample long_name).name ≡ (pull_job cluster "ns" second node_b).name) ↔ (
      (long_name ≡ node_b)
      × (hash_string cluster sample.status.desired_version
          ≡ hash_string cluster second.status.desired_version))
pull_job-name_iff_example = pull_job-name_iff cluster digest "ns" sample second long_name node_b

abbrev waiting_two : State World
waiting_two = record {
  ua = record sample { status = record no_status { nodes_waiting = "a" ∷ "b" ∷ [] } };
  world = world_of sample [];
}

visit_primer-panic_iff_example : ((visit_primer cluster "ns" "c" waiting_two).0 ≡ panic) ↔ (
    (1 < length waiting_two.ua.status.nodes_waiting)
    × (contains waiting_two.ua.status.nodes_waiting "c" ≡ false))
unfolding create_pull_job openshift_upgrade_accele.Reconcile.Scheduling.schedule_node
visit_primer-panic_iff_example = visit_primer-panic_iff cluster "ns" "c" waiting_two refl

cluster-JobStore : JobStore cluster
cluster-JobStore = record {
  reads = λ key w. refl;
  created = λ job w h. ground (arith, eq_refl job.name, eq_refl job.namespace);
  kept_by_create = λ job key w h. ground (arith, h);
  kept_by_update = λ ua key w h. h;
}

visit_nodes-ne_panic_example : (visit_nodes cluster "ns" waiting_two).0 ≢ panic
visit_nodes-ne_panic_example = visit_nodes-ne_panic cluster "ns" cluster-JobStore waiting_two refl

abbrev pub found_version : OpenShiftClusterVersionState
found_version = record {
  current_version = "4.18.1";
  desired_version = "4.19.0";
  desired_image = "quay.io/release";
}

schedule-IsScoped_example :
    IsScoped is_listed
      (λ _. Unit {0})
      OnlyListed
      (schedule cluster "ns" found_version ("a" ∷ "b" ∷ []) ("b" ∷ []) waiting_two).1
schedule-IsScoped_example =
    schedule-IsScoped cluster "ns" is_listed (λ _. Unit {0}) OnlyListed (listed-IsScope "ns")
      found_version ("a" ∷ "b" ∷ []) ("b" ∷ []) waiting_two (λ y h. h) (λ y h. ground (arith, h))
      (record { world = refl; waiting = λ y h. h; warming = λ y h. cc; spec = tt })

pub cluster-JobServer : JobServer cluster
cluster-JobServer = record {
  reads = λ key w. refl;
  absent = λ key w h. (missing, ground (arith, h), refl);
  creates = λ job w h. refl;
  created = λ job key w h. ground arith;
  updates = λ ua w. refl;
  updated = λ ua key w. refl;
}

abbrev pub four : List String
four = "a" ∷ "b" ∷ "c" ∷ "d" ∷ []

abbrev waiting_four : State World
waiting_four = record {
  ua = record sample { status = record no_status { nodes_waiting = four } };
  world = world_of sample [];
}

visit_nodes-alternate_example :
    let r = visit_nodes cluster "ns" waiting_four in
    ((names : List String) × (r.0 ≡ done names))
    × (r.1.ua ≡ rescheduled waiting_four ("b" ∷ []) ("a" ∷ "c" ∷ "d" ∷ []))
    × ((y : String)
        → has_job cluster "ns" r.1 y
          ≡ (contains ("a" ∷ "c" ∷ "d" ∷ []) y || has_job cluster "ns" waiting_four y))
    × (length r.1.ua.status.nodes_waiting ≡ 1)
visit_nodes-alternate_example =
    visit_nodes-alternate cluster "ns" cluster-JobServer waiting_four refl
      (refl, (refl, (refl, (refl, tt)))) (λ y h. (refl, refl))
