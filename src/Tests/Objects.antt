-- ===== src/Tests/Objects.antt =====
-- The objects that the examples share, and that the sort of the sample cluster keeps the names.
use openshift_upgrade_accele.Prelude.{
  any, not, false, some, true, String, ◌≡◌, refl, Bool, ◌||◌, ◌==◌, List, [], ◌∷◌, contains, arith,
}
use openshift_upgrade_accele.Api.{LabelSelector}
use openshift_upgrade_accele.Cluster.{Container, Job, Node, MachineConfigPool}
use openshift_upgrade_accele.Exec.{State}
use openshift_upgrade_accele.Jobs.{pull_job_manifest}
use openshift_upgrade_accele.Reconcile.Scoped.{IsScope}
use openshift_upgrade_accele.Nodes.Primers.{KeepsNames}
use openshift_upgrade_accele.Samples.{World, cluster, insert, insertion_sort, sample, world_of}
use openshift_upgrade_accele.Sorting.{sort_slice_of_strings}

contains-insert :
    (less : String → String → Bool) (x : String) (xs : List String) (y : String)
    → contains (insert less x xs) y ≡ (x == y || contains xs y)
contains-insert less x [] y = ground arith
contains-insert less x (z ∷ zs) y = ground (arith, contains-insert less x zs y)

contains-insertion_sort :
    (less : String → String → Bool) (xs : List String) (y : String)
    → contains (insertion_sort less xs) y ≡ contains xs y
contains-insertion_sort less [] y = refl
contains-insertion_sort less (x ∷ xs) y =
    ground
      (arith, contains-insert less x (insertion_sort less xs) y, contains-insertion_sort less xs y)

pub cluster-KeepsNames : KeepsNames (sort_slice_of_strings cluster)
cluster-KeepsNames = record { same = contains-insertion_sort _ }

abbrev pub start : State World
start = record { ua = sample; world = world_of sample [] }

abbrev pub disabled_node : String → Node
disabled_node name = record {
  name = name;
  labels = ("openshift.kemo.dev/disable-preheat", "true") ∷ [];
}

abbrev pub no_labels : LabelSelector
no_labels = record { match_labels = []; match_expressions = [] }

abbrev pub worker_pool : MachineConfigPool
worker_pool = record { name = "worker"; node_selector = some no_labels }

abbrev pub no_container : Container
no_container = record {
  name = "";
  image = "";
  command = [];
  args = [];
  env = [];
  tty = true;
  privileged = true;
  run_as_user = 0;
  seccomp_profile = "";
  volume_mounts = [];
}

-- A Job that succeeded on the node.
abbrev pub done_job : String → Job
done_job node = record {
  name = node;
  namespace = "";
  labels = [];
  owner = "sample";
  ttl_seconds_after_finished = 0;
  restart_policy = "Never";
  host_pid = true;
  host_network = true;
  host_ipc = true;
  node_name = node;
  tolerations = [];
  container = no_container;
  volumes = [];
  succeeded = 1;
}

abbrev pub is_listed : String → Bool
is_listed name = contains ("a" ∷ "b" ∷ []) name

abbrev pub OnlyListed : World → Type 0
OnlyListed w = any (λ (job : Job). not (is_listed job.node_name)) w.jobs ≡ false

pub listed-IsScope :
    (namespace : String) → IsScope cluster namespace is_listed (λ _. Unit {0}) OnlyListed
unfolding pull_job_manifest
listed-IsScope namespace = record {
  by_update = λ ua w k a b p. p;
  by_read = λ key w p. p;
  by_list = λ labels w p. p;
  by_create = λ ua node w a p. ground (arith, a, p);
}
