-- ===== src/Samples.antt =====
-- A small cluster in memory, as an instance of the interface, and objects to run the code on.
use openshift_upgrade_accele.Prelude.{
  ℕ, ◌-◌, ◌+◌, pos, String, Bool, true, false, ◌&&◌, Option, none, some, List, [], ◌∷◌, ◌++◌, ◌==◌,
  if◌then◌else◌, keep, any, ltb,
}
use openshift_upgrade_accele.Api.{
  UpgradeAccelerator, UpgradeAcceleratorSpec, UpgradeAcceleratorStatus,
}
use openshift_upgrade_accele.Cluster.{
  Env, Labels, NamespacedName, Node, MachineConfigPool, Job, ConfigMap, Namespace, ReleaseImageTags,
  Process,
}
use openshift_upgrade_accele.Exec.{Error, Result, ok, err}

pub record World : Type 0 where
  pub accelerator : Option UpgradeAccelerator
  pub nodes : List Node
  pub pools : List MachineConfigPool
  pub namespaces : List Namespace
  pub config_maps : List ConfigMap
  pub jobs : List Job
  pub version : String
  pub updates : ℕ

abbrev pub missing : Error
missing = record { message = "not found"; not_found = true }

abbrev answer : {A : Type 0} → Option A → Result A
answer none = err missing
answer (some a) = ok a

abbrev find : {A : Type 0} → (A → Bool) → List A → Option A
find p [] = none
find p (x ∷ xs) = if p x then some x else find p xs

abbrev pub has_labels : Labels → Labels → Bool
has_labels [] labels = true
has_labels ((k, v) ∷ wanted) labels =
    any (λ (l : String × String). l.0 == k && l.1 == v) labels && has_labels wanted labels

abbrev pub insert : (String → String → Bool) → String → List String → List String
insert less x [] = x ∷ []
insert less x (y ∷ ys) = if less y x then y ∷ insert less x ys else x ∷ y ∷ ys

abbrev pub insertion_sort : (String → String → Bool) → List String → List String
insertion_sort less [] = []
insertion_sort less (x ∷ xs) = insert less x (insertion_sort less xs)

abbrev pub quiet : Process
quiet = record {
  stdout_pipe = none;
  start = none;
  lines = "[]" ∷ [];
  scan = none;
  kill = none;
  wait = none;
}

abbrev pub sample_images : List ReleaseImageTags
sample_images =
    record { name = "etcd"; from = "quay.io/etcd" }
    ∷ record { name = "aws-machine-controllers"; from = "quay.io/aws" }
    ∷ record { name = "azure-cloud-controller-manager"; from = "quay.io/azure" }
    ∷ []

abbrev pub cluster : Env World
cluster = record {
  get_upgrade_accelerator = λ req w. (answer w.accelerator, w);
  update_status = λ ua w. (ok tt, record w { accelerator = some ua; updates = w.updates + 1 });
  list_nodes = λ labels w. (ok (keep (λ (n : Node). has_labels labels n.labels) w.nodes), w);
  list_machine_config_pools = λ w. (ok w.pools, w);
  get_infrastructure = λ name w. (ok (record { platform_status = some "AWS" }), w);
  get_cluster_operator = λ req w. (
    ok (record {
      name = "machine-config";
      versions = record { name = "operator"; version = "4.18.1" } ∷ [];
    }),
    w,
  );
  get_cluster_version =
      λ req w. (ok (record { desired_version = w.version; desired_image = "quay.io/release" }), w);
  get_namespace = λ name w. (answer (find (λ (n : Namespace). n.name == name) w.namespaces), w);
  create_namespace = λ n w. (ok tt, record w { namespaces = n ∷ w.namespaces });
  get_config_map = λ req w. (
    answer (
        find (λ (m : ConfigMap). m.name == req.name && m.namespace == req.namespace) w.config_maps),
    w,
  );
  create_config_map = λ m w. (ok tt, record w { config_maps = m ∷ w.config_maps });
  update_config_map = λ m w. (ok tt, record w { config_maps = m ∷ w.config_maps });
  get_job = λ req w.
      (answer (find (λ (j : Job). j.name == req.name && j.namespace == req.namespace) w.jobs), w);
  create_job = λ j w. (ok tt, record w { jobs = j ∷ w.jobs });
  list_jobs = λ namespace labels w. (ok (keep (λ (j : Job). has_labels labels j.labels) w.jobs), w);
  now = λ w. w.updates;
  run_shell = λ line w. (quiet, w);
  proxy_vars = [];
  unmarshal_images = λ text. ok sample_images;
  marshal_images = λ images. ok "[]";
  sha256_hex = λ text. "0123456789abcdef";
  sort = insertion_sort;
  to_upper = λ c. if ltb 96 c && ltb c 123 then c - 32 else c;
  merge = λ a b. ok (record a { match_labels = a.match_labels ++ b.match_labels });
  range_merge = λ pools. pools;
  range_list = λ pools. pools;
}

abbrev pub plain_node : String → Node
plain_node name = record { name = name; labels = [] }

abbrev pub no_status : UpgradeAcceleratorStatus
no_status = record {
  cluster_infrastructure = "";
  current_version = "";
  target_version = "";
  desired_version = "";
  desired_image = "";
  last_completed_version = "";
  conditions = [];
  nodes_selected = [];
  nodes_preheated = [];
  nodes_warming = [];
  nodes_waiting = [];
  primer_nodes = [];
}

abbrev pub sample_spec : UpgradeAcceleratorSpec
sample_spec = record {
  state = "enabled";
  selector = record { node_selector = none; machine_config_pools = [] };
  prime = false;
  parallelism = pos 0;
  config = record {
    scheduling = record { tolerations = []; namespace = "" };
    random_wait = record { enabled = false; min_duration = pos 10; max_duration = pos 30 };
    job_image = "";
    override_release_version = record { version = ""; image = "" };
    pull_script_config_map_name = "";
  };
}

abbrev pub sample : UpgradeAccelerator
sample = record { name = "sample"; namespace = ""; spec = sample_spec; status = no_status }

abbrev pub world_of : UpgradeAccelerator → List Node → World
world_of ua nodes = record {
  accelerator = some ua;
  nodes = nodes;
  pools = [];
  namespaces = [];
  config_maps = [];
  jobs = [];
  version = "4.19.0";
  updates = 0;
}

abbrev pub sample_request : NamespacedName
sample_request = record { namespace = ""; name = "sample" }
