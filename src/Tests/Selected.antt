-- ===== src/Tests/Selected.antt =====
-- The selection by MachineConfigPools and a node selector at a concrete cluster: a node of the pool
-- whose label disables preheating is selected.
use openshift_upgrade_accele.Prelude.{◌≡◌, refl, true, some, List, [], ◌∷◌, ◌++◌, contains, keep}
use openshift_upgrade_accele.Api.{LabelSelector}
use openshift_upgrade_accele.Cluster.{Labels, Node, MachineConfigPool}
use openshift_upgrade_accele.Exec.{State, done}
use openshift_upgrade_accele.Nodes.{NodeSets}
use openshift_upgrade_accele.Nodes.Targets.{determine_targeted_nodes}
use openshift_upgrade_accele.Nodes.Pooled.{RangesAll, pools_and_selector}
use openshift_upgrade_accele.Samples.{
  World, cluster, has_labels, plain_node, sample, sample_spec, world_of,
}
use openshift_upgrade_accele.Tests.Objects.{cluster-KeepsNames, no_labels}

abbrev worker_selector : LabelSelector
worker_selector = record { match_labels = ("role", "worker") ∷ []; match_expressions = [] }

abbrev workers : MachineConfigPool
workers = record { name = "worker"; node_selector = some worker_selector }

abbrev disabled_worker : Node
disabled_worker = record {
  name = "a";
  labels = ("openshift.kemo.dev/disable-preheat", "true") ∷ ("role", "worker") ∷ [];
}

abbrev two : List Node
two = disabled_worker ∷ plain_node "b" ∷ []

abbrev with_both : State World
with_both = record {
  ua = record sample {
    spec = record sample_spec {
      selector = record { node_selector = some no_labels; machine_config_pools = "worker" ∷ [] };
    };
  };
  world = record (world_of sample two) { pools = workers ∷ [] };
}

abbrev merge_nothing : LabelSelector → LabelSelector
merge_nothing s = record s { match_labels = s.match_labels ++ [] }

abbrev listed : Labels → List Node
listed labels = keep (λ (n : Node). has_labels labels n.labels) two

cluster-RangesAll : RangesAll cluster
cluster-RangesAll = record { merge_range = λ p m. refl; list_range = λ p m. refl }

pools_and_selector_example :
    (r : NodeSets) × (determine_targeted_nodes cluster with_both ≡ (done r, with_both))
    × (contains r.targeted "a" ≡ true)
unfolding openshift_upgrade_accele.Nodes.determine_valid_machine_config_pools
    openshift_upgrade_accele.Nodes.put_selector
pools_and_selector_example =
    pools_and_selector cluster no_labels merge_nothing listed with_both "worker" [] {nodes = two}
      {p = ("worker", worker_selector)} {m = []} "a" cluster-KeepsNames cluster-RangesAll refl refl
      refl refl refl refl (λ s. refl) (λ labels. refl)
