-- ===== src/Tests/Rules.antt =====
-- The theorems on the conditions, the nodes, the images and the lists at concrete objects.
use openshift_upgrade_accele.Prelude.{
  String, ◌≡◌, ◌≢◌, ◌↔◌, refl, Bool, true, false, Option, none, some, List, [], ◌∷◌, contains, keep,
  any, Distinct, arith,
}
use openshift_upgrade_accele.Exec.{State, done}
use openshift_upgrade_accele.Conditions.{get_condition_reason, append_condition}
use openshift_upgrade_accele.Conditions.Laws.{
  UniqueTypes, get_condition_reason-append_condition, append_condition-UniqueTypes,
}
use openshift_upgrade_accele.Nodes.Targets.{determine_targeted_nodes}
use openshift_upgrade_accele.Nodes.{
  NodeSets, add_new, add_new_allowed, default_targets, determine_labeled_nodes,
  determine_valid_machine_config_pools, finish_nodes,
}
use openshift_upgrade_accele.Nodes.Primers.{targeted-finish_nodes}
use openshift_upgrade_accele.Nodes.Selection.{
  lookup, determine_valid_machine_config_pools_lem, pools_alone, no_selectors, selector_alone,
}
use openshift_upgrade_accele.Samples.{World, cluster, plain_node, sample, sample_spec, world_of}
use openshift_upgrade_accele.Sorting.{sort_slice_of_strings}
use openshift_upgrade_accele.Tests.Objects.{
  cluster-KeepsNames, start, disabled_node, no_labels, worker_pool,
}

abbrev started : State World
started = (append_condition cluster "Running" "True" "JobsScheduled" "two nodes" start).1

get_condition_reason-append_condition_example :
    get_condition_reason started.ua "Running" ≡ "JobsScheduled"
get_condition_reason-append_condition_example =
    get_condition_reason-append_condition cluster "Running" "True" "JobsScheduled" "two nodes" start
      "Running"

append_condition-UniqueTypes_example : UniqueTypes started.ua.status.conditions
append_condition-UniqueTypes_example =
    append_condition-UniqueTypes cluster "Running" "True" "JobsScheduled" "two nodes" start tt

targeted-finish_nodes_example :
    contains
      (finish_nodes
        (sort_slice_of_strings cluster)
        true
        ("b" ∷ [])
        (determine_labeled_nodes (plain_node "a" ∷ plain_node "b" ∷ []))).targeted
      "a"
    ≡ true
unfolding openshift_upgrade_accele.Nodes.label_is
targeted-finish_nodes_example =
    targeted-finish_nodes (sort_slice_of_strings cluster) cluster-KeepsNames ("b" ∷ [])
      (plain_node "a" ∷ plain_node "b" ∷ []) "a"

determine_valid_machine_config_pools_lem_example :
    lookup "worker" (determine_valid_machine_config_pools ("worker" ∷ []) (worker_pool ∷ []))
    ≡ some no_labels
determine_valid_machine_config_pools_lem_example =
    determine_valid_machine_config_pools_lem ("worker" ∷ []) (worker_pool ∷ []) "worker"

abbrev pooled : State World
pooled = record {
  ua = record sample {
    spec = record sample_spec {
      selector = record { node_selector = none; machine_config_pools = "worker" ∷ [] };
    };
  };
  world = record (world_of sample (plain_node "a" ∷ [])) { pools = worker_pool ∷ [] };
}

pools_alone_example :
    (r : NodeSets) × (determine_targeted_nodes cluster pooled ≡ (done r, pooled))
    × (contains r.targeted "a" ≡ false)
pools_alone_example =
    pools_alone cluster cluster-KeepsNames pooled "worker" [] "a" refl refl refl refl

abbrev two_nodes : State World
two_nodes = record {
  ua = sample;
  world = world_of sample (disabled_node "a" ∷ plain_node "b" ∷ []);
}

no_selectors_example :
    (r : NodeSets) × (determine_targeted_nodes cluster two_nodes ≡ (done r, two_nodes))
    × (contains r.targeted "a" ≡ false)
unfolding openshift_upgrade_accele.Nodes.label_is openshift_upgrade_accele.Prelude.is_lower_case_of
no_selectors_example =
    no_selectors cluster cluster-KeepsNames two_nodes
      {nodes = disabled_node "a" ∷ plain_node "b" ∷ []} "a" refl refl refl (ground arith)

abbrev selected_nodes : State World
selected_nodes = record two_nodes {
  ua = record sample {
    spec = record sample_spec {
      selector = record { node_selector = some no_labels; machine_config_pools = [] };
    };
  };
}

selector_alone_example :
    (r : NodeSets) × (determine_targeted_nodes cluster selected_nodes ≡ (done r, selected_nodes))
    × (contains r.targeted "b" ≡ true)
unfolding openshift_upgrade_accele.Nodes.label_is
selector_alone_example =
    selector_alone cluster cluster-KeepsNames selected_nodes no_labels.match_labels
      no_labels.match_expressions {nodes = disabled_node "a" ∷ plain_node "b" ∷ []}
      {chosen = disabled_node "a" ∷ plain_node "b" ∷ []} "b" refl refl refl refl refl
