-- ===== src/Nodes/Targets.antt =====
-- internal/controller/upgradeaccelerator_nodeDetermination.go: the calls and the errors of
-- `determineTargetedNodes`.
use openshift_upgrade_accele.Prelude.{String, Option, none, some, List, [], ◌∷◌}
use openshift_upgrade_accele.Api.{LabelSelector}
use openshift_upgrade_accele.Cluster.{Env, Node}
use openshift_upgrade_accele.Exec.{
  Error, ok, err, Exec, ◌>>=◌, ◌>>◌, pure, throw, get, call, or_else, ignore,
}
use openshift_upgrade_accele.Sorting.{sort_slice_of_strings}
use openshift_upgrade_accele.Conditions.{
  set_condition_failure, delete_conditions, condition_type_successful, condition_type_running,
  condition_type_primer, condition_type_priming_in_progress, condition_type_setup_complete,
  condition_reason_failure_get_nodes, condition_reason_failure_get_machine_config_pools,
  condition_reason_failure_setup,
}
use openshift_upgrade_accele.Nodes.{
  Selectors, NodeSets, cleared, add_new, add_new_allowed, default_targets, finish_nodes,
  determine_labeled_nodes, determine_valid_machine_config_pools,
}

module _ {W : Type 0} (env : Env W) where
  abbrev pub fail_with : {A : Type 0} → String → List String → Error → Exec W Error A
  fail_with reason types e = do
    ignore (set_condition_failure env reason e.message)
    ignore (delete_conditions env types)
    throw e

  abbrev merge_selector : LabelSelector → LabelSelector → Exec W Error LabelSelector
  merge_selector selector node_selector = elim (env.merge selector node_selector) [
    | ok merged ↦ pure merged
    | err e ↦ fail_with condition_reason_failure_setup cleared e
  ]

  -- The first loop over the pools: the selector of each gets the node selector merged in. In the
  -- source `mergo.Merge` writes it through the pointer that the map holds, whose selector is a copy
  -- that this call has just listed; here it is a new value, and an error loses the map either way.
  unfoldable pub merge_all : LabelSelector → Selectors → Exec W Error Selectors
  merge_all node_selector [] = pure []
  merge_all node_selector ((pool, selector) ∷ rest) = do
    merged ← merge_selector selector node_selector
    more ← merge_all node_selector rest
    pure ((pool, merged) ∷ more)

  -- The second loop: the nodes that are listed for the `matchLabels` of each pool's merged selector.
  -- Its `matchExpressions` are not read.
  unfoldable pub list_pools : List String → Selectors → Exec W Error (List String)
  unfolding add_new
  list_pools targeted [] = pure targeted
  list_pools targeted ((pool, selector) ∷ rest) = do
    nodes ←
        or_else (call (env.list_nodes selector.match_labels))
          (fail_with condition_reason_failure_get_nodes cleared)
    list_pools (add_new targeted nodes) rest

  -- The MachineConfigPools of the selector, if it names any.
  unfoldable pub valid_selectors : List String → Exec W Error Selectors
  unfolding determine_valid_machine_config_pools
  valid_selectors [] = pure []
  valid_selectors (defined ∷ more) = do
    pools ←
        or_else (call env.list_machine_config_pools)
          (fail_with condition_reason_failure_get_machine_config_pools cleared)
    pure (determine_valid_machine_config_pools (defined ∷ more) pools)

  -- The nodes that the node selector yields, with the pools' or alone.
  unfoldable pub select_nodes :
      List String → Option LabelSelector → Selectors → Exec W Error (List String)
  unfolding merge_all list_pools add_new_allowed
  select_nodes targeted none pools = pure targeted
  select_nodes targeted (some node_selector) [] = do
    nodes ←
        or_else (call (env.list_nodes node_selector.match_labels))
          (fail_with condition_reason_failure_get_nodes cleared)
    pure (add_new_allowed targeted nodes)
  select_nodes targeted (some node_selector) (p ∷ pools) = do
    merged ← merge_all node_selector (env.range_merge (p ∷ pools))
    list_pools targeted (env.range_list merged)

  abbrev pub initial_targets :
      Option LabelSelector → List String → List Node → List String → List String
  initial_targets none [] nodes prohibited = default_targets nodes prohibited
  initial_targets _ _ nodes prohibited = []

  unfoldable pub determine_targeted_nodes : Exec W Error NodeSets
  unfolding valid_selectors select_nodes finish_nodes default_targets
  determine_targeted_nodes = do
    ua ← get
    nodes ← or_else (call (env.list_nodes [])) (
        fail_with condition_reason_failure_get_nodes (
          condition_type_successful ∷ condition_type_running ∷ condition_type_primer
          ∷ condition_type_priming_in_progress ∷ condition_type_setup_complete ∷ []))
    let selector = ua.spec.selector
    let labeled = determine_labeled_nodes nodes
    pools ← valid_selectors selector.machine_config_pools
    selected ←
        select_nodes
          (initial_targets selector.node_selector selector.machine_config_pools nodes
            labeled.prohibited)
          selector.node_selector pools
    pure (finish_nodes (sort_slice_of_strings env) ua.spec.prime selected labeled)
