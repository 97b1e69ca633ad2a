-- ===== src/Nodes.antt =====
-- internal/controller/upgradeaccelerator_nodeDetermination.go: which nodes are targeted, and which
-- of them are primed first.
pub mod Labeled
pub mod Primers
pub mod Targets
pub mod Selection
pub mod Pooled
pub mod Allowed
use openshift_upgrade_accele.Prelude.{
  String, Bool, true, false, not, ◌&&◌, Option, none, some, List, [], ◌∷◌, ◌++◌, map, ◌==◌,
  if◌then◌else◌, keep, is_empty, contains, length, ltb, is_lower_case_of,
}
use openshift_upgrade_accele.Api.{LabelSelector}
use openshift_upgrade_accele.Cluster.{Env, Labels, Node, MachineConfigPool}
use openshift_upgrade_accele.Exec.{
  Error, ok, err, Exec, ◌>>=◌, ◌>>◌, pure, throw, get, call, or_else, ignore,
}
use openshift_upgrade_accele.Sorting.{sort_slice_of_strings}
use openshift_upgrade_accele.Conditions.{
  set_condition_failure, delete_conditions, condition_type_successful, condition_type_running,
  condition_type_primer, condition_type_priming_in_progress, condition_type_setup_complete,
  condition_reason_failure_get_nodes, condition_reason_failure_get_machine_config_pools,
  condition_reason_failure_setup,
}

abbrev pub Selectors : Type 0
Selectors = List (String × LabelSelector)

-- `m[name] = selector`
unfoldable pub put_selector : String → LabelSelector → Selectors → Selectors
put_selector name selector [] = (name, selector) ∷ []
put_selector name selector ((other, old) ∷ rest) =
    if other == name
    then (name, selector) ∷ rest
    else (other, old) ∷ put_selector name selector rest

abbrev add_pool : List String → MachineConfigPool → Selectors → Selectors
add_pool defined pool selectors =
    if contains defined pool.name
    then elim pool.node_selector [
      | some selector ↦ put_selector pool.name selector selectors
      | none ↦ selectors
    ]
    else selectors

valid_pools_from : List String → Selectors → List MachineConfigPool → Selectors
valid_pools_from defined selectors [] = selectors
valid_pools_from defined selectors (pool ∷ pools) =
    valid_pools_from defined (add_pool defined pool selectors) pools

unfoldable pub determine_valid_machine_config_pools :
    List String → List MachineConfigPool → Selectors
unfolding valid_pools_from put_selector
determine_valid_machine_config_pools defined pools = valid_pools_from defined [] pools

-- `v, ok := labels[key]; ok && strings.ToLower(v) == literal`
unfoldable pub label_is : String → String → Labels → Bool
label_is key literal [] = false
label_is key literal ((k, v) ∷ labels) =
    if k == key then is_lower_case_of literal v else label_is key literal labels

abbrev pub preheat_disabled : Node → Bool
preheat_disabled node = label_is "openshift.kemo.dev/disable-preheat" "true" node.labels

abbrev pub priming_disabled : Node → Bool
priming_disabled node = label_is "openshift.kemo.dev/primer-node" "false" node.labels

pub record LabeledNodes : Type 0 where
  pub prohibited : List String
  pub primer : List String
  pub priming_prohibited : List String

abbrev label_node : Node → LabeledNodes → LabeledNodes
label_node node l =
    let l' =
      if preheat_disabled node
      then record l { prohibited = l.prohibited ++ (node.name ∷ []) }
      else l in
    if priming_disabled node
    then record l' { priming_prohibited = l'.priming_prohibited ++ (node.name ∷ []) }
    else if not (preheat_disabled node)
    then record l' { primer = l'.primer ++ (node.name ∷ []) }
    else l'

label_nodes_from : LabeledNodes → List Node → LabeledNodes
label_nodes_from l [] = l
label_nodes_from l (node ∷ nodes) = label_nodes_from (label_node node l) nodes

unfoldable pub determine_labeled_nodes : List Node → LabeledNodes
unfolding label_nodes_from
determine_labeled_nodes =
    label_nodes_from (record { prohibited = []; primer = []; priming_prohibited = [] })

abbrev pub allowed : LabeledNodes → String → Bool
allowed l name = not (contains l.priming_prohibited name) && not (contains l.prohibited name)

-- The loop with `break`: the first targeted node that may be a primer.
first_primer : LabeledNodes → List String → List String
first_primer l [] = []
first_primer l (name ∷ names) = if allowed l name then name ∷ [] else first_primer l names

-- The loop that makes the primer nodes targeted.
target_primers : LabeledNodes → List String → List String → List String
target_primers l targeted [] = targeted
target_primers l targeted (name ∷ names) =
    target_primers l
      (if not (contains targeted name) && allowed l name then targeted ++ (name ∷ []) else targeted)
      names

-- `sort` is `sortSliceOfStrings`. The result is the targeted nodes and the primer nodes.
unfoldable pub determine_primer_nodes :
    (List String → List String) → Bool → List String → LabeledNodes → List String × List String
unfolding first_primer target_primers
determine_primer_nodes sort true [] l =
    if ltb 1 (length l.primer) then (sort l.primer, sort l.primer) else (l.primer, l.primer)
determine_primer_nodes sort true (t ∷ ts) l =
    if is_empty l.primer
    then (t ∷ ts, first_primer l (t ∷ ts))
    else (target_primers l (t ∷ ts) l.primer, l.primer)
determine_primer_nodes sort false targeted l = (targeted, [])

-- `if len(names) > 1 { names = sortSliceOfStrings(names) }`
unfoldable pub sort_if_many : (List String → List String) → List String → List String
sort_if_many sort names = if ltb 1 (length names) then sort names else names

-- The loop that adds what is not there yet.
unfoldable pub add_new : List String → List Node → List String
add_new targeted [] = targeted
add_new targeted (node ∷ nodes) =
    add_new (if not (contains targeted node.name) then targeted ++ (node.name ∷ []) else targeted)
      nodes

-- The same, with the label looked up afresh.
unfoldable pub add_new_allowed : List String → List Node → List String
add_new_allowed targeted [] = targeted
add_new_allowed targeted (node ∷ nodes) =
    add_new_allowed
      (if preheat_disabled node
        then targeted
        else if not (contains targeted node.name)
        then targeted ++ (node.name ∷ [])
        else targeted)
      nodes

pub record NodeSets : Type 0 where
  pub targeted : List String
  pub prohibited : List String
  pub primer : List String
  pub priming_prohibited : List String

abbrev pub cleared : List String
cleared =
    condition_type_successful ∷ condition_type_primer ∷ condition_type_priming_in_progress
    ∷ condition_type_setup_complete ∷ []

-- All the nodes but the prohibited ones.
unfoldable pub default_targets : List Node → List String → List String
default_targets nodes prohibited =
    keep (λ name. not (contains prohibited name)) (map (λ (node : Node). node.name) nodes)

-- What the function returns, from the nodes that the selectors yield.
unfoldable pub finish_nodes :
    (List String → List String) → Bool → List String → LabeledNodes → NodeSets
unfolding sort_if_many
finish_nodes sort prime selected l =
    let (targeted, primer) = determine_primer_nodes sort prime (sort_if_many sort selected) l in
    record {
      targeted = targeted;
      prohibited = sort_if_many sort l.prohibited;
      primer = sort_if_many sort primer;
      priming_prohibited = sort_if_many sort l.priming_prohibited;
    }
