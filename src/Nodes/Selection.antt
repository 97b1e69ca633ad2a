-- ===== src/Nodes/Selection.antt =====
-- internal/controller/upgradeaccelerator_nodeDetermination.go: what the selectors select.
use openshift_upgrade_accele.Prelude.{
  Distinct, ◌∙◌, String, ◌≡◌, refl, Bool, true, false, not, ◌&&◌, ◌||◌, Option, none, some, List,
  [], ◌∷◌, ◌++◌, ◌==◌, Option-cases, inl, inr, if◌then◌else◌, contains, contains-append, arith,
  eq_iff,
}
use openshift_upgrade_accele.Api.{LabelSelector, LabelSelectorRequirement}
use openshift_upgrade_accele.Cluster.{Env, Labels, Node, MachineConfigPool}
use openshift_upgrade_accele.Exec.{ok, State, done}
use openshift_upgrade_accele.Nodes.Targets.{determine_targeted_nodes}
use openshift_upgrade_accele.Nodes.{
  default_targets, add_new, add_new_allowed, preheat_disabled, NodeSets, finish_nodes, Selectors,
  put_selector, determine_valid_machine_config_pools, valid_pools_from, add_pool,
  determine_labeled_nodes,
}
use openshift_upgrade_accele.Nodes.Labeled.{names, some_node, is_primer}
use openshift_upgrade_accele.Nodes.Primers.{
  KeepsNames, targeted-finish_nodes, finish_nodes-no_prime, default-finish_nodes,
}
use openshift_upgrade_accele.Sorting.{sort_slice_of_strings}

-- The nodes of a pool are added whatever their labels say.
pub contains-add_new :
    (targeted : List String) (nodes : List Node) (x : String)
    → contains (add_new targeted nodes) x ≡ (contains targeted x || contains (names nodes) x)
unfolding add_new
contains-add_new targeted [] x = ground arith
contains-add_new targeted (n ∷ nodes) x = ground (
  arith,
  contains-add_new targeted nodes x,
  contains-add_new (targeted ++ (n.name ∷ [])) nodes x,
  contains-append targeted (n.name ∷ []) x,
  eq_iff n.name x,
)

-- The nodes of a node selector alone are added unless their label disables preheating.
pub contains-add_new_allowed :
    (targeted : List String) (nodes : List Node) (x : String)
    → contains (add_new_allowed targeted nodes) x
      ≡ (contains targeted x || some_node (λ n. not (preheat_disabled n)) nodes x)
unfolding add_new_allowed
contains-add_new_allowed targeted [] x = ground arith
contains-add_new_allowed targeted (n ∷ nodes) x = ground (
  arith,
  contains-add_new_allowed targeted nodes x,
  contains-add_new_allowed (targeted ++ (n.name ∷ [])) nodes x,
  contains-append targeted (n.name ∷ []) x,
  eq_iff n.name x,
)

-- `m[name]`
abbrev pub lookup : String → Selectors → Option LabelSelector
lookup name [] = none
lookup name ((other, selector) ∷ rest) = if other == name then some selector else lookup name rest

abbrev or_else_take : {A : Type 0} → Option A → Option A → Option A
or_else_take (some a) b = some a
or_else_take none b = b

-- The selector of the last pool of that name that has one.
abbrev pub last_selector : String → List MachineConfigPool → Option LabelSelector
last_selector name [] = none
last_selector name (pool ∷ pools) =
    or_else_take (last_selector name pools) (if pool.name == name then pool.node_selector else none)

lookup-put_selector :
    (name : String) (selector : LabelSelector) (m : Selectors) (x : String)
    → lookup x (put_selector name selector m) ≡ (if name == x then some selector else lookup x m)
unfolding put_selector
lookup-put_selector name selector [] x = refl
lookup-put_selector name selector ((other, old) ∷ m) x =
    ground (
      arith,
      lookup-put_selector name selector m x,
      eq_iff other name,
      eq_iff other x,
      eq_iff name x,
    )

lookup-add_pool :
    (defined : List String) (pool : MachineConfigPool) (m : Selectors) (x : String)
    → lookup x (add_pool defined pool m) ≡ (
        if contains defined x && pool.name == x
        then or_else_take pool.node_selector (lookup x m)
        else lookup x m)
lookup-add_pool defined pool m x = elim (Option-cases pool.node_selector) [
  | inl e ↦ ground arith
  | inr (selector, e) ↦
      ground (arith, lookup-put_selector pool.name selector m x, eq_iff pool.name x)
]

valid_pools_from_lem :
    (defined : List String) (m : Selectors) (pools : List MachineConfigPool) (x : String)
    → lookup x (valid_pools_from defined m pools) ≡ (
        if contains defined x
        then or_else_take (last_selector x pools) (lookup x m)
        else lookup x m)
unfolding valid_pools_from
valid_pools_from_lem defined m [] x = ground arith
valid_pools_from_lem defined m (pool ∷ pools) x = ground (
  arith,
  valid_pools_from_lem defined (add_pool defined pool m) pools x,
  lookup-add_pool defined pool m x,
)

-- A MachineConfigPool is valid exactly if the spec names it and it has a node selector, which is
-- then the selector that is used; of several pools with one name, the last that has one counts.
pub determine_valid_machine_config_pools_lem :
    (defined : List String) (pools : List MachineConfigPool) (x : String)
    → lookup x (determine_valid_machine_config_pools defined pools)
      ≡ (if contains defined x then last_selector x pools else none)
unfolding determine_valid_machine_config_pools
determine_valid_machine_config_pools_lem defined pools x =
    ground (arith, valid_pools_from_lem defined [] pools x)

module _ {W : Type 0} (env : Env W) (keeps : KeepsNames (sort_slice_of_strings env)) where
  nothing_selected :
      (prime : Bool) (nodes : List Node) (x : String)
      → contains
          (finish_nodes
            (sort_slice_of_strings env)
            prime
            []
            (determine_labeled_nodes nodes)).targeted
          x
        ≡ (prime && some_node is_primer nodes x)
  nothing_selected true nodes x = targeted-finish_nodes _ keeps [] nodes x
  nothing_selected false nodes x =
      (finish_nodes-no_prime _ keeps [] (determine_labeled_nodes nodes) x).0

  -- With MachineConfigPools and no node selector, the pools do not matter: where the nodes and the
  -- pools can be listed, nothing is targeted without priming, and with priming it is the nodes that
  -- neither label rules out.
  pub pools_alone :
      (s : State W) (p : String) (ps : List String) {nodes : List Node} {w : W}
      {pools : List MachineConfigPool} {w' : W} (x : String)
      → s.ua.spec.selector.node_selector ≡ none
      → s.ua.spec.selector.machine_config_pools ≡ p ∷ ps
      → env.list_nodes [] s.world ≡ (ok nodes, w)
      → env.list_machine_config_pools w ≡ (ok pools, w')
      → (r : NodeSets) × (determine_targeted_nodes env s ≡ (done r, record s { world = w' }))
        × (contains r.targeted x ≡ (s.ua.spec.prime && some_node is_primer nodes x))
  unfolding determine_targeted_nodes
  pools_alone s p ps {nodes} x no_selector some_pools listed listed_pools = (
    finish_nodes (sort_slice_of_strings env) s.ua.spec.prime [] (determine_labeled_nodes nodes),
    ground arith,
    nothing_selected s.ua.spec.prime nodes x,
  )

  -- With no selector at all, and node names that are distinct, the targeted nodes are exactly those
  -- whose label does not disable preheating, with priming and without. The object is left as it is,
  -- and the world as listing the nodes leaves it.
  pub no_selectors :
      (s : State W) {nodes : List Node} {w : W} (x : String)
      → s.ua.spec.selector.node_selector ≡ none
      → s.ua.spec.selector.machine_config_pools ≡ []
      → env.list_nodes [] s.world ≡ (ok nodes, w)
      → Distinct (names nodes)
      → (r : NodeSets) × (determine_targeted_nodes env s ≡ (done r, record s { world = w }))
        × (contains r.targeted x
            ≡ (contains (names nodes) x && not (some_node preheat_disabled nodes x)))
  unfolding determine_targeted_nodes
  no_selectors s {nodes} x no_selector no_pools listed d = (
    finish_nodes (sort_slice_of_strings env) s.ua.spec.prime
        (default_targets nodes (determine_labeled_nodes nodes).prohibited)
        (determine_labeled_nodes nodes),
    ground arith,
    default-finish_nodes _ keeps s.ua.spec.prime nodes x d,
  )

  -- With a node selector and no MachineConfigPools, and without priming, the targeted nodes are
  -- exactly the nodes that the API server lists for the `matchLabels` of the selector and whose label
  -- does not disable preheating, whatever the `matchExpressions` of the selector say.
  pub selector_alone :
      (s : State W) (labels : Labels) (expressions : List LabelSelectorRequirement)
      {nodes chosen : List Node} {w w' : W} (x : String)
      → s.ua.spec.selector.node_selector
        ≡ some (record { match_labels = labels; match_expressions = expressions })
      → s.ua.spec.selector.machine_config_pools ≡ []
      → s.ua.spec.prime ≡ false
      → env.list_nodes [] s.world ≡ (ok nodes, w)
      → env.list_nodes labels w ≡ (ok chosen, w')
      → (r : NodeSets) × (determine_targeted_nodes env s ≡ (done r, record s { world = w' }))
        × (contains r.targeted x ≡ some_node (λ n. not (preheat_disabled n)) chosen x)
  unfolding determine_targeted_nodes
  selector_alone s labels expressions {nodes} {chosen} x some_selector no_pools no_prime listed
        selected =
      (
        finish_nodes (sort_slice_of_strings env) false (add_new_allowed [] chosen)
            (determine_labeled_nodes nodes),
        ground arith,
        (finish_nodes-no_prime _ keeps (add_new_allowed [] chosen) (determine_labeled_nodes nodes)
              x).0
            ∙ contains-add_new_allowed [] chosen x,
      )
