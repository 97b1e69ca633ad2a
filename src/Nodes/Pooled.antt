-- ===== src/Nodes/Pooled.antt =====
-- internal/controller/upgradeaccelerator_nodeDetermination.go: what MachineConfigPools and a node
-- selector select together.
use openshift_upgrade_accele.Prelude.{
  String, ◌≡◌, refl, sym, ap, ◌∙◌, Bool, false, ◌||◌, some, List, [], ◌∷◌, map, any, contains,
  arith,
}
use openshift_upgrade_accele.Api.{LabelSelector}
use openshift_upgrade_accele.Cluster.{Env, Labels, Node, MachineConfigPool}
use openshift_upgrade_accele.Exec.{ok, State, done}
use openshift_upgrade_accele.Nodes.{
  add_new, NodeSets, finish_nodes, Selectors, determine_valid_machine_config_pools,
  determine_labeled_nodes,
}
use openshift_upgrade_accele.Nodes.Labeled.{names}
use openshift_upgrade_accele.Nodes.Primers.{KeepsNames, finish_nodes-no_prime}
use openshift_upgrade_accele.Nodes.Selection.{contains-add_new}
use openshift_upgrade_accele.Nodes.Targets.{
  merge_all, list_pools, valid_selectors, select_nodes, determine_targeted_nodes,
}
use openshift_upgrade_accele.Sorting.{sort_slice_of_strings}

-- Going through a map meets exactly its entries, in whatever order.
pub record RangesAll {W : Type 0} (env : Env W) : Type 0 where
  pub merge_range :
      (p : String × LabelSelector → Bool) (m : Selectors) → any p (env.range_merge m) ≡ any p m
  pub list_range :
      (p : String × LabelSelector → Bool) (m : Selectors) → any p (env.range_list m) ≡ any p m

any-map :
    (p : String × LabelSelector → Bool) (f : String × LabelSelector → String × LabelSelector)
    (m : Selectors)
    → any p (map f m) ≡ any (λ e. p (f e)) m
any-map p f [] = refl
any-map p f (e ∷ m) = ground (arith, any-map p f m)

module _ {W : Type 0} (env : Env W) (selector : LabelSelector)
    (merged : LabelSelector → LabelSelector) (listed : Labels → List Node) where
  abbrev merge_entry : String × LabelSelector → String × LabelSelector
  merge_entry (pool, pool_selector) = (pool, merged pool_selector)

  -- The node is listed for the entry.
  abbrev lists : String → String × LabelSelector → Bool
  lists x (pool, entry) = contains (names (listed entry.match_labels)) x

  abbrev list_from : List String → Selectors → List String
  list_from targeted [] = targeted
  list_from targeted ((pool, entry) ∷ m) =
      list_from (add_new targeted (listed entry.match_labels)) m

  contains-list_from :
      (targeted : List String) (m : Selectors) (x : String)
      → contains (list_from targeted m) x ≡ (contains targeted x || any (lists x) m)
  contains-list_from targeted [] x = ground arith
  contains-list_from targeted ((pool, entry) ∷ m) x = ground (
    arith,
    contains-list_from (add_new targeted (listed entry.match_labels)) m x,
    contains-add_new targeted (listed entry.match_labels) x,
  )

  merge_all_lem :
      (s : State W) (m : Selectors)
      → ((pool_selector : LabelSelector)
          → env.merge pool_selector selector ≡ ok (merged pool_selector))
      → merge_all env selector m s ≡ (done (map merge_entry m), s)
  unfolding merge_all
  merge_all_lem s [] merges = refl
  merge_all_lem s ((pool, entry) ∷ m) merges =
      ground (arith, merges entry, merge_all_lem s m merges)

  list_pools_lem :
      (s : State W) (targeted : List String) (m : Selectors)
      → ((labels : Labels) → env.list_nodes labels s.world ≡ (ok (listed labels), s.world))
      → list_pools env targeted m s ≡ (done (list_from targeted m), s)
  unfolding list_pools
  list_pools_lem s targeted [] lists_all = refl
  list_pools_lem s targeted ((pool, entry) ∷ m) lists_all = ground (
    arith,
    lists_all entry.match_labels,
    list_pools_lem s (add_new targeted (listed entry.match_labels)) m lists_all,
  )

  select_nodes_lem :
      (s : State W) (p : String × LabelSelector) (m : Selectors)
      → ((pool_selector : LabelSelector)
          → env.merge pool_selector selector ≡ ok (merged pool_selector))
      → ((labels : Labels) → env.list_nodes labels s.world ≡ (ok (listed labels), s.world))
      → select_nodes env [] (some selector) (p ∷ m) s
        ≡ (done (list_from [] (env.range_list (map merge_entry (env.range_merge (p ∷ m))))), s)
  unfolding select_nodes
  select_nodes_lem s p m merges lists_all = ground (
    arith,
    merge_all_lem s (env.range_merge (p ∷ m)) merges,
    list_pools_lem s [] (env.range_list (map merge_entry (env.range_merge (p ∷ m)))) lists_all,
  )

  -- With a node selector and MachineConfigPools of which one at least is valid, without priming,
  -- where no call fails, listing nodes changes nothing and sorting keeps the names: the targeted
  -- nodes are exactly those that the API server lists for the `matchLabels` of what merging makes of
  -- the selector of a valid pool and the node selector, in whatever order Go goes through the pools.
  -- The `matchExpressions` of what merging makes do not matter, nor what the labels of the nodes
  -- disable. The object is left as it is, and the world as listing the pools leaves it.
  pub pools_and_selector :
      (s : State W) (d : String) (ds : List String) {nodes : List Node} {w : W}
      {pools : List MachineConfigPool} {w' : W} {p : String × LabelSelector} {m : Selectors}
      (x : String)
      → KeepsNames (sort_slice_of_strings env)
      → RangesAll env
      → s.ua.spec.selector.node_selector ≡ some selector
      → s.ua.spec.selector.machine_config_pools ≡ d ∷ ds
      → s.ua.spec.prime ≡ false
      → env.list_nodes [] s.world ≡ (ok nodes, w)
      → env.list_machine_config_pools w ≡ (ok pools, w')
      → determine_valid_machine_config_pools (d ∷ ds) pools ≡ p ∷ m
      → ((pool_selector : LabelSelector)
          → env.merge pool_selector selector ≡ ok (merged pool_selector))
      → ((labels : Labels) → env.list_nodes labels w' ≡ (ok (listed labels), w'))
      → (r : NodeSets) × (determine_targeted_nodes env s ≡ (done r, record s { world = w' }))
        × (contains r.targeted x
            ≡ any
                (λ (e : String × LabelSelector).
                  contains (names (listed (merged e.1).match_labels)) x)
                (determine_valid_machine_config_pools (d ∷ ds) pools))
  unfolding determine_targeted_nodes valid_selectors
  pools_and_selector s d ds {nodes} {w} {pools} {w'} {p} {m} x keeps ranges some_selector some_pools
        no_prime nodes_listed pools_listed valid merges lists_all =
      let selected = list_from [] (env.range_list (map merge_entry (env.range_merge (p ∷ m)))) in
      let after : State W = record s { world = w' } in
      (
        finish_nodes (sort_slice_of_strings env) false selected (determine_labeled_nodes nodes),
        ground (arith, select_nodes_lem after p m merges lists_all),
        (finish_nodes-no_prime _ keeps selected (determine_labeled_nodes nodes) x).0
            ∙ contains-list_from [] (env.range_list (map merge_entry (env.range_merge (p ∷ m)))) x
            ∙ ranges.list_range (lists x) (map merge_entry (env.range_merge (p ∷ m)))
            ∙ any-map (lists x) merge_entry (env.range_merge (p ∷ m))
            ∙ ranges.merge_range (λ e. lists x (merge_entry e)) (p ∷ m)
            ∙ ap
                (any (λ (e : String × LabelSelector).
                  contains (names (listed (merged e.1).match_labels)) x))
                (sym valid),
      )
