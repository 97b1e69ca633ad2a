-- ===== src/Nodes/Allowed.antt =====
-- internal/controller/upgradeaccelerator_nodeDetermination.go: that without MachineConfigPools only
-- nodes whose label does not disable preheating are targeted or primer nodes.
use openshift_upgrade_accele.Prelude.{
  String, ◌≡◌, Bool, true, false, not, ◌||◌, List, [], ◌∷◌, contains, arith, eq_iff,
}
use openshift_upgrade_accele.Cluster.{Node}
use openshift_upgrade_accele.Nodes.{
  LabeledNodes, determine_primer_nodes, first_primer, sort_if_many, finish_nodes,
  determine_labeled_nodes, preheat_disabled, default_targets, add_new_allowed,
}
use openshift_upgrade_accele.Nodes.Labeled.{
  names, some_node, is_primer, determine_labeled_nodes_lem,
}
use openshift_upgrade_accele.Nodes.Primers.{
  KeepsNames, targeted-finish_nodes, finish_nodes-no_prime, contains-default_targets,
  contains-sort_if_many,
}
use openshift_upgrade_accele.Nodes.Selection.{contains-add_new_allowed}

abbrev pub is_preheatable : Node → Bool
is_preheatable node = not (preheat_disabled node)

-- Every node of the list whose label does not disable preheating is good.
abbrev pub Offers : (String → Bool) → List Node → Type 0
Offers good nodes = (name : String) → some_node is_preheatable nodes name ≡ true → good name ≡ true

abbrev pub AllGood : (String → Bool) → List String → Type 0
AllGood good names = (name : String) → contains names name ≡ true → good name ≡ true

primer-preheatable :
    (nodes : List Node) (x : String)
    → some_node is_primer nodes x ≡ true
    → some_node is_preheatable nodes x ≡ true
primer-preheatable [] x h = h
primer-preheatable (n ∷ nodes) x h = ground (arith, h, primer-preheatable nodes x)

named-preheatable :
    (nodes : List Node) (x : String)
    → contains (names nodes) x ≡ true
    → some_node preheat_disabled nodes x ≡ false
    → some_node is_preheatable nodes x ≡ true
named-preheatable [] x h k = h
named-preheatable (n ∷ nodes) x h k =
    ground (arith, h, k, named-preheatable nodes x, eq_iff n.name x)

contains-first_primer :
    (l : LabeledNodes) (xs : List String) (x : String)
    → contains (first_primer l xs) x ≡ true
    → contains xs x ≡ true
unfolding first_primer
contains-first_primer l [] x h = h
contains-first_primer l (y ∷ ys) x h = ground (arith, h, contains-first_primer l ys x)

module _ (sort : List String → List String) (keeps : KeepsNames sort) where
  primer_of :
      (targeted : List String) (l : LabeledNodes) (x : String)
      → contains (determine_primer_nodes sort true targeted l).1 x ≡ true
      → (contains l.primer x || contains targeted x) ≡ true
  unfolding determine_primer_nodes
  primer_of [] l x h = ground (arith, h, keeps.same l.primer x)
  primer_of (t ∷ ts) l x h = ground (arith, h, contains-first_primer l (t ∷ ts) x)

  contains-primer :
      (selected : List String) (nodes : List Node) (x : String)
      → contains (finish_nodes sort true selected (determine_labeled_nodes nodes)).primer x ≡ true
      → (some_node is_primer nodes x || contains selected x) ≡ true
  unfolding finish_nodes
  contains-primer selected nodes x h =
      let l = determine_labeled_nodes nodes in
      let primer = (determine_primer_nodes sort true (sort_if_many sort selected) l).1 in
      ground (
        arith,
        h,
        contains-sort_if_many sort keeps primer x,
        primer_of (sort_if_many sort selected) l x,
        contains-sort_if_many sort keeps selected x,
        determine_labeled_nodes_lem nodes x,
      )

  module _ (good : String → Bool) where
    -- What is selected among good nodes stays so with the primer nodes, which are good themselves.
    pub finish_nodes-AllGood :
        (prime : Bool) (selected : List String) (nodes : List Node)
        → AllGood good selected
        → Offers good nodes
        → AllGood good (finish_nodes sort prime selected (determine_labeled_nodes nodes)).targeted
          × AllGood good (finish_nodes sort prime selected (determine_labeled_nodes nodes)).primer
    finish_nodes-AllGood true selected nodes chosen offered = (
      λ x h. ground (
        arith,
        h,
        targeted-finish_nodes sort keeps selected nodes x,
        chosen x,
        offered x,
        primer-preheatable nodes x,
      ),
      λ x h. ground (
        arith,
        contains-primer selected nodes x h,
        chosen x,
        offered x,
        primer-preheatable nodes x,
      ),
    )
    finish_nodes-AllGood false selected nodes chosen offered = (
      λ x h. ground (
        arith,
        h,
        chosen x,
        finish_nodes-no_prime sort keeps selected (determine_labeled_nodes nodes) x,
      ),
      λ x h.
          ground
            (arith, h, finish_nodes-no_prime sort keeps selected (determine_labeled_nodes nodes) x),
    )

    pub default_targets-AllGood :
        (nodes : List Node)
        → Offers good nodes
        → AllGood good (default_targets nodes (determine_labeled_nodes nodes).prohibited)
    default_targets-AllGood nodes offered x h = ground (
      arith,
      h,
      contains-default_targets sort keeps nodes (determine_labeled_nodes nodes).prohibited x,
      determine_labeled_nodes_lem nodes x,
      named-preheatable nodes x,
      offered x,
    )

    pub add_new_allowed-AllGood :
        (nodes : List Node) → Offers good nodes → AllGood good (add_new_allowed [] nodes)
    add_new_allowed-AllGood nodes offered x h =
        ground (arith, h, contains-add_new_allowed [] nodes x, offered x)
