-- ===== src/Nodes/Primers.antt =====
-- internal/controller/upgradeaccelerator_nodeDetermination.go: how the primer nodes change what is
-- targeted.
use openshift_upgrade_accele.Prelude.{
  String, ◌≡◌, refl, Bool, true, false, not, ◌&&◌, ◌||◌, List, [], ◌∷◌, ◌++◌, if◌then◌else◌,
  contains, contains-append, contains-keep, is_empty, Distinct, arith, eq_iff,
}
use openshift_upgrade_accele.Cluster.{Node}
use openshift_upgrade_accele.Nodes.{
  LabeledNodes, allowed, target_primers, determine_primer_nodes, sort_if_many, finish_nodes,
  determine_labeled_nodes, preheat_disabled, priming_disabled, default_targets,
}
use openshift_upgrade_accele.Nodes.Labeled.{
  names, some_node, is_primer, determine_labeled_nodes_lem, some_node-not, some_node-and,
}

-- What sorting documents of its result, as far as membership goes.
pub record KeepsNames (sort : List String → List String) : Type 0 where
  pub same : (xs : List String) (x : String) → contains (sort xs) x ≡ contains xs x

contains-target_primers :
    (l : LabeledNodes) (targeted primers : List String) (x : String)
    → contains (target_primers l targeted primers) x
      ≡ (contains targeted x || (contains primers x && allowed l x))
unfolding target_primers
contains-target_primers l targeted [] x = ground arith
contains-target_primers l targeted (p ∷ ps) x = ground (
  arith,
  contains-target_primers l targeted ps x,
  contains-target_primers l (targeted ++ (p ∷ [])) ps x,
  contains-append targeted (p ∷ []) x,
  eq_iff p x,
)

module _ (sort : List String → List String) (keeps : KeepsNames sort) where
  pub contains-sort_if_many :
      (xs : List String) (x : String) → contains (sort_if_many sort xs) x ≡ contains xs x
  unfolding sort_if_many
  contains-sort_if_many xs x = ground (arith, keeps.same xs x)

  -- The targeted nodes, when priming is enabled.
  contains-determine_primer_nodes :
      (targeted : List String) (l : LabeledNodes) (x : String)
      → contains (determine_primer_nodes sort true targeted l).0 x ≡ (
          if is_empty targeted
          then contains l.primer x
          else (contains targeted x || (contains l.primer x && allowed l x)))
  unfolding determine_primer_nodes
  contains-determine_primer_nodes [] l x = ground (arith, keeps.same l.primer x)
  contains-determine_primer_nodes (t ∷ ts) l x =
      ground (arith, contains-target_primers l (t ∷ ts) l.primer x)

  is_empty-sort_if_many : (xs : List String) → is_empty (sort_if_many sort xs) ≡ is_empty xs
  unfolding sort_if_many
  is_empty-sort_if_many [] = ground arith
  is_empty-sort_if_many (x ∷ []) = ground arith
  is_empty-sort_if_many (x ∷ y ∷ ys) = ground (arith, keeps.same (x ∷ y ∷ ys) x, eq_iff x x)

  -- With priming enabled, every node that neither label rules out is targeted, whatever the
  -- selectors selected; beside those, exactly the selected nodes are, if there are any.
  pub targeted-finish_nodes :
      (selected : List String) (nodes : List Node) (x : String)
      → contains (finish_nodes sort true selected (determine_labeled_nodes nodes)).targeted x ≡ (
          if is_empty selected
          then some_node is_primer nodes x
          else (contains selected x
              || (some_node is_primer nodes x
                  && (not (some_node priming_disabled nodes x)
                      && not (some_node preheat_disabled nodes x)))))
  unfolding finish_nodes
  targeted-finish_nodes selected nodes x = ground (
    arith,
    contains-determine_primer_nodes (sort_if_many sort selected) (determine_labeled_nodes nodes) x,
    is_empty-sort_if_many selected,
    contains-sort_if_many selected x,
    determine_labeled_nodes_lem nodes x,
  )

  -- With priming disabled the selected nodes are targeted, and none is a primer node.
  pub finish_nodes-no_prime :
      (selected : List String) (l : LabeledNodes) (x : String)
      → (contains (finish_nodes sort false selected l).targeted x ≡ contains selected x)
        × (contains (finish_nodes sort false selected l).primer x ≡ false)
  unfolding finish_nodes determine_primer_nodes
  finish_nodes-no_prime selected l x =
      ground (arith, contains-sort_if_many selected x, contains-sort_if_many [] x)

  primer-determine_primer_nodes :
      (targeted : List String) (l : LabeledNodes) (x y : String)
      → contains l.primer y ≡ true
      → contains (determine_primer_nodes sort true targeted l).1 x ≡ contains l.primer x
  unfolding determine_primer_nodes
  primer-determine_primer_nodes [] l x y h = ground (arith, keeps.same l.primer x)
  primer-determine_primer_nodes (t ∷ ts) l x y h = ground arith

  -- With priming enabled, and some node that neither label rules out, the primer nodes are all the
  -- nodes that neither label rules out, targeted or not.
  pub primer-finish_nodes :
      (selected : List String) (nodes : List Node) (x y : String)
      → some_node is_primer nodes y ≡ true
      → contains (finish_nodes sort true selected (determine_labeled_nodes nodes)).primer x
        ≡ some_node is_primer nodes x
  unfolding finish_nodes
  primer-finish_nodes selected nodes x y h = ground (
    arith,
    primer-determine_primer_nodes (sort_if_many sort selected) (determine_labeled_nodes nodes) x y,
    contains-sort_if_many
        (determine_primer_nodes sort true (sort_if_many sort selected)
          (determine_labeled_nodes nodes)).1
        x,
    determine_labeled_nodes_lem nodes x,
    determine_labeled_nodes_lem nodes y,
  )

  pub contains-default_targets :
      (nodes : List Node) (prohibited : List String) (x : String)
      → contains (default_targets nodes prohibited) x
        ≡ (contains (names nodes) x && not (contains prohibited x))
  unfolding default_targets
  contains-default_targets nodes prohibited x =
      ground (arith, contains-keep (λ name. not (contains prohibited name)) (names nodes) x)

  is_empty-absent : (xs : List String) (x : String) → is_empty xs ≡ true → contains xs x ≡ false
  is_empty-absent [] x h = refl
  is_empty-absent (y ∷ ys) x h = cc

  -- With no selectors, and node names that are distinct, the targeted nodes are exactly those whose
  -- label does not disable preheating, with priming and without.
  pub default-finish_nodes :
      (prime : Bool) (nodes : List Node) (x : String)
      → Distinct (names nodes)
      → contains
          (finish_nodes sort prime
            (default_targets nodes (determine_labeled_nodes nodes).prohibited)
            (determine_labeled_nodes nodes)).targeted
          x
        ≡ (contains (names nodes) x && not (some_node preheat_disabled nodes x))
  default-finish_nodes false nodes x d = ground (
    arith,
    finish_nodes-no_prime (default_targets nodes (determine_labeled_nodes nodes).prohibited)
        (determine_labeled_nodes nodes) x,
    contains-default_targets nodes (determine_labeled_nodes nodes).prohibited x,
    determine_labeled_nodes_lem nodes x,
  )
  default-finish_nodes true nodes x d = ground (
    arith,
    targeted-finish_nodes (default_targets nodes (determine_labeled_nodes nodes).prohibited) nodes
        x,
    contains-default_targets nodes (determine_labeled_nodes nodes).prohibited x,
    determine_labeled_nodes_lem nodes x,
    some_node-not preheat_disabled nodes x d,
    is_empty-absent (default_targets nodes (determine_labeled_nodes nodes).prohibited) x,
    some_node-and (λ n. not (preheat_disabled n)) (λ n. not (priming_disabled n)) nodes x,
  )
