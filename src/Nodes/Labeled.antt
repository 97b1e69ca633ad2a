-- ===== src/Nodes/Labeled.antt =====
-- internal/controller/upgradeaccelerator_nodeDetermination.go: what the labels of the nodes decide.
use openshift_upgrade_accele.Prelude.{
  String, ◌≡◌, refl, Bool, true, false, not, ◌&&◌, ◌||◌, List, [], ◌∷◌, ◌==◌, map, any, contains,
  contains-append, Distinct, arith, eq_iff,
}
use openshift_upgrade_accele.Cluster.{Node}
use openshift_upgrade_accele.Nodes.{
  LabeledNodes, label_node, preheat_disabled, priming_disabled, label_nodes_from,
  determine_labeled_nodes,
}

abbrev pub names : List Node → List String
names nodes = map (λ (node : Node). node.name) nodes

-- A node of that name passes the test.
abbrev pub some_node : (Node → Bool) → List Node → String → Bool
some_node p nodes x = any (λ (node : Node). node.name == x && p node) nodes

abbrev pub is_primer : Node → Bool
is_primer node = not (preheat_disabled node) && not (priming_disabled node)

prohibited_from :
    (l : LabeledNodes) (nodes : List Node) (x : String)
    → contains (label_nodes_from l nodes).prohibited x
      ≡ (contains l.prohibited x || some_node preheat_disabled nodes x)
unfolding label_nodes_from
prohibited_from l [] x = ground arith
prohibited_from l (n ∷ nodes) x = ground (
  arith,
  prohibited_from (label_node n l) nodes x,
  contains-append l.prohibited (n.name ∷ []) x,
  eq_iff n.name x,
)

primer_from :
    (l : LabeledNodes) (nodes : List Node) (x : String)
    → contains (label_nodes_from l nodes).primer x
      ≡ (contains l.primer x || some_node is_primer nodes x)
unfolding label_nodes_from
primer_from l [] x = ground arith
primer_from l (n ∷ nodes) x = ground (
  arith,
  primer_from (label_node n l) nodes x,
  contains-append l.primer (n.name ∷ []) x,
  eq_iff n.name x,
)

priming_prohibited_from :
    (l : LabeledNodes) (nodes : List Node) (x : String)
    → contains (label_nodes_from l nodes).priming_prohibited x
      ≡ (contains l.priming_prohibited x || some_node priming_disabled nodes x)
unfolding label_nodes_from
priming_prohibited_from l [] x = ground arith
priming_prohibited_from l (n ∷ nodes) x = ground (
  arith,
  priming_prohibited_from (label_node n l) nodes x,
  contains-append l.priming_prohibited (n.name ∷ []) x,
  eq_iff n.name x,
)

-- A node is prohibited exactly if its label disables preheating, it may not be a primer exactly if
-- its label disables priming, and every node with neither label is a primer node: none has to be
-- labelled as one.
pub determine_labeled_nodes_lem :
    (nodes : List Node) (x : String)
    → (contains (determine_labeled_nodes nodes).prohibited x ≡ some_node preheat_disabled nodes x)
      × (contains (determine_labeled_nodes nodes).priming_prohibited x
          ≡ some_node priming_disabled nodes x)
      × (contains (determine_labeled_nodes nodes).primer x ≡ some_node is_primer nodes x)
unfolding determine_labeled_nodes
determine_labeled_nodes_lem nodes x =
    (prohibited_from _ nodes x, priming_prohibited_from _ nodes x, primer_from _ nodes x)

-- Where the names of the nodes are distinct, a name stands for one node.
some_node-absent :
    (p : Node → Bool) (nodes : List Node) (x : String)
    → contains (names nodes) x ≡ false
    → some_node p nodes x ≡ false
some_node-absent p [] x h = refl
some_node-absent p (n ∷ nodes) x h = ground (arith, some_node-absent p nodes x)

pub some_node-not :
    (p : Node → Bool) (nodes : List Node) (x : String)
    → Distinct (names nodes)
    → some_node (λ n. not (p n)) nodes x ≡ (contains (names nodes) x && not (some_node p nodes x))
some_node-not p [] x d = refl
some_node-not p (n ∷ nodes) x d = ground (
  arith,
  some_node-not p nodes x d.1,
  some_node-absent p nodes x,
  some_node-absent (λ m. not (p m)) nodes x,
  eq_iff n.name x,
)

pub some_node-and :
    (p q : Node → Bool) (nodes : List Node) (x : String)
    → some_node (λ n. p n && q n) nodes x ≡ true
    → (some_node p nodes x ≡ true) × (some_node q nodes x ≡ true)
some_node-and p q [] x h = cc
some_node-and p q (n ∷ nodes) x h = ground (arith, some_node-and p q nodes x)
