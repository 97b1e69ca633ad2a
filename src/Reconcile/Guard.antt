-- ===== src/Reconcile/Guard.antt =====
-- internal/controller: that a reconciliation without MachineConfigPools creates Jobs only for nodes
-- whose label does not disable preheating.
pub mod Whole
pub mod Reachable
use mathlib.Core.Path.{subst}
use openshift_upgrade_accele.Prelude.{
  String, ◌≡◌, sym, refl, ap, Bool, true, false, List, [], ◌∷◌, Option, none, some, contains,
}
use openshift_upgrade_accele.Api.{UpgradeAccelerator, UpgradeAcceleratorSpec, LabelSelector}
use openshift_upgrade_accele.Cluster.{Env, NamespacedName, Labels, Node}
use openshift_upgrade_accele.Exec.{
  Error, Result, ok, err, State, Outcome, done, fail, panic, Exec, call, ignore, pure, or_else,
  ◌>>=◌,
}
use openshift_upgrade_accele.Exec.Preserves.{
  Preserves, preserves_rules, Preserves-pure, Preserves-or_else,
}
use openshift_upgrade_accele.Exec.Ensures.{
  Ended, Ensures, Ensures-kept, Preserves-ensured, Ensures-pure, Ensures-throw, Ensures-get,
  Ensures-bind, Ensures-or_else,
}
use openshift_upgrade_accele.Sorting.{sort_slice_of_strings}
use openshift_upgrade_accele.Nodes.{
  Selectors, NodeSets, determine_labeled_nodes, finish_nodes, default_targets, add_new_allowed,
}
use openshift_upgrade_accele.Nodes.Targets.{
  fail_with, valid_selectors, select_nodes, determine_targeted_nodes, initial_targets,
}
use openshift_upgrade_accele.Nodes.Primers.{KeepsNames}
use openshift_upgrade_accele.Nodes.Allowed.{
  Offers, AllGood, finish_nodes-AllGood, default_targets-AllGood, add_new_allowed-AllGood,
}
use openshift_upgrade_accele.Reconcile.Warrant.{View, view, IsWarrant, IsWarranted, Stored}
use openshift_upgrade_accele.Reconcile.Warrant.Calls.{conditions, deletes}
use openshift_upgrade_accele.Conditions

-- No MachineConfigPools are named, and the nodes that wait or warm are good.
pub record IsGuarded (good : String → Bool) (v : View) : Type 0 where
  pub no_pools : v.pools ≡ []
  pub waiting : AllGood good v.waiting
  pub warming : AllGood good v.warming

abbrev pub NoPools : UpgradeAcceleratorSpec → Type 0
NoPools spec = spec.selector.machine_config_pools ≡ []

abbrev pub AllOffered : (String → Bool) → Result (List Node) → Type 0
AllOffered good (ok nodes) = Offers good nodes
AllOffered good (err e) = Unit {0}

-- In a world as it should be, every listed node whose label does not disable preheating is good.
pub record IsOffering {W : Type 0} (env : Env W) (good : String → Bool) (P : W → Type 0)
    : Type 0 where
  pub listed : (labels : Labels) (w : W) → P w → AllOffered good (env.list_nodes labels w).0

module _ {W : Type 0} (env : Env W) (good : String → Bool) (P : W → Type 0)
    (warrant : IsWarrant env P (IsGuarded good)) (offering : IsOffering env good P)
    (keeps : KeepsNames (sort_slice_of_strings env)) where
  abbrev I : State W → Type 0
  I = IsWarranted P (IsGuarded good)

  called_at :
      (r : Result (List Node) × W) (s : State W)
      → P r.1
      → AllOffered good r.0
      → I s
      → Ended I (Offers good) (call {W = W} (λ _. r) s).0 (call {W = W} (λ _. r) s).1
  called_at (ok nodes, w) s q offered p = (record { world = q; object = p.object }, offered)
  called_at (err e, w) s q offered p = record { world = q; object = p.object }

  lists_nodes : (labels : Labels) → Ensures I (Offers good) (call (env.list_nodes labels))
  lists_nodes labels = record {
    at = λ s p.
        called_at (env.list_nodes labels s.world) s (warrant.by_list_nodes labels s.world p.world)
          (offering.listed labels s.world p.world) p;
  }

  sets_condition :
      (type_name status reason message : String)
      → Preserves I (Conditions.append_condition env type_name status reason message)
  sets_condition = conditions env P (IsGuarded good) warrant

  drops : (types : List String) → Preserves I (Conditions.delete_conditions env types)
  drops = deletes env P (IsGuarded good) warrant

  ignored :
      {E : Type 0} (m : Exec W Error (Unit {0}))
      → Preserves I m
      → Ensures I (λ _. Unit {0}) (ignore {E = E} m)
  ignored m k = Ensures-kept _ (Preserves-or_else m _ k λ e. Preserves-pure tt)

  fails :
      {A : Type 0} (Post : A → Type 0) (reason : String) (types : List String) (e : Error)
      → Ensures I Post (fail_with env {A = A} reason types e)
  fails Post reason types e =
      Ensures-bind _ _ (ignored _ (sets_condition _ _ _ _))
        λ _ _. Ensures-bind _ _ (ignored _ (drops types)) λ _ _. Ensures-throw e

  valid_selectors-none :
      (pools : List String)
      → pools ≡ []
      → Ensures I (λ selectors. selectors ≡ []) (valid_selectors env pools)
  unfolding valid_selectors
  valid_selectors-none [] e = Ensures-pure [] refl
  valid_selectors-none (p ∷ ps) e = absurd (cc)

  select_nodes-AllGood :
      (selector : Option LabelSelector) (pools : List String) (nodes : List Node)
      (selectors : Selectors)
      → pools ≡ []
      → selectors ≡ []
      → Offers good nodes
      → Ensures I (AllGood good) (
          select_nodes env
            (initial_targets env selector pools nodes (determine_labeled_nodes nodes).prohibited)
            selector
            selectors)
  unfolding select_nodes
  select_nodes-AllGood none [] nodes selectors e f offered =
      Ensures-pure _ (default_targets-AllGood (sort_slice_of_strings env) keeps good nodes offered)
  select_nodes-AllGood (some selector) [] nodes [] e f offered =
      Ensures-bind _ _
        (Ensures-or_else _ _ (lists_nodes selector.match_labels) λ x. fails (Offers good) _ _ x)
        λ chosen chosen_offered.
          Ensures-pure _
            (add_new_allowed-AllGood (sort_slice_of_strings env) keeps good chosen chosen_offered)
  select_nodes-AllGood (some selector) [] nodes (p ∷ ps) e f offered = absurd (cc)
  select_nodes-AllGood selector (p ∷ ps) nodes selectors e f offered = absurd (cc)

  -- Both lists of nodes that the scheduling takes.
  abbrev pub SetsGood : NodeSets → Type 0
  SetsGood r = AllGood good r.targeted × AllGood good r.primer

  -- The rest of `determineTargetedNodes` from each of its calls on.
  abbrev finish : UpgradeAccelerator → List Node → List String → Exec W Error NodeSets
  finish ua nodes selected = pure (
      finish_nodes (sort_slice_of_strings env) ua.spec.prime selected
        (determine_labeled_nodes nodes))

  abbrev select : UpgradeAccelerator → List Node → Selectors → Exec W Error NodeSets
  select ua nodes selectors =
      select_nodes env
        (initial_targets env ua.spec.selector.node_selector ua.spec.selector.machine_config_pools
          nodes (determine_labeled_nodes nodes).prohibited)
        ua.spec.selector.node_selector selectors
      >>= finish ua nodes

  abbrev validate : UpgradeAccelerator → List Node → Exec W Error NodeSets
  validate ua nodes = valid_selectors env ua.spec.selector.machine_config_pools >>= select ua nodes

  abbrev failed_types : List String
  failed_types =
      Conditions.condition_type_successful ∷ Conditions.condition_type_running
      ∷ Conditions.condition_type_primer ∷ Conditions.condition_type_priming_in_progress
      ∷ Conditions.condition_type_setup_complete ∷ []

  abbrev list_all : UpgradeAccelerator → Exec W Error NodeSets
  list_all ua =
      or_else (call (env.list_nodes []))
        (fail_with env Conditions.condition_reason_failure_get_nodes failed_types)
      >>= validate ua

  select-SetsGood :
      (ua : UpgradeAccelerator) (nodes : List Node) (selectors : Selectors)
      → ua.spec.selector.machine_config_pools ≡ []
      → selectors ≡ []
      → Offers good nodes
      → Ensures I SetsGood (select ua nodes selectors)
  select-SetsGood ua nodes selectors no_pools none_valid offered =
      Ensures-bind _ (finish ua nodes)
        (select_nodes-AllGood ua.spec.selector.node_selector ua.spec.selector.machine_config_pools
          nodes selectors no_pools none_valid offered)
        λ selected chosen.
          Ensures-pure
            (finish_nodes (sort_slice_of_strings env) ua.spec.prime selected
              (determine_labeled_nodes nodes))
            (finish_nodes-AllGood (sort_slice_of_strings env) keeps good ua.spec.prime selected
              nodes chosen offered)

  validate-SetsGood :
      (ua : UpgradeAccelerator) (nodes : List Node)
      → ua.spec.selector.machine_config_pools ≡ []
      → Offers good nodes
      → Ensures I SetsGood (validate ua nodes)
  validate-SetsGood ua nodes no_pools offered =
      Ensures-bind _ (select ua nodes)
        (valid_selectors-none ua.spec.selector.machine_config_pools no_pools)
        λ selectors none_valid. select-SetsGood ua nodes selectors no_pools none_valid offered

  list_all-SetsGood :
      (ua : UpgradeAccelerator)
      → ua.spec.selector.machine_config_pools ≡ []
      → Ensures I SetsGood (list_all ua)
  list_all-SetsGood ua no_pools =
      Ensures-bind _ (validate ua)
        (Ensures-or_else _ _ (lists_nodes [])
          (fails (Offers good) Conditions.condition_reason_failure_get_nodes failed_types))
        λ nodes offered. validate-SetsGood ua nodes no_pools offered

  -- Without MachineConfigPools both lists hold good nodes only.
  pub determine_targeted_nodes-SetsGood : Ensures I SetsGood (determine_targeted_nodes env)
  unfolding determine_targeted_nodes
  determine_targeted_nodes-SetsGood =
      Ensures-bind _ list_all
        (Ensures-get {Post = λ ua. ua.spec.selector.machine_config_pools ≡ []}
          (λ s p. p.object.no_pools))
        list_all-SetsGood
