-- ===== src/Reconcile/Warrant/Sections.antt =====
-- internal/controller: that the nodes' determination, the setup and the sections of `Reconcile`
-- that come before the waiting list keep what is known of the object.
use openshift_upgrade_accele.Prelude.{
  if◌then◌else◌, String, Bool, true, false, List, [], ◌∷◌, Option, none, some, Bool-cases, inl, inr,
}
use openshift_upgrade_accele.Api.{LabelSelector}
use openshift_upgrade_accele.Cluster.{
  Env, NamespacedName, Labels, ConfigMap, Namespace, ReleaseImageTags,
}
use openshift_upgrade_accele.Exec.{
  Error, Result, ok, err, State, Outcome, done, fail, Exec, call, pure, ◌>>◌,
}
use openshift_upgrade_accele.Exec.Preserves.{
  Preserves, preserves_rules, Preserves-bind, Preserves-pure, Preserves-or_else, Preserves-get,
}
use openshift_upgrade_accele.Conditions
use openshift_upgrade_accele.Nodes
use openshift_upgrade_accele.ConfigMaps
use openshift_upgrade_accele.Images.{run_oc_command, get_release_images}
use openshift_upgrade_accele.Versions.{OpenShiftClusterVersionState}
use openshift_upgrade_accele.ConfigMaps.{
  create_or_update, is_not_found, entries_of, deep_equal, create_release_config_map,
  create_puller_script_config_map,
}
use openshift_upgrade_accele.Setup.{create_operator_namespace, setup_resources}
use openshift_upgrade_accele.Nodes.{Selectors, add_new}
use openshift_upgrade_accele.Nodes.Targets.{
  merge_all, list_pools, valid_selectors, select_nodes, determine_targeted_nodes, fail_with,
}
use openshift_upgrade_accele.Reconcile.Reply.{refetch}
use openshift_upgrade_accele.Reconcile.Warrant.{View, IsWarrant, IsWarranted, call-Preserves}
use openshift_upgrade_accele.Reconcile.Warrant.Calls.{
  conditions, deletes, fetches, lists_nodes, lists_pools, runs_shell,
}

module _ {W : Type 0} (env : Env W) (P : W → Type 0) (Q : View → Type 0)
    (warrant : IsWarrant env P Q) where
  abbrev Holds : {E A : Type 0} → Exec W E A → Type 0
  Holds m = Preserves (IsWarranted P Q) m

  sets_condition :
      (type_name status reason message : String)
      → Holds (Conditions.append_condition env type_name status reason message)
  sets_condition = conditions env P Q warrant

  drops : (types : List String) → Holds (Conditions.delete_conditions env types)
  drops = deletes env P Q warrant

  gets : (req : NamespacedName) → Holds (refetch env req)
  gets = fetches env P Q warrant

  nodes_of : (labels : Labels) → Holds (call (env.list_nodes labels))
  nodes_of = lists_nodes env P Q warrant

  pools : Holds (call env.list_machine_config_pools)
  pools = lists_pools env P Q warrant

  one_of :
      (b c : Bool) (x y z : Outcome Error (Unit {0}) × State W)
      → IsWarranted P Q x.1
      → IsWarranted P Q y.1
      → IsWarranted P Q z.1
      → IsWarranted P Q (if b then x else if c then y else z).1
  one_of true c x y z p q r = p
  one_of false true x y z p q r = q
  one_of false false x y z p q r = r

  create_or_update-Preserves : (m : ConfigMap) → Holds (create_or_update env m)
  unfolding create_or_update
  create_or_update-Preserves m = record {
    at = λ s p.
        let key : NamespacedName = record { namespace = m.namespace; name = m.name } in
        let w = (env.get_config_map key s.world).1 in
        let read : IsWarranted P Q (record s { world = w }) = record {
          world = warrant.by_config_map key s.world p.world;
          object = p.object;
        } in
        let found = (env.get_config_map key s.world).0 in
        one_of (is_not_found found) (deep_equal (entries_of found) m.entries)
          (call (env.create_config_map m) (record s { world = w }))
          (done tt, record s { world = w })
          (call (env.update_config_map m) (record s { world = w }))
          ((call-Preserves (env.create_config_map m) (warrant.by_create_config_map m)).at _ read)
          read
          ((call-Preserves (env.update_config_map m) (warrant.by_update_config_map m)).at _ read);
  }

  create_release_config_map-Preserves :
      (total filtered : String) → Holds (create_release_config_map env total filtered)
  unfolding create_release_config_map
  create_release_config_map-Preserves total filtered =
      Preserves-bind _ _ Preserves-get λ ua. create_or_update-Preserves _

  create_puller_script_config_map-Preserves : Holds (create_puller_script_config_map env)
  unfolding create_puller_script_config_map
  create_puller_script_config_map-Preserves =
      Preserves-bind _ _ Preserves-get λ ua. create_or_update-Preserves _

  fails_with :
      {A : Type 0} (reason : String) (types : List String) (e : Error)
      → Holds (fail_with env {A = A} reason types e)
  fails_with reason types e = search (preserves_rules, sets_condition, drops) depth 12

  merged_at :
      (node_selector : LabelSelector) (r : Result LabelSelector)
      → Holds (elim r as (λ _. Exec W Error LabelSelector) [
        | ok merged ↦ pure merged
        | err e ↦ fail_with env Conditions.condition_reason_failure_setup Nodes.cleared e
      ])
  merged_at node_selector (ok merged) = Preserves-pure merged
  merged_at node_selector (err e) = fails_with _ _ e

  merge_all-Preserves :
      (node_selector : LabelSelector) (selectors : Selectors)
      → Holds (merge_all env node_selector selectors)
  unfolding merge_all
  merge_all-Preserves node_selector [] = Preserves-pure []
  merge_all-Preserves node_selector ((pool, selector) ∷ rest) =
      Preserves-bind _ _ (merged_at node_selector (env.merge selector node_selector)) λ merged.
        Preserves-bind _ _ (merge_all-Preserves node_selector rest) λ more. Preserves-pure _

  list_pools-Preserves :
      (targeted : List String) (selectors : Selectors) → Holds (list_pools env targeted selectors)
  unfolding list_pools
  list_pools-Preserves targeted [] = Preserves-pure targeted
  list_pools-Preserves targeted ((pool, selector) ∷ rest) =
      Preserves-bind _ _
        (Preserves-or_else _ _ (nodes_of selector.match_labels) λ e. fails_with _ _ e)
        λ nodes. list_pools-Preserves (add_new targeted nodes) rest

  valid_selectors-Preserves : (defined : List String) → Holds (valid_selectors env defined)
  unfolding valid_selectors
  valid_selectors-Preserves [] = Preserves-pure []
  valid_selectors-Preserves (d ∷ more) =
      search (preserves_rules, pools, sets_condition, drops) depth 16

  select_nodes-Preserves :
      (targeted : List String) (selector : Option LabelSelector) (selectors : Selectors)
      → Holds (select_nodes env targeted selector selectors)
  unfolding select_nodes
  select_nodes-Preserves targeted none selectors = Preserves-pure targeted
  select_nodes-Preserves targeted (some s) [] =
      search (preserves_rules, nodes_of, sets_condition, drops) depth 16
  select_nodes-Preserves targeted (some s) (p ∷ selectors) =
      Preserves-bind _ _ (merge_all-Preserves s (env.range_merge (p ∷ selectors)))
        λ merged. list_pools-Preserves targeted (env.range_list merged)

  pub determine_targeted_nodes-Preserves : Holds (determine_targeted_nodes env)
  unfolding determine_targeted_nodes
  determine_targeted_nodes-Preserves =
      search
        (
          preserves_rules, nodes_of, sets_condition, drops, valid_selectors-Preserves,
          select_nodes-Preserves,
        )
        depth 20

  target_made :
      (r : Result Namespace) (target : String) (s : State W)
      → IsWarranted P Q s
      → IsWarranted P Q
          (elim r as (λ _. Outcome Error String × State W) [
            | ok namespace ↦ (done target, s)
            | err e ↦
                if e.not_found
                then (do
                  call (
                      env.create_namespace
                        (record { name = target; labels = ("app", "upgrade-accelerator") ∷ [] }))
                  pure target)
                    s
                else (fail e, s)
          ]).1
  target_made (ok namespace) target s p = p
  target_made (err e) target s p = elim (Bool-cases e.not_found) [
    | inl absent ↦ rw absent (
        (Preserves-bind _ _
            (call-Preserves (env.create_namespace _) (warrant.by_create_namespace _))
            λ _. Preserves-pure target).at
          s p)
    | inr there ↦ rw there p
  ]

  create_operator_namespace-Preserves : Holds (create_operator_namespace env)
  unfolding create_operator_namespace
  create_operator_namespace-Preserves = record {
    at = λ s p.
        let target = ConfigMaps.target_namespace s.ua in
        let (found, w) = env.get_namespace target s.world in
        target_made found target (record s { world = w })
          (record { world = warrant.by_namespace target s.world p.world; object = p.object });
  }

  get_release_images-Preserves : (image : String) → Holds (get_release_images env image)
  unfolding get_release_images run_oc_command
  get_release_images-Preserves image =
      Preserves-bind _ _ (runs_shell env P Q warrant _)
        λ output. call-Preserves (λ w. (env.unmarshal_images output, w)) (λ w p. p)

  marshals : (images : List ReleaseImageTags) → Holds (call (λ w. (env.marshal_images images, w)))
  marshals images = call-Preserves _ (λ w p. p)

  pub setup_resources-Preserves : (v : OpenShiftClusterVersionState) → Holds (setup_resources env v)
  unfolding setup_resources
  setup_resources-Preserves v =
      search
        (
          preserves_rules, get_release_images-Preserves, sets_condition, drops, marshals,
          create_operator_namespace-Preserves, create_release_config_map-Preserves,
          create_puller_script_config_map-Preserves,
        )
        depth 30
