-- ===== src/Reconcile/Stale.antt =====
-- internal/controller/upgradeaccelerator_controller.go: when the first checks end the reconciliation.
use openshift_upgrade_accele.Prelude.{
  String, ◌≡◌, refl, ap, ◌∙◌, true, false, Bool, List, [], ◌∷◌, length, arith,
}
use openshift_upgrade_accele.Api.{UpgradeAccelerator}
use openshift_upgrade_accele.Cluster.{Env, NamespacedName}
use openshift_upgrade_accele.Exec.{
  State, Outcome, done, fail, when, ignore, Exec, and_then, throw, ◌>>◌,
}
use openshift_upgrade_accele.Conditions.Frame.{
  core, core-append_condition, ignored_core, then-append_condition,
}
use openshift_upgrade_accele.Conditions.Laws.{
  get_condition_reason-append_condition, get_condition_status,
  get_condition_status-append_condition,
}
use openshift_upgrade_accele.Conditions.{
  set_condition_primer_completed, set_condition_completed, set_condition_not_running,
  condition_reason_running_reconciliation_completed, condition_message_completed,
  get_condition_reason,
}
use openshift_upgrade_accele.Schedule.{is_completed}
use openshift_upgrade_accele.Reconcile.Reply.{Reply, after, update_nodes}
use openshift_upgrade_accele.Reconcile.Checks.{primer_checks, initial_checks}

module _ {W : Type 0} (env : Env W) where
  maybe_completed :
      (b : Bool) (s : State W)
      → let r =
          when {E = Reply} b
            (ignore (set_condition_primer_completed env "All primer nodes are preheated"))
            s in
        (r.0 ≡ done tt) × (core r.1.ua ≡ core s.ua)
  maybe_completed true s = ignored_core env _ _ _ _ s
  maybe_completed false s = (refl, refl)

  -- The checks of the primer nodes end, and change no more than the conditions.
  primer_checks-core :
      (primers : List String) (s : State W)
      → ((primer_checks env primers s).0 ≡ done tt)
        × (core (primer_checks env primers s).1.ua ≡ core s.ua)
  unfolding primer_checks
  primer_checks-core [] s = ignored_core env _ _ _ _ s
  primer_checks-core (p ∷ ps) s = maybe_completed _ s

  -- The state in which the two conditions of a completed reconciliation are set.
  abbrev reported : State W → State W
  reported s =
      (set_condition_completed env condition_message_completed
        (set_condition_not_running env condition_reason_running_reconciliation_completed
          condition_message_completed s).1).1

  completed_at :
      (f : Unit {0} → Exec W Reply (Unit {0})) (s : State W)
      → let r =
          (do
            ignore (
                set_condition_not_running env condition_reason_running_reconciliation_completed
                  condition_message_completed)
            ignore (set_condition_completed env condition_message_completed)
            throw (after 60))
            s in
        and_then r.0 f r.1 ≡ (fail (after 60), reported s)
  completed_at f s =
      ap (λ (r : Outcome Reply (Unit {0}) × State W). and_then r.0 f r.1)
        (then-append_condition env _ _ _ _ _ s ∙ then-append_condition env _ _ _ _ _ _)

  -- The object without its conditions, and the two conditions that report the end.
  reported_lem :
      (s : State W)
      → (core (reported s).ua ≡ core s.ua)
        × (get_condition_status (reported s).ua "Running" ≡ "False")
        × (get_condition_reason (reported s).ua "Running" ≡ "ReconciliationCompleted")
        × (get_condition_status (reported s).ua "Completed" ≡ "True")
        × (get_condition_reason (reported s).ua "Completed" ≡ "ReconciliationCompleted")
  reported_lem s =
      let first =
        (set_condition_not_running env condition_reason_running_reconciliation_completed
          condition_message_completed s).1 in
      (
        core-append_condition env _ _ _ _ first ∙ core-append_condition env _ _ _ _ s,
        get_condition_status-append_condition env _ _ _ _ first _
            ∙ get_condition_status-append_condition env _ _ _ _ s _,
        get_condition_reason-append_condition env _ _ _ _ first _
            ∙ get_condition_reason-append_condition env _ _ _ _ s _,
        get_condition_status-append_condition env _ _ _ _ first _,
        get_condition_reason-append_condition env _ _ _ _ first _,
      )

  -- With as many targeted nodes as the status lists as preheated, and none that waits, the first
  -- checks end the reconciliation without an error, to be called again in 60 seconds: whichever
  -- nodes those are, whichever version they were preheated for, and also while nodes are still
  -- warming. Then the selected and the primer nodes are those of this reconciliation, `Running` is
  -- "False" and `Completed` is "True", both as `ReconciliationCompleted`, and all else of the object
  -- but the other conditions is what it was.
  pub initial_checks-completed :
      (req : NamespacedName) (t : String) (ts primers : List String) (s : State W)
      → length (t ∷ ts) ≡ length s.ua.status.nodes_preheated
      → s.ua.status.nodes_waiting ≡ []
      → let (o, ended) = initial_checks env req (t ∷ ts) primers s in
        (o ≡ fail (after 60))
        × (core ended.ua
            ≡ core (
                update_nodes
                  (λ status. record status { nodes_selected = t ∷ ts; primer_nodes = primers })
                  s.ua))
        × (get_condition_status ended.ua "Running" ≡ "False")
        × (get_condition_reason ended.ua "Running" ≡ "ReconciliationCompleted")
        × (get_condition_status ended.ua "Completed" ≡ "True")
        × (get_condition_reason ended.ua "Completed" ≡ "ReconciliationCompleted")
  unfolding initial_checks is_completed
  initial_checks-completed req t ts primers s same waiting =
      let selected : State W = record s {
        ua =
            update_nodes
              (λ status. record status { nodes_selected = t ∷ ts; primer_nodes = primers }) s.ua;
      } in
      let checked = primer_checks-core primers selected in
      let completed : is_completed (primer_checks env primers selected).1.ua.status ≡ true =
        ap (λ (ua : UpgradeAccelerator). is_completed ua.status) checked.1
        ∙ ground (arith, same, waiting) in
      let after_checks = reported_lem (primer_checks env primers selected).1 in
      rw (checked.0, completed, completed_at _ (primer_checks env primers selected).1)
        (
          refl,
          after_checks.0 ∙ checked.1,
          after_checks.1,
          after_checks.2,
          after_checks.3,
          after_checks.4,
        )
