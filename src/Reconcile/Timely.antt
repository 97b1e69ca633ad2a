-- ===== src/Reconcile/Timely.antt =====
-- internal/controller/upgradeaccelerator_controller.go: when the sections of `Reconcile`
-- have it called again.
use openshift_upgrade_accele.Prelude.{
  ℕ, String, ◌≡◌, refl, Bool, ◌||◌, contains, suc, zero, Option, List, [], ◌∷◌,
}
use openshift_upgrade_accele.Api.{UpgradeAccelerator}
use openshift_upgrade_accele.Cluster.{Env, NamespacedName}
use openshift_upgrade_accele.Exec.{Error, Result, ok, err, Exec, State, Outcome, done, fail}
use openshift_upgrade_accele.Exec.Rules.{
  Returns, Returns-bind, Returns-get, Returns-or_crash, returns_rules, Yields, yields_rules,
}
use openshift_upgrade_accele.Versions.{OpenShiftClusterVersionState}
use openshift_upgrade_accele.Schedule.{overwrite}
use openshift_upgrade_accele.Reconcile.Reply.{Reply, after_error, after, refetch, save}
use openshift_upgrade_accele.Reconcile.Checks.{
  infrastructure_phase, version_phase, primer_checks, initial_checks, setup_phase, waiting_phase,
}
use openshift_upgrade_accele.Reconcile.Scheduling.{
  schedule_node, start_warming, visit_primer, visit_primers, primer_phase, visit_next, visit_batch,
  visit_shared, visit_nodes, next_phase,
}

-- After an error the request is queued again in 30 seconds, and otherwise in 30 or 60.
pub data IsTimely (reply : Reply) : Type 0 where
  failed : (e : Error) → reply ≡ after_error e → IsTimely reply
  soon : reply ≡ after 30 → IsTimely reply
  later : reply ≡ after 60 → IsTimely reply

abbrev pub Timely : {W A : Type 0} → Exec W Reply A → Type 0
Timely m = Returns IsTimely m

pub after_error-IsTimely : (e : Error) → IsTimely (after_error e)
after_error-IsTimely e = failed e refl

pub after_30-IsTimely : IsTimely (after 30)
after_30-IsTimely = soon refl

pub after_60-IsTimely : IsTimely (after 60)
after_60-IsTimely = later refl

pub ruleset timely_rules =
    (returns_rules, after_error-IsTimely, after_30-IsTimely, after_60-IsTimely)

refetch_at :
    {W : Type 0} (r : Result UpgradeAccelerator × W) (s : State W) (e : Reply)
    → (elim r.0 as (λ _. Outcome Reply Unit × State W) [
      | ok ua ↦ (done tt, record { ua = ua; world = r.1 })
      | err x ↦ (fail (after_error x), record s { world = r.1 })
    ]).0
      ≡ fail e
    → IsTimely e
refetch_at (ok ua, w) s e h = cc
refetch_at (err x, w) s e h = failed x (cc)

module _ {W : Type 0} (env : Env W) where
  pub save-Timely : Timely (save env)
  unfolding save
  save-Timely = search timely_rules

  pub refetch-Timely : (req : NamespacedName) → Timely (refetch env req)
  unfolding refetch
  refetch-Timely req = record {
    at = λ s e h. refetch_at (env.get_upgrade_accelerator req s.world) s e h;
  }

  pub infrastructure_phase-Timely : (req : NamespacedName) → Timely (infrastructure_phase env req)
  unfolding infrastructure_phase
  infrastructure_phase-Timely req = search (timely_rules, refetch-Timely) depth 12

  pub version_phase-Timely : (req : NamespacedName) → Timely (version_phase env req)
  unfolding version_phase
  version_phase-Timely req = search (timely_rules, refetch-Timely) depth 12

  pub primer_checks-Timely : (primers : List String) → Timely (primer_checks env primers)
  unfolding primer_checks
  primer_checks-Timely [] = search timely_rules depth 12
  primer_checks-Timely (p ∷ ps) = search timely_rules depth 12

  pub initial_checks-Timely :
      (req : NamespacedName) (targeted primers : List String)
      → Timely (initial_checks env req targeted primers)
  unfolding initial_checks
  initial_checks-Timely req [] primers = search timely_rules depth 12
  initial_checks-Timely req (t ∷ ts) primers =
      search (timely_rules, primer_checks-Timely, save-Timely, refetch-Timely) depth 12

  pub setup_phase-Timely : (v : OpenShiftClusterVersionState) → Timely (setup_phase env v)
  unfolding setup_phase
  setup_phase-Timely v = search timely_rules depth 12

  pub waiting_phase-Timely : (targeted : List String) → Timely (waiting_phase env targeted)
  unfolding waiting_phase
  waiting_phase-Timely targeted = search (timely_rules, save-Timely) depth 12

module _ {W : Type 0} (env : Env W) (namespace : String) where
  pub schedule_node-Timely : (node : String) → Timely (schedule_node env namespace node)
  unfolding schedule_node
  schedule_node-Timely node = search timely_rules depth 12

  pub start_warming-Timely :
      (unwait : List String → Option (List String)) (node : String)
      → Timely (start_warming env namespace unwait node)
  unfolding start_warming
  start_warming-Timely unwait node = search (timely_rules, save-Timely) depth 12

  pub visit_primer-Timely : (node : String) → Timely (visit_primer env namespace node)
  unfolding visit_primer
  visit_primer-Timely node =
      search (timely_rules, schedule_node-Timely, start_warming-Timely) depth 12

  pub visit_primers-Timely :
      (scheduled still_running : Bool) (nodes : List String)
      → Timely (visit_primers env namespace scheduled still_running nodes)
  unfolding visit_primers
  visit_primers-Timely scheduled still_running [] = search timely_rules
  visit_primers-Timely scheduled still_running (node ∷ nodes) = Returns-bind _ _ Returns-get λ ua.
      Returns-bind _ _ (visit_primer-Timely node) λ created.
        visit_primers-Timely (scheduled || created)
          (still_running || contains ua.status.nodes_warming node) nodes

  pub primer_phase-Timely : (primers : List String) → Timely (primer_phase env namespace primers)
  unfolding primer_phase
  primer_phase-Timely primers = search (timely_rules, visit_primers-Timely) depth 16

  pub visit_next-Timely : (node : String) → Timely (visit_next env namespace node)
  unfolding visit_next
  visit_next-Timely node =
      search (timely_rules, schedule_node-Timely, start_warming-Timely) depth 12

  pub visit_batch-Timely : (nodes : List String) → Timely (visit_batch env namespace nodes)
  unfolding visit_batch
  visit_batch-Timely [] = search timely_rules
  visit_batch-Timely (node ∷ nodes) =
      Returns-bind _ _ (visit_next-Timely node) λ _. visit_batch-Timely nodes

  pub visit_shared-Timely :
      (left passed : ℕ) (backing : List String)
      → Timely (visit_shared env namespace left passed backing)
  unfolding visit_shared
  visit_shared-Timely zero passed backing = search timely_rules
  visit_shared-Timely (suc left) passed backing = Returns-or_crash _ _ λ node.
      Returns-bind _ _ (visit_next-Timely node) λ _.
        Returns-bind _ _ Returns-get
          λ ua. visit_shared-Timely left (suc passed) (overwrite ua.status.nodes_waiting backing)

  pub visit_nodes-Timely : Timely (visit_nodes env namespace)
  unfolding visit_nodes
  visit_nodes-Timely = search (timely_rules, visit_shared-Timely, visit_batch-Timely) depth 16

  pub next_phase-Timely : Timely (next_phase env namespace)
  unfolding next_phase
  next_phase-Timely = search (timely_rules, visit_nodes-Timely) depth 16
