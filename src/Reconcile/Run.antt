-- ===== src/Reconcile/Run.antt =====
-- internal/controller/upgradeaccelerator_controller.go: the scan of the Jobs, the end of
-- `Reconcile`, and the whole of it.
use openshift_upgrade_accele.Prelude.{
  String, Bool, true, false, Option, none, some, List, [], ◌∷◌, if◌then◌else◌, is_lower_case_of,
}
use openshift_upgrade_accele.Cluster.{Env, NamespacedName, Job}
use openshift_upgrade_accele.Exec.{
  Result, ok, err, Outcome, done, fail, panic, Exec, ◌>>=◌, ◌>>◌, pure, throw, get, modify, call,
  when, or_else,
}
use openshift_upgrade_accele.Api.{UpgradeAccelerator}
use openshift_upgrade_accele.Conditions
use openshift_upgrade_accele.Nodes.Targets.{determine_targeted_nodes}
use openshift_upgrade_accele.Versions.{OpenShiftClusterVersionState}
use openshift_upgrade_accele.Schedule.{is_all_preheated, settle_job, reset_warming}
use openshift_upgrade_accele.Reconcile.Reply.{Reply, after_error, after, update_nodes, save}
use openshift_upgrade_accele.Reconcile.Checks.{
  reconcile_disabled, infrastructure_phase, version_phase, initial_checks, setup_phase,
  waiting_phase,
}
use openshift_upgrade_accele.Reconcile.Scheduling.{primer_phase, next_phase}

-- `none` is a panic.
abbrev pub reply_of : Outcome Reply Reply → Option Reply
reply_of (done reply) = some reply
reply_of (fail reply) = some reply
reply_of panic = none

module _ {W : Type 0} (env : Env W) where
  unfoldable pub scan_job : Job → Exec W Reply (Unit {0})
  unfolding settle_job
  scan_job job = do
    ua ← get
    let (status, changed) = settle_job ua.status job
    modify (update_nodes (λ _. status))
    when changed (save env)

  unfoldable pub scan_jobs : List Job → Exec W Reply (Unit {0})
  unfolding scan_job
  scan_jobs [] = pure tt
  scan_jobs (job ∷ jobs) = do scan_job job; scan_jobs jobs

  abbrev has_warming : UpgradeAccelerator → Bool
  has_warming ua = elim ua.status.nodes_warming [ [] ↦ false | _ ↦ true ]

  -- What the list of Jobs means for the status.
  unfoldable pub settle : List Job → Exec W Reply (Unit {0})
  unfolding scan_jobs reset_warming
  settle [] = do ua ← get; when (has_warming ua) (do modify (update_nodes reset_warming); save env)
  settle (job ∷ jobs) = scan_jobs (job ∷ jobs)

  unfoldable pub job_phase : String → OpenShiftClusterVersionState → Exec W Reply (Unit {0})
  unfolding settle
  job_phase namespace v = do
    jobs ←
        or_else (call (env.list_jobs namespace (("pull-job/release", v.desired_version) ∷ [])))
          (λ e. throw (after_error e))
    settle jobs

  unfoldable pub completion_phase : Exec W Reply (Unit {0})
  unfolding is_all_preheated
  completion_phase = do
    ua ← get
    when (is_all_preheated ua.status) (do
      or_else
          (Conditions.set_condition_not_running env
            Conditions.condition_reason_running_reconciliation_completed
            Conditions.condition_message_completed)
          (λ e. throw (after_error e))
      modify (
          update_nodes (λ status. record status { last_completed_version = status.target_version }))
      save env)

  -- The sections from the waiting list on.
  unfoldable pub schedule :
      (namespace : String) (v : OpenShiftClusterVersionState) (targeted primers : List String)
      → Exec W Reply (Unit {0})
  unfolding waiting_phase primer_phase next_phase job_phase completion_phase
  schedule namespace v targeted primers = do
    waiting_phase env targeted
    primer_phase env namespace primers
    next_phase env namespace
    job_phase namespace v
    completion_phase

  module _ (req : NamespacedName) where
    -- The branch of an enabled UpgradeAccelerator.
    unfoldable pub reconcile_enabled : Exec W Reply Reply
    reconcile_enabled = do
      infrastructure_phase env req
      v ← version_phase env req
      nodes ← or_else (determine_targeted_nodes env) (λ e. throw (after_error e))
      initial_checks env req nodes.targeted nodes.primer
      namespace ← setup_phase env v
      schedule namespace v nodes.targeted nodes.primer
      pure (after 60)

    unfoldable pub reconcile_fetched : Exec W Reply Reply
    unfolding reconcile_disabled
    reconcile_fetched = do
      ua ← get
      if is_lower_case_of "disabled" ua.spec.state
          then reconcile_disabled env
          else reconcile_enabled

    -- What follows the fetch: the reply, and the world that it leaves.
    abbrev pub after_fetch : Result UpgradeAccelerator × W → Option Reply × W
    after_fetch (ok ua, w) =
        let (o, s) = reconcile_fetched (record { ua = ua; world = w }) in (reply_of o, s.world)
    after_fetch (err e, w) =
        (some (record { requeue_after = 30; error = if e.not_found then none else some e }), w)

    unfoldable pub reconcile : W → Option Reply × W
    unfolding reconcile_fetched
    reconcile w = after_fetch (env.get_upgrade_accelerator req w)
