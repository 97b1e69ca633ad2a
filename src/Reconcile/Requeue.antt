-- ===== src/Reconcile/Requeue.antt =====
-- internal/controller/upgradeaccelerator_controller.go: when `Reconcile` is called again.
use mathlib.Core.Path.{subst}
use mathlib.Core.Option.{some-injective}
use openshift_upgrade_accele.Prelude.{
  ℕ, suc, ap, if◌then◌else◌, String, ◌≡◌, refl, Bool, true, false, none, some, List, [], ◌∷◌,
}
use openshift_upgrade_accele.Api.{UpgradeAccelerator}
use openshift_upgrade_accele.Cluster.{Env, NamespacedName, Job}
use openshift_upgrade_accele.Exec.{Error, Result, ok, err, State, Outcome, done, fail, panic}
use openshift_upgrade_accele.Exec.Rules.{Returns-bind, Yields, yields_rules}
use openshift_upgrade_accele.Versions.{OpenShiftClusterVersionState}
use openshift_upgrade_accele.Reconcile.Timely.{
  IsTimely, failed, soon, later, Timely, timely_rules, after_60-IsTimely, after_30-IsTimely,
  save-Timely, infrastructure_phase-Timely, version_phase-Timely, initial_checks-Timely,
  setup_phase-Timely, waiting_phase-Timely, primer_phase-Timely, next_phase-Timely,
}
use openshift_upgrade_accele.Reconcile.Reply.{Reply}
use openshift_upgrade_accele.Reconcile.Checks.{reconcile_disabled}
use openshift_upgrade_accele.Reconcile.Run.{
  scan_job, scan_jobs, settle, job_phase, completion_phase, schedule, reconcile_enabled,
  reconcile_fetched, reconcile, after_fetch, reply_of,
}

module _ {W : Type 0} (env : Env W) where
  scan_job-Timely : (job : Job) → Timely (scan_job env job)
  unfolding scan_job
  scan_job-Timely job = search (timely_rules, save-Timely) depth 12

  scan_jobs-Timely : (jobs : List Job) → Timely (scan_jobs env jobs)
  unfolding scan_jobs
  scan_jobs-Timely [] = search timely_rules
  scan_jobs-Timely (job ∷ jobs) = Returns-bind _ _ (scan_job-Timely job) λ _. scan_jobs-Timely jobs

  settle-Timely : (jobs : List Job) → Timely (settle env jobs)
  unfolding settle
  settle-Timely [] = search (timely_rules, save-Timely) depth 12
  settle-Timely (job ∷ jobs) = scan_jobs-Timely (job ∷ jobs)

  job_phase-Timely :
      (namespace : String) (v : OpenShiftClusterVersionState) → Timely (job_phase env namespace v)
  unfolding job_phase
  job_phase-Timely namespace v = search (timely_rules, settle-Timely) depth 12

  completion_phase-Timely : Timely (completion_phase env)
  unfolding completion_phase
  completion_phase-Timely = search (timely_rules, save-Timely) depth 12

  schedule-Timely :
      (namespace : String) (v : OpenShiftClusterVersionState) (targeted primers : List String)
      → Timely (schedule env namespace v targeted primers)
  unfolding schedule
  schedule-Timely namespace v targeted primers =
      search
        (
          timely_rules, waiting_phase-Timely, primer_phase-Timely, next_phase-Timely,
          job_phase-Timely, completion_phase-Timely,
        )
        depth 24

  reconcile_enabled-Timely : (req : NamespacedName) → Timely (reconcile_enabled env req)
  unfolding reconcile_enabled
  reconcile_enabled-Timely req =
      search
        (
          timely_rules, infrastructure_phase-Timely, version_phase-Timely, initial_checks-Timely,
          setup_phase-Timely, schedule-Timely,
        )
        depth 24

  reconcile_enabled-Yields : (req : NamespacedName) → Yields IsTimely (reconcile_enabled env req)
  unfolding reconcile_enabled
  reconcile_enabled-Yields req = search (yields_rules, after_60-IsTimely) depth 24

  reconcile_disabled-Yields : Yields IsTimely (reconcile_disabled env)
  unfolding reconcile_disabled
  reconcile_disabled-Yields = search (yields_rules, after_30-IsTimely) depth 24

  reconcile_disabled-Timely : Timely (reconcile_disabled env)
  unfolding reconcile_disabled
  reconcile_disabled-Timely = search timely_rules depth 24

  reconcile_fetched-Timely : (req : NamespacedName) → Timely (reconcile_fetched env req)
  unfolding reconcile_fetched
  reconcile_fetched-Timely req =
      search (timely_rules, reconcile_disabled-Timely, reconcile_enabled-Timely) depth 12

  reconcile_fetched-Yields : (req : NamespacedName) → Yields IsTimely (reconcile_fetched env req)
  unfolding reconcile_fetched
  reconcile_fetched-Yields req =
      search (yields_rules, reconcile_disabled-Yields, reconcile_enabled-Yields) depth 12

reply_at :
    (o : Outcome Reply Reply) {reply : Reply}
    → ((e : Reply) → o ≡ fail e → IsTimely e)
    → ((a : Reply) → o ≡ done a → IsTimely a)
    → reply_of o ≡ some reply
    → IsTimely reply
reply_at (done a) {reply} early late e = late reply (ap done (some-injective a reply e))
reply_at (fail a) {reply} early late e = early reply (ap fail (some-injective a reply e))
reply_at panic early late e = cc

fetch_failed :
    (missing : Bool) (e : Error)
    → IsTimely (record { requeue_after = 30; error = if missing then none else some e })
fetch_failed true e = soon refl
fetch_failed false e = failed e refl

module _ {W : Type 0} (env : Env W) (req : NamespacedName) where
  fetched_at :
      (r : Result UpgradeAccelerator × W) {reply : Reply}
      → (after_fetch env req r).0 ≡ some reply
      → IsTimely reply
  fetched_at (ok ua, w) h =
      let s : State W = record { ua = ua; world = w } in
      reply_at (reconcile_fetched env req s).0 ((reconcile_fetched-Timely env req).at s)
        ((reconcile_fetched-Yields env req).at s) h
  fetched_at (err e, w) {reply} h =
      subst IsTimely (some-injective _ reply h) (fetch_failed e.not_found e)

  pub reconcile-IsTimely :
      (w : W) {reply : Reply} → (reconcile env req w).0 ≡ some reply → IsTimely reply
  unfolding reconcile
  reconcile-IsTimely w h = fetched_at (env.get_upgrade_accelerator req w) h

-- What a controller does with the request of a reconciliation that ended.
pub data Requeue : Type 0 where
  after_backoff : Requeue
  after_seconds : ℕ → Requeue
  forgotten : Requeue

-- What controller-runtime documents of it: an error is tried again after the back-off of the queue,
-- and then the result is ignored; without one, a time to wait is waited.
pub record IsQueue (requeue : Reply → Requeue) : Type 0 where
  pub on_error : (e : Error) (reply : Reply) → reply.error ≡ some e → requeue reply ≡ after_backoff
  pub on_time :
      (n : ℕ) (reply : Reply)
      → reply.error ≡ none
      → reply.requeue_after ≡ suc n
      → requeue reply ≡ after_seconds (suc n)

-- The error, if there is one, is tried again, and otherwise the request comes in 30 or 60 seconds.
pub data IsRequeued (requeue : Reply → Requeue) (reply : Reply) : Type 0 where
  retried :
      (e : Error) → reply.error ≡ some e → requeue reply ≡ after_backoff → IsRequeued requeue reply
  in_30 : reply.error ≡ none → requeue reply ≡ after_seconds 30 → IsRequeued requeue reply
  in_60 : reply.error ≡ none → requeue reply ≡ after_seconds 60 → IsRequeued requeue reply

IsTimely-IsRequeued :
    (requeue : Reply → Requeue)
    → IsQueue requeue
    → (reply : Reply) → IsTimely reply
    → IsRequeued requeue reply
IsTimely-IsRequeued requeue queue reply (failed e h) =
    let with_error = ap (λ (r : Reply). r.error) h in
    retried e with_error (queue.on_error e reply with_error)
IsTimely-IsRequeued requeue queue reply (soon h) =
    let without = ap (λ (r : Reply). r.error) h in
    in_30 without (queue.on_time 29 reply without (ap (λ (r : Reply). r.requeue_after) h))
IsTimely-IsRequeued requeue queue reply (later h) =
    let without = ap (λ (r : Reply). r.error) h in
    in_60 without (queue.on_time 59 reply without (ap (λ (r : Reply). r.requeue_after) h))

module _ {W : Type 0} (env : Env W) (requeue : Reply → Requeue) (queue : IsQueue requeue) where
  -- In a queue that keeps to what controller-runtime documents, no request is forgotten: after every
  -- reconciliation that does not panic, one that returned an error is tried again after the back-off
  -- of the queue, and one that returned none comes again in 30 or 60 seconds.
  pub reconcile-IsRequeued :
      (req : NamespacedName) (w : W) {reply : Reply}
      → (reconcile env req w).0 ≡ some reply
      → IsRequeued requeue reply
  reconcile-IsRequeued req w {reply} h =
      IsTimely-IsRequeued requeue queue reply (reconcile-IsTimely env req w h)
