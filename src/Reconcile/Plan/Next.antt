-- ===== src/Reconcile/Plan/Next.antt =====
-- internal/controller/upgradeaccelerator_controller.go: the next nodes and the lists, where no call
-- fails.
use Prim.Native.String
use openshift_upgrade_accele.Prelude.{
  String, ◌≡◌, ap, ◌∙◌, Bool, true, ◌||◌, List, [], ◌∷◌, ◌++◌, ◌==◌, contains, join_commas,
  Distinct, pos, arith,
}
use openshift_upgrade_accele.Api.{UpgradeAccelerator, UpgradeAcceleratorStatus}
use openshift_upgrade_accele.Cluster.{Env, Job}
use openshift_upgrade_accele.Exec.{State, done}
use openshift_upgrade_accele.Conditions.{
  status_update, append_condition, get_condition_reason, condition_type_primer,
  condition_type_running, condition_status_true, condition_reason_running_jobs_scheduled,
  condition_reason_primer_skipped, condition_reason_primer_completed,
}
use openshift_upgrade_accele.Conditions.Frame.{core-append_condition}
use openshift_upgrade_accele.Schedule.{settle_job, settle_jobs, reset_warming}
use openshift_upgrade_accele.Schedule.Alternate.{visited, passed_over}
use openshift_upgrade_accele.Reconcile.Scheduling.{primer_phase, next_phase, visit_nodes}
use openshift_upgrade_accele.Reconcile.Visited.{has_job, job_key}
use openshift_upgrade_accele.Reconcile.Unbatched.{visit_nodes-alternate}
use openshift_upgrade_accele.Reconcile.Unbatched.Steps.{IsFresh}
use openshift_upgrade_accele.Reconcile.Unbatched.Visits.{JobServer}
use openshift_upgrade_accele.Reconcile.Plan.{Lists, lists_of, after_jobs}
use openshift_upgrade_accele.Reconcile.Plan.Ends.{append-done}

lists-settle_job :
    (job : Job) (a b : UpgradeAcceleratorStatus)
    → lists_of a ≡ lists_of b
    → lists_of (settle_job a job).0 ≡ lists_of (settle_job b job).0
unfolding settle_job
lists-settle_job job a b e =
    let waiting : a.nodes_waiting ≡ b.nodes_waiting = ap (λ (l : Lists). l.waiting) e in
    let warming : a.nodes_warming ≡ b.nodes_warming = ap (λ (l : Lists). l.warming) e in
    let preheated : a.nodes_preheated ≡ b.nodes_preheated = ap (λ (l : Lists). l.preheated) e in
    ground (arith, waiting, warming, preheated)

-- What the Jobs do to the lists depends on nothing else in the status.
pub lists-after_jobs :
    (jobs : List Job) (a b : UpgradeAcceleratorStatus)
    → lists_of a ≡ lists_of b
    → lists_of (after_jobs jobs a) ≡ lists_of (after_jobs jobs b)
unfolding settle_jobs reset_warming
lists-after_jobs [] a b e =
    ap
      (λ (l : Lists). record {
        waiting = l.waiting ++ l.warming;
        warming = [];
        preheated = l.preheated;
      })
      e
lists-after_jobs (job ∷ []) a b e = lists-settle_job job a b e
lists-after_jobs (job ∷ next ∷ jobs) a b e =
    lists-after_jobs (next ∷ jobs) (settle_job a job).0 (settle_job b job).0
      (lists-settle_job job a b e)

abbrev pub is_primed : UpgradeAccelerator → Bool
is_primed ua =
    let reason = get_condition_reason ua condition_type_primer in
    reason == condition_reason_primer_skipped || reason == condition_reason_primer_completed

-- The lists with every other waiting node scheduled.
abbrev pub alternated : UpgradeAcceleratorStatus → UpgradeAcceleratorStatus
alternated status = record status {
  nodes_waiting = passed_over status.nodes_waiting;
  nodes_warming = status.nodes_warming ++ visited status.nodes_waiting;
}

module _ {W : Type 0} (env : Env W) (namespace : String) (server : JobServer env) where
  has_job-status_update :
      (s : State W) (y : String)
      → has_job env namespace (status_update env s).1 y ≡ has_job env namespace s y
  unfolding status_update
  has_job-status_update s y = ground (
    arith,
    server.updates s.ua s.world,
    server.updated s.ua (job_key env namespace s.ua y) s.world,
  )

  has_job-append_condition :
      (type_name status reason message : String) (s : State W) (y : String)
      → has_job env namespace (append_condition env type_name status reason message s).1 y
        ≡ has_job env namespace s y
  unfolding append_condition
  has_job-append_condition type_name status reason message s y = has_job-status_update _ y

  pub primer_phase-none : (s : State W) → primer_phase env namespace [] s ≡ (done tt, s)
  unfolding primer_phase
  primer_phase-none s = ground arith

  -- The state after the Running condition is set with the names of the next nodes.
  abbrev announced : List String → State W → State W
  announced names s =
      (append_condition env condition_type_running condition_status_true
        condition_reason_running_jobs_scheduled
        (String.◌++◌ "Following nodes currently warming: " (join_commas names)) s).1

  next_phase-announced :
      (s : State W) (names : List String)
      → is_primed s.ua ≡ true
      → (visit_nodes env namespace s).0 ≡ done names
      → next_phase env namespace s ≡ (done tt, announced names (visit_nodes env namespace s).1)
  unfolding next_phase
  next_phase-announced s names primed ended =
      let set =
        append-done env server condition_type_running condition_status_true
          condition_reason_running_jobs_scheduled
          (String.◌++◌ "Following nodes currently warming: " (join_commas names))
          (visit_nodes env namespace s).1 in
      ground (arith, primed, ended, set)

  pub next_phase-done :
      (s : State W)
      → is_primed s.ua ≡ true
      → s.ua.spec.parallelism ≡ pos 0
      → Distinct s.ua.status.nodes_waiting
      → ((y : String) → contains s.ua.status.nodes_waiting y ≡ true → IsFresh env namespace s y)
      → let s' = (next_phase env namespace s).1 in
        ((next_phase env namespace s).0 ≡ done tt)
        × (lists_of s'.ua.status ≡ lists_of (alternated s.ua.status))
        × (s'.ua.status.desired_version ≡ s.ua.status.desired_version)
        × ((y : String)
            → has_job env namespace s' y
              ≡ (contains (visited s.ua.status.nodes_waiting) y || has_job env namespace s y))
  next_phase-done s primed unbatched d fresh =
      let ((names, ended), same, jobs, count) =
        visit_nodes-alternate env namespace server s unbatched d fresh in
      let e = next_phase-announced s names primed ended in
      let t = (visit_nodes env namespace s).1 in
      let message = String.◌++◌ "Following nodes currently warming: " (join_commas names) in
      let kept =
        core-append_condition env condition_type_running condition_status_true
          condition_reason_running_jobs_scheduled message t in
      (
        ap (λ (r : _). r.0) e,
        ap (λ (r : _). lists_of r.1.ua.status) e
            ∙ ap (λ (ua : UpgradeAccelerator). lists_of ua.status) kept
            ∙ ap (λ (ua : UpgradeAccelerator). lists_of ua.status) same,
        ap (λ (r : _). r.1.ua.status.desired_version) e
            ∙ ap (λ (ua : UpgradeAccelerator). ua.status.desired_version) kept
            ∙ ap (λ (ua : UpgradeAccelerator). ua.status.desired_version) same,
        λ y.
            ap (λ (r : _). has_job env namespace r.1 y) e
            ∙ has_job-append_condition condition_type_running condition_status_true
                condition_reason_running_jobs_scheduled message t y
            ∙ jobs y,
      )
