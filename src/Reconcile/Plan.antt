-- ===== src/Reconcile/Plan.antt =====
-- internal/controller/upgradeaccelerator_controller.go: what the sections from the waiting list on
-- do to the lists of nodes where no call fails.
pub mod Ends
pub mod Next
pub mod Whole
use mathlib.Core.List.{append-nil}
use openshift_upgrade_accele.Prelude.{
  String, ◌≡◌, refl, sym, ap, ◌∙◌, Bool, true, false, ◌||◌, List, [], ◌∷◌, ◌++◌, contains, Distinct,
  pos, arith, Bool-cases, ◌⊎◌, inl, inr,
}
use openshift_upgrade_accele.Api.{UpgradeAccelerator, UpgradeAcceleratorStatus}
use openshift_upgrade_accele.Cluster.{Env, Job}
use openshift_upgrade_accele.Exec.{ok, State, done, when}
use openshift_upgrade_accele.Conditions.{
  status_update, append_condition, condition_type_running, condition_status_false,
  condition_reason_running_reconciliation_completed, condition_message_completed,
}
use openshift_upgrade_accele.Conditions.Frame.{core-append_condition}
use openshift_upgrade_accele.Schedule.{
  fill_waiting, settle_job, settle_jobs, reset_warming, is_all_preheated,
}
use openshift_upgrade_accele.Schedule.Waiting.{fill_waiting-unchanged}
use openshift_upgrade_accele.Schedule.Alternate.{visited, passed_over}
use openshift_upgrade_accele.Reconcile.Reply.{update_nodes, save}
use openshift_upgrade_accele.Reconcile.Checks.{waiting_phase}
use openshift_upgrade_accele.Reconcile.Run.{
  scan_job, scan_jobs, settle, job_phase, completion_phase,
}
use openshift_upgrade_accele.Reconcile.Settled.{scan_jobs-settle_jobs}
use openshift_upgrade_accele.Reconcile.Visited.{has_job, job_key}
use openshift_upgrade_accele.Reconcile.Unbatched.Visits.{JobServer}
use openshift_upgrade_accele.Versions.{OpenShiftClusterVersionState}

-- The lists through which a node goes.
pub record Lists : Type 0 where
  pub waiting : List String
  pub warming : List String
  pub preheated : List String

abbrev pub lists_of : UpgradeAcceleratorStatus → Lists
lists_of status = record {
  waiting = status.nodes_waiting;
  warming = status.nodes_warming;
  preheated = status.nodes_preheated;
}

-- The status after the list of the Jobs is seen.
abbrev pub after_jobs : List Job → UpgradeAcceleratorStatus → UpgradeAcceleratorStatus
after_jobs [] status = reset_warming status
after_jobs (job ∷ jobs) status = settle_jobs status (job ∷ jobs)

-- The object with the targeted nodes that are new among the waiting ones.
abbrev pub filled_state : {W : Type 0} → List String → State W → UpgradeAccelerator
filled_state targeted s =
    update_nodes
      (λ status. record status {
        nodes_waiting =
            (fill_waiting status.nodes_warming status.nodes_preheated status.nodes_waiting
              targeted).0;
      })
      s.ua

module _ {W : Type 0} (env : Env W) (server : JobServer env) where
  pub update-done : (s : State W) → (status_update env s).0 ≡ done tt
  unfolding status_update
  update-done s = ground (arith, server.updates s.ua s.world)

  pub save-done : (s : State W) → ((save env s).0 ≡ done tt) × ((save env s).1.ua ≡ s.ua)
  unfolding save status_update
  save-done s = (ground (arith, server.updates s.ua s.world), ground arith)

  save-has_job :
      (namespace : String) (s : State W) (y : String)
      → has_job env namespace (save env s).1 y ≡ has_job env namespace s y
  unfolding save status_update
  save-has_job namespace s y = ground (
    arith,
    server.updates s.ua s.world,
    server.updated s.ua (job_key env namespace s.ua y) s.world,
  )

  pub waiting_phase-done :
      (namespace : String) (targeted : List String) (s : State W)
      → ((waiting_phase env targeted s).0 ≡ done tt)
        × ((waiting_phase env targeted s).1.ua ≡ filled_state targeted s)
        × ((y : String)
            → has_job env namespace (waiting_phase env targeted s).1 y ≡ has_job env namespace s y)
  unfolding waiting_phase
  waiting_phase-done namespace targeted s =
      let status = s.ua.status in
      let filled =
        fill_waiting status.nodes_warming status.nodes_preheated status.nodes_waiting targeted in
      elim (Bool-cases filled.1) [
        | inl e ↦
            let after : State W = record s { ua = filled_state targeted s } in
            rw e ((save-done after).0, (save-done after).1, save-has_job namespace after)
        | inr e ↦
            let same =
              fill_waiting-unchanged status.nodes_warming status.nodes_preheated
                status.nodes_waiting targeted e in
            rw e (
              refl,
              ap
                  (λ (names : List String).
                    update_nodes (λ status. record status { nodes_waiting = names }) s.ua)
                  (sym same),
              λ y. refl,
            )
      ]

  when_saved : (b : Bool) (s : State W) → (when b (save env) s).0 ≡ done tt
  when_saved true s = (save-done s).0
  when_saved false s = refl

  scan_job-done : (job : Job) (s : State W) → (scan_job env job s).0 ≡ done tt
  unfolding scan_job
  scan_job-done job s = when_saved (settle_job s.ua.status job).1 _

  pub scan_jobs-done : (jobs : List Job) (s : State W) → (scan_jobs env jobs s).0 ≡ done tt
  unfolding scan_jobs
  scan_jobs-done [] s = refl
  scan_jobs-done (job ∷ jobs) s =
      ground (arith, scan_job-done job s, scan_jobs-done jobs (scan_job env job s).1)
