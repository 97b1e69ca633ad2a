-- ===== src/Reconcile/Plan/Ends.antt =====
-- internal/controller/upgradeaccelerator_controller.go: the Jobs that are listed and the end of a
-- reconciliation, where no call fails.
use mathlib.Core.List.{append-nil}
use openshift_upgrade_accele.Prelude.{
  String, ◌≡◌, refl, sym, ap, ◌∙◌, true, false, List, [], ◌∷◌, ◌++◌, arith, Bool-cases, ◌⊎◌, inl,
  inr,
}
use openshift_upgrade_accele.Api.{UpgradeAccelerator}
use openshift_upgrade_accele.Cluster.{Env, Job}
use openshift_upgrade_accele.Exec.{ok, State, done}
use openshift_upgrade_accele.Conditions.{
  append_condition, condition_type_running, condition_status_false,
  condition_reason_running_reconciliation_completed, condition_message_completed,
}
use openshift_upgrade_accele.Conditions.Frame.{core-append_condition}
use openshift_upgrade_accele.Schedule.{reset_warming, is_all_preheated}
use openshift_upgrade_accele.Reconcile.Reply.{update_nodes, save}
use openshift_upgrade_accele.Reconcile.Run.{settle, job_phase, completion_phase}
use openshift_upgrade_accele.Reconcile.Settled.{scan_jobs-settle_jobs}
use openshift_upgrade_accele.Reconcile.Unbatched.Visits.{JobServer}
use openshift_upgrade_accele.Versions.{OpenShiftClusterVersionState}
use openshift_upgrade_accele.Reconcile.Plan.{
  lists_of, after_jobs, save-done, scan_jobs-done, update-done,
}

List-cases :
    (xs : List String) → (xs ≡ []) ⊎ ((x : String) × (rest : List String) × (xs ≡ x ∷ rest))
List-cases [] = inl refl
List-cases (x ∷ xs) = inr (x, xs, refl)

module _ {W : Type 0} (env : Env W) (server : JobServer env) where
  settle_idle : (s : State W) → s.ua.status.nodes_warming ≡ [] → settle env [] s ≡ (done tt, s)
  unfolding settle
  settle_idle s e = ground (arith, e)

  abbrev reset_state : State W → State W
  reset_state s = record s { ua = update_nodes reset_warming s.ua }

  settle_reset :
      (s : State W) (x : String) (xs : List String)
      → s.ua.status.nodes_warming ≡ x ∷ xs
      → settle env [] s ≡ save env (reset_state s)
  unfolding settle
  settle_reset s x xs e = ground (arith, e)

  pub settle-done :
      (jobs : List Job) (s : State W)
      → ((settle env jobs s).0 ≡ done tt)
        × (lists_of (settle env jobs s).1.ua.status ≡ lists_of (after_jobs jobs s.ua.status))
  unfolding settle reset_warming
  settle-done [] s = elim (List-cases s.ua.status.nodes_warming) [
    | inl e ↦
        let idle = settle_idle s e in
        let status = s.ua.status in
        let waits : status.nodes_waiting ≡ status.nodes_waiting ++ status.nodes_warming =
          sym (append-nil status.nodes_waiting)
          ∙ ap (λ (names : List String). status.nodes_waiting ++ names) (sym e) in
        (
          ap (λ (r : _). r.0) idle,
          ap (λ (r : _). lists_of r.1.ua.status) idle ∙ λ i. record {
            waiting = waits i;
            warming = e i;
            preheated = status.nodes_preheated;
          },
        )
    | inr (x, xs, e) ↦
        let reset = settle_reset s x xs e in
        (
          ap (λ (r : _). r.0) reset ∙ (save-done env server (reset_state s)).0,
          ap (λ (r : _). lists_of r.1.ua.status) reset
              ∙ ap (λ (ua : UpgradeAccelerator). lists_of ua.status)
                  (save-done env server (reset_state s)).1,
        )
  ]
  settle-done (job ∷ jobs) s = (
    scan_jobs-done env server (job ∷ jobs) s,
    ap (λ (ua : UpgradeAccelerator). lists_of ua.status)
        (scan_jobs-settle_jobs env (job ∷ jobs) s (scan_jobs-done env server (job ∷ jobs) s)),
  )

  pub job_phase-settle :
      (namespace : String) (v : OpenShiftClusterVersionState) (s : State W) (jobs : List Job)
      → env.list_jobs namespace (("pull-job/release", v.desired_version) ∷ []) s.world
        ≡ (ok jobs, s.world)
      → job_phase env namespace v s ≡ settle env jobs s
  unfolding job_phase
  job_phase-settle namespace v s jobs e = ground (arith, e)

  pub append-done :
      (type_name status reason message : String) (s : State W)
      → (append_condition env type_name status reason message s).0 ≡ done tt
  unfolding append_condition
  append-done type_name status reason message s = update-done env server _

  -- The state after the Running condition is set.
  abbrev not_running : State W → State W
  not_running s =
      (append_condition env condition_type_running condition_status_false
        condition_reason_running_reconciliation_completed condition_message_completed s).1

  abbrev completed_state : State W → State W
  completed_state s = record s {
    ua =
        update_nodes (λ status. record status { last_completed_version = status.target_version })
          s.ua;
  }

  completion_phase-save :
      (s : State W)
      → is_all_preheated s.ua.status ≡ true
      → completion_phase env s ≡ save env (completed_state (not_running s))
  unfolding completion_phase
  completion_phase-save s e =
      let set =
        append-done condition_type_running condition_status_false
          condition_reason_running_reconciliation_completed condition_message_completed s in
      ground (arith, e, set)

  completion_phase_idle :
      (s : State W) → is_all_preheated s.ua.status ≡ false → completion_phase env s ≡ (done tt, s)
  unfolding completion_phase
  completion_phase_idle s e = ground (arith, e)

  pub completion_phase-done :
      (s : State W)
      → ((completion_phase env s).0 ≡ done tt)
        × (lists_of (completion_phase env s).1.ua.status ≡ lists_of s.ua.status)
  completion_phase-done s = elim (Bool-cases (is_all_preheated s.ua.status)) [
    | inl e ↦
        let ends = completion_phase-save s e in
        let saved = save-done env server (completed_state (not_running s)) in
        (
          ap (λ (r : _). r.0) ends ∙ saved.0,
          ap (λ (r : _). lists_of r.1.ua.status) ends
              ∙ ap (λ (ua : UpgradeAccelerator). lists_of ua.status) saved.1
              ∙ ap (λ (ua : UpgradeAccelerator). lists_of ua.status)
                  (core-append_condition env condition_type_running condition_status_false
                    condition_reason_running_reconciliation_completed condition_message_completed
                    s),
        )
    | inr e ↦
        let idle = completion_phase_idle s e in
        (ap (λ (r : _). r.0) idle, ap (λ (r : _). lists_of r.1.ua.status) idle)
  ]
