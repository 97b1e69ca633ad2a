-- ===== src/Reconcile/Warrant/Scan.antt =====
-- internal/controller/upgradeaccelerator_controller.go: that the scan of the Jobs extends the
-- preheated nodes by nodes that are good, and keeps what is known of them.
use openshift_upgrade_accele.Prelude.{
  arith, if◌then◌else◌, String, ◌≡◌, sym, refl, Bool, true, not, List, [], ◌∷◌, ◌++◌, Bool-cases,
  inl, inr, contains, ◌&&◌, ltb,
}
use mathlib.Core.Path.{subst}
use openshift_upgrade_accele.Api.{UpgradeAcceleratorStatus}
use openshift_upgrade_accele.Cluster.{Env, Job}
use openshift_upgrade_accele.Exec.{
  Result, ok, err, State, Outcome, done, fail, Exec, modify, and_then,
}
use openshift_upgrade_accele.Exec.Preserves.{
  Preserves, preserves_rules, Preserves-bind, Preserves-when,
}
use openshift_upgrade_accele.Versions.{OpenShiftClusterVersionState}
use openshift_upgrade_accele.Schedule.{settle_job, reset_warming}
use openshift_upgrade_accele.Reconcile.Reply.{Reply, update_nodes, save, after_error}
use openshift_upgrade_accele.Conditions
use openshift_upgrade_accele.Reconcile.Run.{scan_job, scan_jobs, settle, job_phase}
use openshift_upgrade_accele.Reconcile.Warrant.{
  OfPreheated, IsGrowing, IsWarrant, IsJobWarrant, IsWarranted, Warrants, AllWarranted,
  alter-Preserves, append_condition-Preserves, save-Preserves,
}

module _ {W : Type 0} (env : Env W) (good : String → Bool) (P : W → Type 0)
    (R : List String → Type 0) (growing : IsGrowing good R)
    (warrant : IsWarrant env P (OfPreheated R)) (jobs : IsJobWarrant env good P) where
  abbrev Holds : {E A : Type 0} → Exec W E A → Type 0
  Holds m = Preserves (IsWarranted P (OfPreheated R)) m

  sets_condition :
      (type_name status reason message : String)
      → Holds (Conditions.append_condition env type_name status reason message)
  sets_condition = append_condition-Preserves env P (OfPreheated R) warrant

  saves : Holds (save env)
  saves = save-Preserves env P (OfPreheated R) warrant

  nodes_preheated-settle_job :
      (status : UpgradeAcceleratorStatus) (job : Job)
      → (settle_job status job).0.nodes_preheated ≡ (
          if ltb 0 job.succeeded && not (contains status.nodes_preheated job.node_name)
          then status.nodes_preheated ++ (job.node_name ∷ [])
          else status.nodes_preheated)
  unfolding settle_job
  nodes_preheated-settle_job status job = ground arith

  settled :
      (status : UpgradeAcceleratorStatus) (job : Job)
      → R status.nodes_preheated
      → (ltb 0 job.succeeded ≡ true → good job.node_name ≡ true)
      → R (settle_job status job).0.nodes_preheated
  settled status job q warranted =
      let names = status.nodes_preheated in
      let node = job.node_name in
      elim (Bool-cases (ltb 0 job.succeeded)) [
        | inl succeeded ↦ elim (Bool-cases (contains names node)) [
          | inl old ↦ rw (nodes_preheated-settle_job status job, succeeded, old) q
          | inr new ↦
              rw (nodes_preheated-settle_job status job, succeeded, new)
                (growing.extended names node q new (warranted succeeded))
        ]
        | inr running ↦ rw (nodes_preheated-settle_job status job, running) q
      ]

  scan_job-Preserves :
      (job : Job)
      → (ltb 0 job.succeeded ≡ true → good job.node_name ≡ true)
      → Holds (scan_job env job)
  unfolding scan_job
  scan_job-Preserves job warranted = record {
    at = λ s p.
        (Preserves-when (settle_job s.ua.status job).1 (save env) saves).at _
          (record { world = p.world; object = settled s.ua.status job p.object warranted });
  }

  scan_jobs-Preserves : (jobs : List Job) → Warrants good jobs → Holds (scan_jobs env jobs)
  unfolding scan_jobs
  scan_jobs-Preserves [] warranted = search preserves_rules
  scan_jobs-Preserves (job ∷ jobs) (first, others) =
      Preserves-bind _ _ (scan_job-Preserves job first) λ _. scan_jobs-Preserves jobs others

  resets : Holds (modify {E = Reply} (update_nodes reset_warming))
  unfolding reset_warming
  resets = alter-Preserves R _ λ ua. refl

  settle-Preserves : (jobs : List Job) → Warrants good jobs → Holds (settle env jobs)
  unfolding settle
  settle-Preserves [] warranted = search (preserves_rules, resets, saves) depth 12
  settle-Preserves (job ∷ jobs) warranted = scan_jobs-Preserves (job ∷ jobs) warranted

  jobs_at :
      (r : Result (List Job)) (s : State W)
      → AllWarranted good r
      → IsWarranted P (OfPreheated R) s
      → IsWarranted P
          (OfPreheated R)
          (and_then
            (elim r as (λ _. Outcome Reply (List Job)) [
              | ok jobs ↦ done jobs
              | err e ↦ fail (after_error e)
            ])
            (settle env)
            s).1
  jobs_at (ok jobs) s warranted p = (settle-Preserves jobs warranted).at s p
  jobs_at (err e) s warranted p = p

  job_phase-state :
      (namespace : String) (v : OpenShiftClusterVersionState) (s : State W)
      → let (r, w) =
          env.list_jobs namespace (("pull-job/release", v.desired_version) ∷ []) s.world in
        (job_phase env namespace v s).1
        ≡ (and_then
            (elim r as (λ _. Outcome Reply (List Job)) [
              | ok jobs ↦ done jobs
              | err e ↦ fail (after_error e)
            ])
            (settle env)
            (record s { world = w })).1
  unfolding job_phase
  job_phase-state namespace v s = ground arith

  pub job_phase-Preserves :
      (namespace : String) (v : OpenShiftClusterVersionState) → Holds (job_phase env namespace v)
  job_phase-Preserves namespace v = record {
    at = λ s p.
        let labels = ("pull-job/release", v.desired_version) ∷ [] in
        let (r, w) = env.list_jobs namespace labels s.world in
        subst (IsWarranted P (OfPreheated R)) (sym (job_phase-state namespace v s)) (
          jobs_at r (record s { world = w }) (jobs.listed namespace labels s.world p.world)
            (record {
              world = jobs.by_list_jobs namespace labels s.world p.world;
              object = p.object;
            }));
  }
