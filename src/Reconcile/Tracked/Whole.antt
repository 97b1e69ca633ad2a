-- ===== src/Reconcile/Tracked/Whole.antt =====
-- internal/controller/upgradeaccelerator_controller.go: no node is lost by the loops and the sections.
use openshift_upgrade_accele.Prelude.{
  ℕ, zero, suc, String, ◌≡◌, ap, Bool, true, ◌||◌, List, [], ◌∷◌, contains, contains-append, arith,
  Bool-cases, inl, inr, is_empty, length,
}
use openshift_upgrade_accele.Cluster.{Env, Job}
use openshift_upgrade_accele.Exec.{State, modify, ◌>>◌}
use openshift_upgrade_accele.Exec.Keeps.{
  Keeps, Keeps-bind, Keeps-when, Keeps-pure, Keeps-get, Keeps-modify, Keeps-or_crash, keeps_rules,
  then_at,
}
use openshift_upgrade_accele.Schedule.{
  is_zero, rounds, cut, unwait_primer, overwrite, fill_waiting, settle_job, reset_warming,
  take_batch,
}
use openshift_upgrade_accele.Schedule.Waiting.{contains-fill_waiting, fill_waiting-unchanged}
use openshift_upgrade_accele.Reconcile.Reply.{Reply, update_nodes, save}
use openshift_upgrade_accele.Reconcile.Scheduling.{
  visit_primer, visit_primers, primer_phase, visit_next, visit_batch, visit_shared, visit_nodes,
  next_phase,
}
use openshift_upgrade_accele.Reconcile.Checks.{waiting_phase}
use openshift_upgrade_accele.Reconcile.Run.{
  scan_job, scan_jobs, settle, job_phase, completion_phase, schedule,
}
use openshift_upgrade_accele.Versions.{OpenShiftClusterVersionState}
use openshift_upgrade_accele.Reconcile.Tracked.{
  tracked, IsTracked, cut-KeepsOthers, unwait_primer-KeepsOthers, tracked-settle_job, save-Keeps,
  append_condition-Keeps, schedule_node-Keeps, start_warming-Keeps,
}

module _ {W : Type 0} (env : Env W) (x : String) where
  module _ (namespace : String) where
    visit_primer-Keeps : (node : String) → Keeps (IsTracked x) (visit_primer env namespace node)
    unfolding visit_primer
    visit_primer-Keeps node = Keeps-bind _ _ (schedule_node-Keeps env x namespace node) λ created.
        Keeps-bind _ _
          (Keeps-when created _ (
            start_warming-Keeps env x namespace (λ waiting. unwait_primer waiting node) node
              (unwait_primer-KeepsOthers node)))
          λ _. Keeps-pure created

    visit_primers-Keeps :
        (scheduled still_running : Bool) (nodes : List String)
        → Keeps (IsTracked x) (visit_primers env namespace scheduled still_running nodes)
    unfolding visit_primers
    visit_primers-Keeps scheduled still_running [] = search keeps_rules
    visit_primers-Keeps scheduled still_running (node ∷ nodes) = Keeps-bind _ _ Keeps-get λ ua.
        Keeps-bind _ _ (visit_primer-Keeps node) λ created.
          visit_primers-Keeps (scheduled || created)
            (still_running || contains ua.status.nodes_warming node) nodes

    primer_phase-Keeps :
        (primers : List String) → Keeps (IsTracked x) (primer_phase env namespace primers)
    unfolding primer_phase
    primer_phase-Keeps primers =
        search (keeps_rules, visit_primers-Keeps, append_condition-Keeps env x) depth 16

    visit_next-Keeps : (node : String) → Keeps (IsTracked x) (visit_next env namespace node)
    unfolding visit_next
    visit_next-Keeps node = Keeps-bind _ _ (schedule_node-Keeps env x namespace node) λ created.
        Keeps-when created _ (
          start_warming-Keeps env x namespace (λ waiting. cut waiting node) node
            (cut-KeepsOthers node))

    visit_shared-Keeps :
        (left passed : ℕ) (backing : List String)
        → Keeps (IsTracked x) (visit_shared env namespace left passed backing)
    unfolding visit_shared
    visit_shared-Keeps zero passed backing = search keeps_rules
    visit_shared-Keeps (suc left) passed backing = Keeps-or_crash _ _ λ node.
        Keeps-bind _ _ (visit_next-Keeps node) λ _.
          Keeps-bind _ _ Keeps-get
            λ ua. visit_shared-Keeps left (suc passed) (overwrite ua.status.nodes_waiting backing)

    visit_nodes-Keeps : Keeps (IsTracked x) (visit_nodes env namespace)
    unfolding visit_nodes visit_batch take_batch
    visit_nodes-Keeps = record {
      at = λ s p. elim (Bool-cases (is_empty s.ua.status.nodes_waiting)) [
        | inl e ↦ rw e p
        | inr e ↦ elim (Bool-cases (is_zero s.ua.spec.parallelism)) [
          | inl z ↦
              rw (e, z)
                ((visit_shared-Keeps (length s.ua.status.nodes_waiting) 0
                    s.ua.status.nodes_waiting).at
                  s p)
          | inr z ↦ rw (e, z, p.unbatched) p
        ]
      ];
    }

    next_phase-Keeps : Keeps (IsTracked x) (next_phase env namespace)
    unfolding next_phase
    next_phase-Keeps =
        search (keeps_rules, visit_nodes-Keeps, append_condition-Keeps env x) depth 16

  -- After the waiting list is filled a targeted node is tracked, also if the status update fails.
  waiting_phase-IsTracked :
      (targeted : List String) (s : State W)
      → (tracked x s.ua || contains targeted x) ≡ true
      → rounds s.ua.spec.parallelism ≡ 0
      → IsTracked x (waiting_phase env targeted s).1.ua
  unfolding waiting_phase
  waiting_phase-IsTracked targeted s due unbatched =
      let status = s.ua.status in
      let filled =
        fill_waiting status.nodes_warming status.nodes_preheated status.nodes_waiting targeted in
      let contained =
        contains-fill_waiting status.nodes_warming status.nodes_preheated status.nodes_waiting
          targeted x in
      elim (Bool-cases filled.1) [
        | inl e ↦ rw e (
            (save-Keeps env x).at _
              (record { listed = ground (arith, due, contained); unbatched = unbatched }))
        | inr e ↦
            let same =
              ap (λ (names : List String). contains names x)
                (fill_waiting-unchanged status.nodes_warming status.nodes_preheated
                  status.nodes_waiting targeted e) in
            rw e (record { listed = ground (arith, due, contained, same); unbatched = unbatched })
      ]

  scan_job-Keeps : (job : Job) → Keeps (IsTracked x) (scan_job env job)
  unfolding scan_job
  scan_job-Keeps job = record {
    at = λ s p.
        (Keeps-when (settle_job s.ua.status job).1 (save env) (save-Keeps env x)).at _
          (record { listed = tracked-settle_job s.ua job x p.listed; unbatched = p.unbatched });
  }

  scan_jobs-Keeps : (jobs : List Job) → Keeps (IsTracked x) (scan_jobs env jobs)
  unfolding scan_jobs
  scan_jobs-Keeps [] = search keeps_rules
  scan_jobs-Keeps (job ∷ jobs) = Keeps-bind _ _ (scan_job-Keeps job) λ _. scan_jobs-Keeps jobs

  reset_warming-Keeps :
      Keeps {W = W} {E = Reply} (IsTracked x) (modify (update_nodes reset_warming))
  unfolding reset_warming
  reset_warming-Keeps = Keeps-modify _ λ ua p. record {
    listed =
        ground (arith, p.listed, contains-append ua.status.nodes_waiting ua.status.nodes_warming x);
    unbatched = p.unbatched;
  }

  settle-Keeps : (jobs : List Job) → Keeps (IsTracked x) (settle env jobs)
  unfolding settle
  settle-Keeps [] = search (keeps_rules, save-Keeps, reset_warming-Keeps) depth 12
  settle-Keeps (job ∷ jobs) = scan_jobs-Keeps (job ∷ jobs)

  job_phase-Keeps :
      (namespace : String) (v : OpenShiftClusterVersionState)
      → Keeps (IsTracked x) (job_phase env namespace v)
  unfolding job_phase
  job_phase-Keeps namespace v = search (keeps_rules, settle-Keeps) depth 12

  completed-Keeps : Keeps {W = W} {E = Reply} (IsTracked x) (
      modify
        (update_nodes (λ status. record status { last_completed_version = status.target_version })))
  completed-Keeps = Keeps-modify _ λ ua p. record { listed = p.listed; unbatched = p.unbatched }

  completion_phase-Keeps : Keeps (IsTracked x) (completion_phase env)
  unfolding completion_phase
  completion_phase-Keeps =
      search (keeps_rules, save-Keeps, append_condition-Keeps, completed-Keeps) depth 12

  after_waiting-Keeps :
      (namespace : String) (v : OpenShiftClusterVersionState) (primers : List String)
      → Keeps (IsTracked x) (do
        primer_phase env namespace primers
        next_phase env namespace
        job_phase env namespace v
        completion_phase env)
  after_waiting-Keeps namespace v primers =
      search
        (keeps_rules, primer_phase-Keeps, next_phase-Keeps, job_phase-Keeps, completion_phase-Keeps)
        depth 16

  -- Without a positive `Parallelism`, a node that is targeted, waits, warms or is preheated waits,
  -- warms or is preheated in the object in memory after all that follows the setup, however that
  -- ends: with an error or a panic too.
  pub schedule-IsTracked :
      (namespace : String) (v : OpenShiftClusterVersionState) (targeted primers : List String)
      (s : State W)
      → (tracked x s.ua || contains targeted x) ≡ true
      → rounds s.ua.spec.parallelism ≡ 0
      → IsTracked x (schedule env namespace v targeted primers s).1.ua
  unfolding schedule
  schedule-IsTracked namespace v targeted primers s due unbatched =
      then_at (waiting_phase env targeted s).0 _ (waiting_phase env targeted s).1
        (λ _. after_waiting-Keeps namespace v primers)
        (waiting_phase-IsTracked targeted s due unbatched)
