-- ===== src/Reconcile/Warrant/Loops.antt =====
-- internal/controller/upgradeaccelerator_controller.go: that the loops of `Reconcile` keep what is
-- known of the preheated nodes, from the waiting list on.
use openshift_upgrade_accele.Prelude.{
  ℕ, zero, suc, if◌then◌else◌, String, ◌≡◌, refl, Bool, true, false, List, [], ◌∷◌, ◌++◌, Option,
  Bool-cases, inl, inr, contains, ◌||◌,
}
use openshift_upgrade_accele.Cluster.{Env, NamespacedName, Job}
use openshift_upgrade_accele.Exec.{
  Error, Result, ok, err, State, Outcome, done, fail, Exec, call, modify, pure, ◌>>◌,
}
use openshift_upgrade_accele.Exec.Preserves.{
  Preserves, preserves_rules, Preserves-bind, Preserves-pure, Preserves-get, Preserves-or_crash,
}
use openshift_upgrade_accele.Jobs.{PullJob, create_pull_job, pull_job_manifest}
use openshift_upgrade_accele.Versions.{OpenShiftClusterVersionState}
use openshift_upgrade_accele.Schedule.{overwrite}
use openshift_upgrade_accele.Reconcile.Reply.{Reply, update_nodes, save}
use openshift_upgrade_accele.Conditions
use openshift_upgrade_accele.Reconcile.Scheduling.{
  schedule_node, start_warming, visit_primer, visit_primers, primer_phase, visit_next, visit_batch,
  visit_shared, visit_nodes, next_phase,
}
use openshift_upgrade_accele.Reconcile.Checks.{waiting_phase}
use openshift_upgrade_accele.Reconcile.Run.{job_phase, completion_phase, schedule}
use openshift_upgrade_accele.Reconcile.Warrant.{
  OfPreheated, IsGrowing, IsWarrant, IsJobWarrant, IsWarranted, call-Preserves, alter-Preserves,
  append_condition-Preserves, save-Preserves,
}
use openshift_upgrade_accele.Reconcile.Warrant.Scan.{job_phase-Preserves}

module _ {W : Type 0} (env : Env W) (good : String → Bool) (P : W → Type 0)
    (R : List String → Type 0) (growing : IsGrowing good R)
    (warrant : IsWarrant env P (OfPreheated R)) (jobs : IsJobWarrant env good P) where
  abbrev Holds : {E A : Type 0} → Exec W E A → Type 0
  Holds m = Preserves (IsWarranted P (OfPreheated R)) m

  sets_condition :
      (type_name status reason message : String)
      → Holds (Conditions.append_condition env type_name status reason message)
  sets_condition = append_condition-Preserves env P (OfPreheated R) warrant

  saves : Holds (save env)
  saves = save-Preserves env P (OfPreheated R) warrant

  job_made :
      (r : Result Job) (manifest : Job) (s : State W)
      → manifest.succeeded ≡ 0
      → IsWarranted P (OfPreheated R) s
      → IsWarranted P
          (OfPreheated R)
          (elim r as (λ _. Outcome Error Bool × State W) [
            | ok existing ↦ (done false, s)
            | err e ↦
                if e.not_found
                then (do call (env.create_job manifest); pure true) s
                else (fail e, s)
          ]).1
  job_made (ok existing) manifest s new p = p
  job_made (err e) manifest s new p = elim (Bool-cases e.not_found) [
    | inl absent ↦ rw absent (
        (Preserves-bind _ _
            (call-Preserves (env.create_job manifest) λ w. jobs.by_create_job manifest w new)
            λ _. Preserves-pure true).at
          s p)
    | inr there ↦ rw there p
  ]

  create_pull_job-Preserves : (job : PullJob) → Holds (create_pull_job env job)
  unfolding create_pull_job pull_job_manifest
  create_pull_job-Preserves job = record {
    at = λ s p.
        let key : NamespacedName = record { namespace = job.namespace; name = job.name } in
        let (found, w) = env.get_job key s.world in
        job_made found (pull_job_manifest env s.ua job) (record s { world = w }) refl
          (record { world = jobs.by_job key s.world p.world; object = p.object });
  }

  module _ (namespace : String) where
    schedule_node-Preserves : (node : String) → Holds (schedule_node env namespace node)
    unfolding schedule_node
    schedule_node-Preserves node = search (preserves_rules, create_pull_job-Preserves) depth 12

    starts :
        (node : String)
        → Holds (
            modify {E = Reply} (
              update_nodes
                (λ status. record status { nodes_warming = status.nodes_warming ++ (node ∷ []) })))
    starts node = alter-Preserves R _ λ ua. refl

    unwaits :
        (waiting : List String)
        → Holds (
            modify {E = Reply} (update_nodes (λ status. record status { nodes_waiting = waiting })))
    unwaits waiting = alter-Preserves R _ λ ua. refl

    start_warming-Preserves :
        (unwait : List String → Option (List String)) (node : String)
        → Holds (start_warming env namespace unwait node)
    unfolding start_warming
    start_warming-Preserves unwait node = search (preserves_rules, starts, unwaits, saves) depth 12

    visit_primer-Preserves : (node : String) → Holds (visit_primer env namespace node)
    unfolding visit_primer
    visit_primer-Preserves node =
        search (preserves_rules, schedule_node-Preserves, start_warming-Preserves) depth 12

    visit_primers-Preserves :
        (scheduled still_running : Bool) (nodes : List String)
        → Holds (visit_primers env namespace scheduled still_running nodes)
    unfolding visit_primers
    visit_primers-Preserves scheduled still_running [] = search preserves_rules
    visit_primers-Preserves scheduled still_running (node ∷ nodes) =
        Preserves-bind _ _ Preserves-get λ ua.
          Preserves-bind _ _ (visit_primer-Preserves node) λ created.
            visit_primers-Preserves (scheduled || created)
              (still_running || contains ua.status.nodes_warming node) nodes

    primer_phase-Preserves : (primers : List String) → Holds (primer_phase env namespace primers)
    unfolding primer_phase
    primer_phase-Preserves primers =
        search (preserves_rules, visit_primers-Preserves, sets_condition) depth 16

    visit_next-Preserves : (node : String) → Holds (visit_next env namespace node)
    unfolding visit_next
    visit_next-Preserves node =
        search (preserves_rules, schedule_node-Preserves, start_warming-Preserves) depth 12

    visit_batch-Preserves : (nodes : List String) → Holds (visit_batch env namespace nodes)
    unfolding visit_batch
    visit_batch-Preserves [] = search preserves_rules
    visit_batch-Preserves (node ∷ nodes) =
        Preserves-bind _ _ (visit_next-Preserves node) λ _. visit_batch-Preserves nodes

    visit_shared-Preserves :
        (left passed : ℕ) (backing : List String)
        → Holds (visit_shared env namespace left passed backing)
    unfolding visit_shared
    visit_shared-Preserves zero passed backing = search preserves_rules
    visit_shared-Preserves (suc left) passed backing = Preserves-or_crash _ _ λ node.
        Preserves-bind _ _ (visit_next-Preserves node) λ _.
          Preserves-bind _ _ Preserves-get λ ua.
            visit_shared-Preserves left (suc passed) (overwrite ua.status.nodes_waiting backing)

    takes :
        (rest : List String)
        → Holds
            (modify {E = Reply} (update_nodes (λ status. record status { nodes_waiting = rest })))
    takes rest = alter-Preserves R _ λ ua. refl

    visit_nodes-Preserves : Holds (visit_nodes env namespace)
    unfolding visit_nodes
    visit_nodes-Preserves =
        search (preserves_rules, visit_shared-Preserves, visit_batch-Preserves, takes) depth 16

    next_phase-Preserves : Holds (next_phase env namespace)
    unfolding next_phase
    next_phase-Preserves = search (preserves_rules, visit_nodes-Preserves, sets_condition) depth 16

  waits :
      (waiting : List String)
      → Holds
          (modify {E = Reply} (update_nodes (λ status. record status { nodes_waiting = waiting })))
  waits waiting = alter-Preserves R _ λ ua. refl

  waiting_phase-Preserves : (targeted : List String) → Holds (waiting_phase env targeted)
  unfolding waiting_phase
  waiting_phase-Preserves targeted = search (preserves_rules, waits, saves) depth 16

  scans :
      (namespace : String) (v : OpenShiftClusterVersionState) → Holds (job_phase env namespace v)
  scans = job_phase-Preserves env good P R growing warrant jobs

  completes : Holds (
      modify {E = Reply}
        (update_nodes (λ status. record status { last_completed_version = status.target_version })))
  completes = alter-Preserves R _ λ ua. refl

  completion_phase-Preserves : Holds (completion_phase env)
  unfolding completion_phase
  completion_phase-Preserves = search (preserves_rules, sets_condition, completes, saves) depth 14

  pub schedule-Preserves :
      (namespace : String) (v : OpenShiftClusterVersionState) (targeted primers : List String)
      → Holds (schedule env namespace v targeted primers)
  unfolding schedule
  schedule-Preserves namespace v targeted primers =
      search
        (
          preserves_rules, waiting_phase-Preserves, primer_phase-Preserves, next_phase-Preserves,
          scans, completion_phase-Preserves,
        )
        depth 16
