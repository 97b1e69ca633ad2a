-- ===== src/Reconcile/Scoped/Whole.antt =====
-- internal/controller/upgradeaccelerator_controller.go: which Jobs the loops and the sections create.
use openshift_upgrade_accele.Prelude.{
  ℕ, zero, suc, String, ◌≡◌, Bool, true, ◌||◌, some, List, [], ◌∷◌, contains, contains-append,
  arith, eq_iff, Bool-cases, Option-cases, inl, inr, is_empty, length, take, get_elem?, ltb,
}
use openshift_upgrade_accele.Api.{UpgradeAcceleratorSpec, UpgradeAcceleratorStatus}
use openshift_upgrade_accele.Cluster.{Env, Job, Labels}
use openshift_upgrade_accele.Exec.{State, Exec, Outcome, done, fail, panic, and_then, modify, call}
use openshift_upgrade_accele.Exec.Preserves.{
  Preserves, Preserves-bind, Preserves-when, Preserves-pure, Preserves-get, preserves_rules,
}
use openshift_upgrade_accele.Schedule.{
  is_zero, rounds, cut, unwait_primer, overwrite, fill_waiting, settle_job, reset_warming,
}
use openshift_upgrade_accele.Conditions.{append_condition}
use openshift_upgrade_accele.Schedule.Cut.{without, take_batch_lem}
use openshift_upgrade_accele.Schedule.Overwrite.{contains-drop-overwrite, contains-drop}
use openshift_upgrade_accele.Schedule.Settle.{warming-settle_job}
use openshift_upgrade_accele.Schedule.Waiting.{contains-fill_waiting}
use openshift_upgrade_accele.Reconcile.Reply.{Reply, update_nodes, save}
use openshift_upgrade_accele.Reconcile.Scheduling.{
  visit_primer, visit_primers, primer_phase, visit_next, visit_batch, visit_shared, visit_nodes,
  next_phase,
}
use openshift_upgrade_accele.Reconcile.Checks.{waiting_phase}
use openshift_upgrade_accele.Reconcile.Run.{
  scan_job, scan_jobs, settle, job_phase, completion_phase, schedule,
}
use openshift_upgrade_accele.Versions.{OpenShiftClusterVersionState}
use openshift_upgrade_accele.Reconcile.Tracked.{cut-KeepsOthers, unwait_primer-KeepsOthers}
use openshift_upgrade_accele.Reconcile.Scoped.{
  Within, IsScope, IsScoped, save-Preserves, append_condition-Preserves, list_jobs-Preserves,
  schedule_node-Preserves, start_warming-Preserves,
}

contains-take :
    (n : ℕ) (xs : List String) (y : String) → contains (take n xs) y ≡ true → contains xs y ≡ true
contains-take zero xs y h = cc
contains-take (suc n) [] y h = h
contains-take (suc n) (x ∷ xs) y h = ground (arith, contains-take n xs y)

contains-get_elem? :
    (xs : List String) (n : ℕ) {x : String} → get_elem? xs n ≡ some x → contains xs x ≡ true
contains-get_elem? [] n e = cc
contains-get_elem? (y ∷ xs) zero {x} e = ground (arith, eq_iff y x)
contains-get_elem? (y ∷ xs) (suc n) e = ground (arith, contains-get_elem? xs n e)

contains-of_without :
    (x : String) (xs : List String) (y : String)
    → contains (without x xs) y ≡ true
    → contains xs y ≡ true
contains-of_without x [] y h = h
contains-of_without x (z ∷ zs) y h = ground (arith, contains-of_without x zs y)

waiting-settle_job :
    (status : UpgradeAcceleratorStatus) (job : Job)
    → (settle_job status job).0.nodes_waiting ≡ status.nodes_waiting
unfolding settle_job
waiting-settle_job status job = ground arith

module _ {W : Type 0} (env : Env W) (namespace : String) (allowed : String → Bool)
    (K : UpgradeAcceleratorSpec → Type 0) (P : W → Type 0)
    (scope : IsScope env namespace allowed K P) where
  abbrev Stays : {A : Type 0} → Exec W Reply A → Type 0
  Stays m = Preserves (IsScoped allowed K P) m

  condition-Preserves :
      (type_name status reason message : String)
      → Preserves (IsScoped allowed K P) (append_condition env type_name status reason message)
  condition-Preserves = append_condition-Preserves env namespace allowed K P scope

  saves : Stays (save env)
  saves = save-Preserves env namespace allowed K P scope

  visit_primer-Preserves :
      (node : String) → allowed node ≡ true → Stays (visit_primer env namespace node)
  unfolding visit_primer
  visit_primer-Preserves node a =
      Preserves-bind _ _ (schedule_node-Preserves env namespace allowed K P scope node a) λ created.
        Preserves-bind _ _
          (Preserves-when created _ (
            start_warming-Preserves env namespace allowed K P scope
              (λ waiting. unwait_primer waiting node) node (unwait_primer-KeepsOthers node) a))
          λ _. Preserves-pure created

  visit_primers-Preserves :
      (scheduled still_running : Bool) (nodes : List String)
      → Within allowed nodes
      → Stays (visit_primers env namespace scheduled still_running nodes)
  unfolding visit_primers
  visit_primers-Preserves scheduled still_running [] h = search preserves_rules
  visit_primers-Preserves scheduled still_running (node ∷ nodes) h =
      Preserves-bind _ _ Preserves-get λ ua.
        Preserves-bind _ _ (visit_primer-Preserves node (h node (ground (arith, eq_iff node node))))
          λ created.
            visit_primers-Preserves (scheduled || created)
              (still_running || contains ua.status.nodes_warming node) nodes
              (λ y i. h y (ground (arith, i)))

  primer_phase-Preserves :
      (primers : List String) → Within allowed primers → Stays (primer_phase env namespace primers)
  unfolding primer_phase
  primer_phase-Preserves primers h =
      search (preserves_rules, visit_primers-Preserves, condition-Preserves) depth 16

  visit_next-Preserves :
      (node : String) → allowed node ≡ true → Stays (visit_next env namespace node)
  unfolding visit_next
  visit_next-Preserves node a =
      Preserves-bind _ _ (schedule_node-Preserves env namespace allowed K P scope node a) λ created.
        Preserves-when created _ (
          start_warming-Preserves env namespace allowed K P scope (λ waiting. cut waiting node) node
            (cut-KeepsOthers node) a)

  visit_batch-Preserves :
      (nodes : List String) → Within allowed nodes → Stays (visit_batch env namespace nodes)
  unfolding visit_batch
  visit_batch-Preserves [] h = search preserves_rules
  visit_batch-Preserves (node ∷ nodes) h =
      Preserves-bind _ _ (visit_next-Preserves node (h node (ground (arith, eq_iff node node))))
        λ _. visit_batch-Preserves nodes (λ y i. h y (ground (arith, i)))

  rest_at :
      (o : Outcome Reply (Unit {0})) (s : State W) (m : Exec W Reply (List String))
      → IsScoped allowed K P s
      → (IsScoped allowed K P s → IsScoped allowed K P (m s).1)
      → IsScoped allowed K P (and_then o (λ _. m) s).1
  rest_at (done a) s m p h = h p
  rest_at (fail e) s m p h = p
  rest_at panic s m p h = p

  visit_shared-IsScoped :
      (left passed : ℕ) (backing : List String) (s : State W)
      → Within allowed backing
      → IsScoped allowed K P s
      → IsScoped allowed K P (visit_shared env namespace left passed backing s).1
  unfolding visit_shared
  visit_shared-IsScoped zero passed backing s h p = p
  visit_shared-IsScoped (suc left) passed backing s h p =
      elim (Option-cases (get_elem? backing passed)) [
        | inl e ↦ rw e p
        | inr (node, e) ↦
            let a = h node (contains-get_elem? backing passed e) in
            let (o, s') = visit_next env namespace node s in
            rw e (
              rest_at o s' _ ((visit_next-Preserves node a).at s p) (λ q.
                visit_shared-IsScoped left (suc passed)
                  (overwrite s'.ua.status.nodes_waiting backing) s'
                  (λ y i. ground (
                    arith,
                    contains-drop-overwrite 0 s'.ua.status.nodes_waiting backing y i,
                    q.waiting y,
                    h y,
                  ))
                  q))
      ]

  visit_nodes-IsScoped :
      (s : State W) → IsScoped allowed K P s → IsScoped allowed K P (visit_nodes env namespace s).1
  unfolding visit_nodes
  visit_nodes-IsScoped s p =
      let waiting = s.ua.status.nodes_waiting in
      let n = rounds s.ua.spec.parallelism in
      elim (Bool-cases (is_empty waiting)) [
        | inl e ↦ rw e p
        | inr e ↦ elim (Bool-cases (is_zero s.ua.spec.parallelism)) [
          | inl z ↦ rw (e, z) (visit_shared-IsScoped (length waiting) 0 waiting s p.waiting p)
          | inr z ↦ elim (Bool-cases (ltb (length waiting) n)) [
            | inl short ↦ rw (e, z, take_batch_lem n waiting, short) p
            | inr long ↦
                rw (e, z, take_batch_lem n waiting, long)
                  ((Preserves-bind _ _
                      (visit_batch-Preserves (take n waiting)
                        (λ y h. p.waiting y (contains-take n waiting y h)))
                      λ _. Preserves-pure (take n waiting)).at
                    _
                    (record {
                      world = p.world;
                      spec = p.spec;
                      waiting = λ y h. p.waiting y (contains-drop n waiting y h);
                      warming = p.warming;
                    }))
          ]
        ]
      ]

  visit_nodes-Preserves : Stays (visit_nodes env namespace)
  visit_nodes-Preserves = record { at = visit_nodes-IsScoped }

  next_phase-Preserves : Stays (next_phase env namespace)
  unfolding next_phase
  next_phase-Preserves =
      search (preserves_rules, visit_nodes-Preserves, condition-Preserves) depth 16

  waiting_phase-Preserves :
      (targeted : List String) → Within allowed targeted → Stays (waiting_phase env targeted)
  unfolding waiting_phase
  waiting_phase-Preserves targeted h = record {
    at = λ s p.
        let status = s.ua.status in
        let filled =
          fill_waiting status.nodes_warming status.nodes_preheated status.nodes_waiting targeted in
        elim (Bool-cases filled.1) [
          | inl e ↦ rw e (
              saves.at _ (record {
                world = p.world;
                spec = p.spec;
                waiting = λ y i. ground (
                  arith,
                  contains-fill_waiting status.nodes_warming status.nodes_preheated
                      status.nodes_waiting targeted y,
                  i,
                  p.waiting y,
                  h y,
                );
                warming = p.warming;
              }))
          | inr e ↦ rw e p
        ];
  }

  scan_job-Preserves : (job : Job) → Stays (scan_job env job)
  unfolding scan_job
  scan_job-Preserves job = record {
    at = λ s p.
        let status = s.ua.status in
        (Preserves-when (settle_job status job).1 (save env) saves).at _ (record {
          world = p.world;
          spec = p.spec;
          waiting = rw (waiting-settle_job status job) p.waiting;
          warming = λ y h. ground (
            arith,
            warming-settle_job status job,
            h,
            p.warming y,
            contains-of_without job.node_name status.nodes_warming y,
          );
        });
  }

  scan_jobs-Preserves : (jobs : List Job) → Stays (scan_jobs env jobs)
  unfolding scan_jobs
  scan_jobs-Preserves [] = search preserves_rules
  scan_jobs-Preserves (job ∷ jobs) =
      Preserves-bind _ _ (scan_job-Preserves job) λ _. scan_jobs-Preserves jobs

  reset_warming-Preserves : Stays (modify (update_nodes reset_warming))
  unfolding reset_warming
  reset_warming-Preserves = record {
    at = λ s p. record {
      world = p.world;
      spec = p.spec;
      waiting = λ y h. ground (
        arith,
        h,
        contains-append s.ua.status.nodes_waiting s.ua.status.nodes_warming y,
        p.waiting y,
        p.warming y,
      );
      warming = λ y h. cc;
    };
  }

  settle-Preserves : (jobs : List Job) → Stays (settle env jobs)
  unfolding settle
  settle-Preserves [] = search (preserves_rules, saves, reset_warming-Preserves) depth 12
  settle-Preserves (job ∷ jobs) = scan_jobs-Preserves (job ∷ jobs)

  lists :
      (labels : Labels) → Preserves (IsScoped allowed K P) (call (env.list_jobs namespace labels))
  lists = list_jobs-Preserves env namespace allowed K P scope

  job_phase-Preserves : (v : OpenShiftClusterVersionState) → Stays (job_phase env namespace v)
  unfolding job_phase
  job_phase-Preserves v = search (preserves_rules, settle-Preserves, lists) depth 12

  completed-Preserves : Stays (
      modify
        (update_nodes (λ status. record status { last_completed_version = status.target_version })))
  completed-Preserves = record {
    at = λ s p. record { world = p.world; waiting = p.waiting; warming = p.warming; spec = p.spec };
  }

  completion_phase-Preserves : Stays (completion_phase env)
  unfolding completion_phase
  completion_phase-Preserves =
      search (preserves_rules, saves, condition-Preserves, completed-Preserves) depth 12

  schedule-Preserves :
      (v : OpenShiftClusterVersionState) (targeted primers : List String)
      → Within allowed targeted
      → Within allowed primers
      → Stays (schedule env namespace v targeted primers)
  unfolding schedule
  schedule-Preserves v targeted primers h k =
      search
        (
          preserves_rules, waiting_phase-Preserves, primer_phase-Preserves, next_phase-Preserves,
          job_phase-Preserves, completion_phase-Preserves,
        )
        depth 16

  -- From the waiting list on, `Reconcile` creates pull Jobs of its manifest for the targeted nodes,
  -- the primer nodes and those that waited or warmed, and otherwise only reads, lists Jobs and
  -- updates the status of objects in which no other node waits or warms: what all of these keep of
  -- the world is kept, no other node waits or warms afterwards, and the spec keeps what is known of
  -- it.
  pub schedule-IsScoped :
      (v : OpenShiftClusterVersionState) (targeted primers : List String) (s : State W)
      → Within allowed targeted
      → Within allowed primers
      → IsScoped allowed K P s
      → IsScoped allowed K P (schedule env namespace v targeted primers s).1
  schedule-IsScoped v targeted primers s h k = (schedule-Preserves v targeted primers h k).at s
