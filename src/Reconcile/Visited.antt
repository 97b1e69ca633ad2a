-- ===== src/Reconcile/Visited.antt =====
-- internal/controller/upgradeaccelerator_controller.go: what the visit of one waiting node leaves true.
use openshift_upgrade_accele.Prelude.{
  ◌≤◌, String, ◌≡◌, ◌≢◌, refl, ap, Bool, true, false, ◌||◌, Option, List, [], ◌∷◌, ◌++◌, contains,
  length, arith, eq_iff,
}
use openshift_upgrade_accele.Api.{UpgradeAccelerator}
use openshift_upgrade_accele.Cluster.{Env, Job, NamespacedName}
use openshift_upgrade_accele.Exec.{
  Result, ok, err, State, Outcome, done, fail, panic, and_then, when,
}
use openshift_upgrade_accele.Conditions.{status_update}
use openshift_upgrade_accele.Jobs.{create_pull_job, key_of, pull_job_manifest}
use openshift_upgrade_accele.Schedule.{cut}
use openshift_upgrade_accele.Schedule.Cut.{without, cut-without, contains-without_ne}
use openshift_upgrade_accele.Reconcile.Reply.{Reply, save}
use openshift_upgrade_accele.Reconcile.Panic.{ua-schedule_node}
use openshift_upgrade_accele.Reconcile.Scheduling.{
  pull_job, schedule_node, start_warming, visit_next,
}
use openshift_upgrade_accele.Schedule.Overwrite.{length-without-le}

abbrev pub is_found : Result Job → Bool
is_found (ok job) = true
is_found (err e) = false

-- What the client documents of Jobs: a read changes nothing, a Job that was created is found, and
-- one that is found is still found after another is created and after a status update.
pub record JobStore {W : Type 0} (env : Env W) : Type 0 where
  pub reads : (key : NamespacedName) (w : W) → (env.get_job key w).1 ≡ w
  pub created :
      (job : Job) (w : W)
      → (env.create_job job w).0 ≡ ok tt
      → is_found (env.get_job (key_of job) (env.create_job job w).1).0 ≡ true
  pub kept_by_create :
      (job : Job) (key : NamespacedName) (w : W)
      → is_found (env.get_job key w).0 ≡ true
      → is_found (env.get_job key (env.create_job job w).1).0 ≡ true
  pub kept_by_update :
      (ua : UpgradeAccelerator) (key : NamespacedName) (w : W)
      → is_found (env.get_job key w).0 ≡ true
      → is_found (env.get_job key (env.update_status ua w).1).0 ≡ true

module _ {W : Type 0} (env : Env W) (namespace : String) where
  abbrev pub job_key : UpgradeAccelerator → String → NamespacedName
  job_key ua node = record { namespace = namespace; name = (pull_job env namespace ua node).name }

  -- The pull Job of the node is there.
  abbrev pub has_job : State W → String → Bool
  has_job s node = is_found (env.get_job (job_key s.ua node) s.world).0

  -- The node waits, or its Job is there.
  abbrev pub is_covered : State W → String → Bool
  is_covered s node = contains s.ua.status.nodes_waiting node || has_job s node

  module _ (store : JobStore env) where
    create_at :
        (node : String) (s : State W)
        → ((create_pull_job env (pull_job env namespace s.ua node) s).0 ≢ panic)
          × ((create_pull_job env (pull_job env namespace s.ua node) s).0 ≡ done true
              → (has_job s node ≡ false)
                × (has_job (create_pull_job env (pull_job env namespace s.ua node) s).1 node
                    ≡ true))
    unfolding create_pull_job pull_job_manifest
    create_at node s =
        let key = job_key s.ua node in
        let job = pull_job_manifest env s.ua (pull_job env namespace s.ua node) in
        ground (arith, store.reads key s.world, store.created job (env.get_job key s.world).1)

    create-has_job :
        (node y : String) (s : State W)
        → has_job s y ≡ true
        → has_job (create_pull_job env (pull_job env namespace s.ua node) s).1 y ≡ true
    unfolding create_pull_job
    create-has_job node y s h =
        let key = job_key s.ua node in
        let job = pull_job_manifest env s.ua (pull_job env namespace s.ua node) in
        ground (
          arith,
          store.reads key s.world,
          store.kept_by_create job (job_key s.ua y) (env.get_job key s.world).1,
        )

    schedule_at :
        (node : String) (s : State W)
        → ((schedule_node env namespace node s).0 ≢ panic)
          × ((schedule_node env namespace node s).0 ≡ done true
              → (has_job s node ≡ false)
                × (has_job (schedule_node env namespace node s).1 node ≡ true))
    unfolding schedule_node
    schedule_at node s = ground (arith, create_at node s)

    schedule-has_job :
        (node y : String) (s : State W)
        → has_job s y ≡ true
        → has_job (schedule_node env namespace node s).1 y ≡ true
    unfolding schedule_node
    schedule-has_job node y s h = ground (arith, h, create-has_job node y s h)

    save-has_job : (y : String) (s : State W) → has_job s y ≡ true → has_job (save env s).1 y ≡ true
    unfolding save status_update
    save-has_job y s h = ground (arith, store.kept_by_update s.ua (job_key s.ua y) s.world)

    save_at : (s : State W) → ((save env s).0 ≢ panic) × ((save env s).1.ua ≡ s.ua)
    unfolding save status_update
    save_at s = (ground arith, ground arith)

    abbrev cut_of : String → List String → Option (List String)
    cut_of node waiting = cut waiting node

    start_at :
        (node : String) (s : State W)
        → contains s.ua.status.nodes_waiting node ≡ true
        → let r = start_warming env namespace (cut_of node) node s in
          (r.0 ≢ panic)
          × (r.1.ua.status.nodes_waiting ≡ without node s.ua.status.nodes_waiting)
          × ((y : String) → has_job s y ≡ true → has_job r.1 y ≡ true)
    unfolding start_warming
    start_at node s there =
        let waiting = s.ua.status.nodes_waiting in
        let started : State W = record s {
          ua = record (s.ua) {
            status = record (s.ua.status) {
              nodes_warming = s.ua.status.nodes_warming ++ (node ∷ []);
              nodes_waiting = without node waiting;
            };
          };
        } in
        rw (cut-without waiting node there) (
          (save_at started).0,
          ap (λ (ua : UpgradeAccelerator). ua.status.nodes_waiting) (save_at started).1,
          λ y h. save-has_job y started h,
        )

    -- What a visit of a node leaves true.
    pub record IsVisited (s : State W) (o : Outcome Reply (Unit {0})) (s' : State W) : Type 0 where
      pub no_panic : o ≢ panic
      pub covered : (y : String) → is_covered s y ≡ true → is_covered s' y ≡ true
      pub shorter : length s'.ua.status.nodes_waiting ≤ length s.ua.status.nodes_waiting

    same_waiting :
        (s s' : State W) → s'.ua ≡ s.ua → s'.ua.status.nodes_waiting ≡ s.ua.status.nodes_waiting
    same_waiting s s' = ap (λ (ua : UpgradeAccelerator). ua.status.nodes_waiting)

    idle :
        (s s' : State W) (o : Outcome Reply (Unit {0}))
        → s'.ua ≡ s.ua
        → ((y : String) → has_job s y ≡ true → has_job s' y ≡ true)
        → o ≢ panic
        → IsVisited s o s'
    idle s s' o same jobs quiet = record {
      no_panic = quiet;
      covered = λ y h. ground (arith, same_waiting s s' same, jobs y);
      shorter = rw (same_waiting s s' same) (omega arith);
    }

    started :
        (node : String) (s s' : State W)
        → s'.ua ≡ s.ua
        → ((y : String) → has_job s y ≡ true → has_job s' y ≡ true)
        → contains s.ua.status.nodes_waiting node ≡ true
        → has_job s' node ≡ true
        → let r = start_warming env namespace (cut_of node) node s' in IsVisited s r.0 r.1
    started node s s' same jobs there made =
        let waits = same_waiting s s' same in
        let there' : contains s'.ua.status.nodes_waiting node ≡ true = rw waits there in
        let (quiet, left, kept) = start_at node s' there' in
        record {
          no_panic = quiet;
          covered = λ y h. ground (
            arith,
            waits,
            left,
            jobs y,
            kept y,
            kept node made,
            eq_iff node y,
            contains-without_ne node s.ua.status.nodes_waiting y,
          );
          shorter = rw (left, waits) (length-without-le node s.ua.status.nodes_waiting);
        }

    visited_at :
        (node : String) (s : State W) (o : Outcome Reply Bool) (s' : State W)
        → is_covered s node ≡ true
        → s'.ua ≡ s.ua
        → ((y : String) → has_job s y ≡ true → has_job s' y ≡ true)
        → o ≢ panic
        → (o ≡ done true → (has_job s node ≡ false) × (has_job s' node ≡ true))
        → let r = and_then o (λ b. when b (start_warming env namespace (cut_of node) node)) s' in
          IsVisited s r.0 r.1
    visited_at node s (done true) s' h same jobs quiet made =
        let (fresh, there) = made refl in
        started node s s' same jobs (ground (arith, h, fresh)) there
    visited_at node s (done false) s' h same jobs quiet made = idle s s' _ same jobs (λ e. cc)
    visited_at node s (fail e) s' h same jobs quiet made = idle s s' _ same jobs (λ e. cc)
    visited_at node s panic s' h same jobs quiet made = absurd (quiet refl)

    pub visit_next-IsVisited :
        (node : String) (s : State W)
        → is_covered s node ≡ true
        → IsVisited s (visit_next env namespace node s).0 (visit_next env namespace node s).1
    unfolding visit_next
    visit_next-IsVisited node s h =
        let (quiet, made) = schedule_at node s in
        visited_at node s (schedule_node env namespace node s).0
          (schedule_node env namespace node s).1 h (ua-schedule_node env namespace node s)
          (λ y. schedule-has_job node y s) quiet made
