-- ===== src/Reconcile/Unbatched/Visits.antt =====
-- internal/controller/upgradeaccelerator_controller.go: the visit of one waiting node where no call
-- fails.
use Prim.Native.String
use Prim.Native.String.{len}
use text.Mathlib.TextPositions.{len-append, slice-append_left}
use openshift_upgrade_accele.Prelude.{
  ℕ, String, ◌≡◌, sym, ap, ◌∙◌, Bool, true, false, ◌&&◌, ◌||◌, [], ◌∷◌, ◌++◌, ◌==◌, contains, arith,
  eq_iff, eq_refl,
}
use openshift_upgrade_accele.Api.{UpgradeAccelerator}
use openshift_upgrade_accele.Cluster.{Env, Job, NamespacedName}
use openshift_upgrade_accele.Exec.{Error, ok, err, State, done}
use openshift_upgrade_accele.Conditions.{status_update}
use openshift_upgrade_accele.Jobs.{create_pull_job, key_of, pull_job_manifest}
use openshift_upgrade_accele.Versions.{hash_string}
use openshift_upgrade_accele.Schedule.Cut.{without, cut-without}
use openshift_upgrade_accele.Reconcile.Reply.{save}
use openshift_upgrade_accele.Reconcile.Scheduling.{
  pull_job, schedule_node, start_warming, visit_next,
}
use openshift_upgrade_accele.Reconcile.Visited.{is_found, job_key, has_job}

abbrev pub same_key : NamespacedName → NamespacedName → Bool
same_key a b = a.name == b.name && a.namespace == b.namespace

-- An API server that answers every request: a read changes nothing, a Job that is not there is
-- reported as not found and can be created, exactly the created Job is then there beside the
-- others, and a status update succeeds and leaves the Jobs.
pub record JobServer {W : Type 0} (env : Env W) : Type 0 where
  pub reads : (key : NamespacedName) (w : W) → (env.get_job key w).1 ≡ w
  pub absent :
      (key : NamespacedName) (w : W)
      → is_found (env.get_job key w).0 ≡ false
      → (e : Error) × ((env.get_job key w).0 ≡ err e) × (e.not_found ≡ true)
  pub creates :
      (job : Job) (w : W)
      → is_found (env.get_job (key_of job) w).0 ≡ false
      → (env.create_job job w).0 ≡ ok tt
  pub created :
      (job : Job) (key : NamespacedName) (w : W)
      → is_found (env.get_job (key_of job) w).0 ≡ false
      → is_found (env.get_job key (env.create_job job w).1).0
        ≡ (same_key (key_of job) key || is_found (env.get_job key w).0)
  pub updates : (ua : UpgradeAccelerator) (w : W) → (env.update_status ua w).0 ≡ ok tt
  pub updated :
      (ua : UpgradeAccelerator) (key : NamespacedName) (w : W)
      → is_found (env.get_job key (env.update_status ua w).1).0 ≡ is_found (env.get_job key w).0

cancel_right : (a b t : String) → String.◌++◌ a t ≡ String.◌++◌ b t → a ≡ b
cancel_right a b t e =
    let same : len a ≡ len b = omega (arith, ap len e, len-append a t, len-append b t) in
    sym (slice-append_left a t)
    ∙ ap (λ (s : String). String.slice s 0 (len a)) e
    ∙ ap (λ (n : ℕ). String.slice (String.◌++◌ b t) 0 n) same
    ∙ slice-append_left b t

eq-append : (a b t : String) → String.◌++◌ a t == String.◌++◌ b t ≡ a == b
eq-append a b t =
    let same : a ≡ b → String.◌++◌ a t ≡ String.◌++◌ b t = ap (λ (s : String). String.◌++◌ s t) in
    ground (arith, eq_iff a b, eq_iff (String.◌++◌ a t) (String.◌++◌ b t), cancel_right a b t, same)

module _ {W : Type 0} (env : Env W) (namespace : String) (server : JobServer env) where
  -- The state after the Job was created.
  abbrev created_state : String → State W → State W
  created_state node s = record s {
    world =
        (env.create_job (pull_job_manifest env s.ua (pull_job env namespace s.ua node))
          (env.get_job (job_key env namespace s.ua node) s.world).1).1;
  }

  create-fresh :
      (node : String) (s : State W)
      → has_job env namespace s node ≡ false
      → create_pull_job env (pull_job env namespace s.ua node) s ≡ (done true, created_state node s)
  unfolding create_pull_job pull_job_manifest
  create-fresh node s h =
      let key = job_key env namespace s.ua node in
      let job = pull_job_manifest env s.ua (pull_job env namespace s.ua node) in
      let (e, found, missing) = server.absent key s.world h in
      let there : (env.create_job job (env.get_job key s.world).1).0 ≡ ok tt =
        server.creates job (env.get_job key s.world).1 (rw (server.reads key s.world) h) in
      ground (arith, found, missing, there)

  create-found :
      (node : String) (s : State W)
      → has_job env namespace s node ≡ true
      → create_pull_job env (pull_job env namespace s.ua node) s ≡ (done false, s)
  unfolding create_pull_job
  create-found node s h = ground (arith, server.reads (job_key env namespace s.ua node) s.world)

  schedule-fresh :
      (node : String) (s : State W)
      → has_job env namespace s node ≡ false
      → contains s.ua.status.nodes_preheated node ≡ false
      → schedule_node env namespace node s ≡ (done true, created_state node s)
  unfolding schedule_node
  schedule-fresh node s h cold = ground (arith, create-fresh node s h)

  schedule-found :
      (node : String) (s : State W)
      → has_job env namespace s node ≡ true
      → schedule_node env namespace node s ≡ (done false, s)
  unfolding schedule_node
  schedule-found node s h = ground (arith, create-found node s h)

  -- The object with the node moved from the waiting ones to the warming ones.
  abbrev pub moved : String → UpgradeAccelerator → UpgradeAccelerator
  moved node ua = record ua {
    status = record (ua.status) {
      nodes_warming = ua.status.nodes_warming ++ (node ∷ []);
      nodes_waiting = without node ua.status.nodes_waiting;
    };
  }

  abbrev pub visited_state : String → State W → State W
  visited_state node s = record {
    ua = moved node s.ua;
    world = (env.update_status (moved node s.ua) (created_state node s).world).1;
  }

  pub visit-fresh :
      (node : String) (s : State W)
      → has_job env namespace s node ≡ false
      → contains s.ua.status.nodes_preheated node ≡ false
      → contains s.ua.status.nodes_waiting node ≡ true
      → visit_next env namespace node s ≡ (done tt, visited_state node s)
  unfolding visit_next start_warming save status_update
  visit-fresh node s h cold waits = ground (
    arith,
    schedule-fresh node s h cold,
    cut-without s.ua.status.nodes_waiting node waits,
    server.updates (moved node s.ua) (created_state node s).world,
  )

  pub visit-found :
      (node : String) (s : State W)
      → has_job env namespace s node ≡ true
      → visit_next env namespace node s ≡ (done tt, s)
  unfolding visit_next
  visit-found node s h = ground (arith, schedule-found node s h)

  pub has_job-visited :
      (node y : String) (s : State W)
      → has_job env namespace s node ≡ false
      → has_job env namespace (visited_state node s) y ≡ (node == y || has_job env namespace s y)
  unfolding pull_job_manifest
  has_job-visited node y s h =
      let key = job_key env namespace s.ua node in
      let job = pull_job_manifest env s.ua (pull_job env namespace s.ua node) in
      let w = (env.get_job key s.world).1 in
      server.updated (moved node s.ua) (job_key env namespace s.ua y) (created_state node s).world
      ∙ server.created job (job_key env namespace s.ua y) w (rw (server.reads key s.world) h)
      ∙ ground (
        arith,
        server.reads key s.world,
        eq-append node y (String.◌++◌ "-ua-puller-" (hash_string env s.ua.status.desired_version)),
        eq_refl namespace,
      )
