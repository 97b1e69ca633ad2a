-- ===== src/Reconcile/Plan/Whole.antt =====
-- internal/controller/upgradeaccelerator_controller.go: the sections from the waiting list on
-- together, where no call fails, nodes are not primed and `Parallelism` is 0.
use Prim.Native.String
use mathlib.Core.Path.{subst}
use openshift_upgrade_accele.Prelude.{
  String, ◌≡◌, sym, ap, ◌∙◌, Bool, true, ◌||◌, List, [], ◌∷◌, contains, Distinct, pos, arith,
}
use openshift_upgrade_accele.Api.{UpgradeAccelerator}
use openshift_upgrade_accele.Cluster.{Env, Job, NamespacedName}
use openshift_upgrade_accele.Exec.{ok, State, done}
use openshift_upgrade_accele.Conditions.{get_condition_reason}
use openshift_upgrade_accele.Schedule.Waiting.{fill_waiting-Distinct}
use openshift_upgrade_accele.Schedule.Alternate.{visited}
use openshift_upgrade_accele.Reconcile.Scheduling.{next_phase}
use openshift_upgrade_accele.Reconcile.Checks.{waiting_phase}
use openshift_upgrade_accele.Reconcile.Run.{job_phase, completion_phase, schedule}
use openshift_upgrade_accele.Reconcile.Visited.{has_job, job_key, is_found}
use openshift_upgrade_accele.Reconcile.Unbatched.Steps.{IsFresh}
use openshift_upgrade_accele.Reconcile.Unbatched.Visits.{JobServer}
use openshift_upgrade_accele.Reconcile.Plan.{lists_of, after_jobs, filled_state, waiting_phase-done}
use openshift_upgrade_accele.Reconcile.Plan.Ends.{
  settle-done, job_phase-settle, completion_phase-done,
}
use openshift_upgrade_accele.Versions.{hash_string, OpenShiftClusterVersionState}
use openshift_upgrade_accele.Reconcile.Plan.Next.{
  lists-after_jobs, is_primed, alternated, next_phase-done, primer_phase-none,
}

module _ {W : Type 0} (env : Env W) (namespace : String) (server : JobServer env) where
  -- The name of a pull Job, by the version that its hash is of.
  abbrev key_for : (release node : String) → NamespacedName
  key_for release node = record {
    namespace = namespace;
    name = String.◌++◌ node (String.◌++◌ "-ua-puller-" (hash_string env release));
  }

  -- The states after the waiting list is filled, and after the next nodes are visited.
  abbrev after_filling : List String → State W → State W
  after_filling targeted s = (waiting_phase env targeted s).1

  abbrev after_visits : List String → State W → State W
  after_visits targeted s = (next_phase env namespace (after_filling targeted s)).1

  schedule-completion :
      (v : OpenShiftClusterVersionState) (targeted : List String) (s : State W)
      → (waiting_phase env targeted s).0 ≡ done tt
      → (next_phase env namespace (after_filling targeted s)).0 ≡ done tt
      → (job_phase env namespace v (after_visits targeted s)).0 ≡ done tt
      → schedule env namespace v targeted [] s
        ≡ completion_phase env (job_phase env namespace v (after_visits targeted s)).1
  unfolding schedule
  schedule-completion v targeted s filled next jobs =
      ground (
        arith,
        filled,
        primer_phase-none env namespace server (after_filling targeted s),
        next,
        jobs,
      )

  -- The lists and the Jobs after the next nodes are visited.
  visits-done :
      (targeted : List String) (s : State W)
      → is_primed s.ua ≡ true
      → s.ua.spec.parallelism ≡ pos 0
      → Distinct s.ua.status.nodes_waiting
      → ((y : String)
          → contains (filled_state targeted s).status.nodes_waiting y ≡ true
          → IsFresh env namespace s y)
      → let filled = (filled_state targeted s).status in
        let s2 = after_visits targeted s in
        ((next_phase env namespace (after_filling targeted s)).0 ≡ done tt)
        × (lists_of s2.ua.status ≡ lists_of (alternated filled))
        × ((y : String)
            → is_found (env.get_job (job_key env namespace s.ua y) s2.world).0
              ≡ (contains (visited filled.nodes_waiting) y || has_job env namespace s y))
  unfolding get_condition_reason
  visits-done targeted s primed unbatched d fresh =
      let s1 = after_filling targeted s in
      let s2 = after_visits targeted s in
      let status = s.ua.status in
      let filled = (filled_state targeted s).status.nodes_waiting in
      let (ended, same, jobs) = waiting_phase-done env server namespace targeted s in
      let waits = ap (λ (ua : UpgradeAccelerator). ua.status.nodes_waiting) same in
      let distinct =
        fill_waiting-Distinct status.nodes_warming status.nodes_preheated status.nodes_waiting
          targeted d in
      let fresh' : (y : String)
          → contains s1.ua.status.nodes_waiting y ≡ true
          → IsFresh env namespace s1 y =
        λ y there.
          let f = fresh y (ap (λ (names : List String). contains names y) (sym waits) ∙ there) in
          (
            jobs y ∙ f.0,
            ap (λ (ua : UpgradeAccelerator). contains ua.status.nodes_preheated y) same ∙ f.1,
          ) in
      let (next, lists, version, found) =
        next_phase-done env namespace server s1 (ap is_primed same ∙ primed)
          (ap (λ (ua : UpgradeAccelerator). ua.spec.parallelism) same ∙ unbatched)
          (subst Distinct (sym waits) distinct) fresh' in
      let release =
        ap (λ (ua : UpgradeAccelerator). ua.status.desired_version) (sym same) ∙ sym version in
      (
        next,
        lists ∙ ap (λ (ua : UpgradeAccelerator). lists_of (alternated ua.status)) same,
        λ y.
            ap (λ (r : String). is_found (env.get_job (key_for r y) s2.world).0) release
            ∙ found y
            ∙ ap (λ (names : List String). contains (visited names) y || has_job env namespace s1 y)
                waits
            ∙ ap (λ (b : Bool). contains (visited filled) y || b) (jobs y),
      )

  -- Where no call fails, there are no primer nodes, priming was skipped or completed, `Parallelism`
  -- is 0, the waiting nodes are distinct, and those that wait once the targeted ones are added have
  -- no Job and are not preheated: all that follows the setup ends without an error or a panic. The
  -- nodes at the even positions of the filled waiting list and its last one start to warm, and
  -- exactly these get Jobs. Then the Jobs that the API server lists in the world so reached move the
  -- nodes on which one succeeded from the warming to the preheated ones, or put the warming nodes
  -- back if none is listed. The three lists are left so.
  pub schedule-plan :
      (v : OpenShiftClusterVersionState) (targeted : List String) (s : State W)
      (jobs_of : W → List Job)
      → is_primed s.ua ≡ true
      → s.ua.spec.parallelism ≡ pos 0
      → Distinct s.ua.status.nodes_waiting
      → ((y : String)
          → contains (filled_state targeted s).status.nodes_waiting y ≡ true
          → IsFresh env namespace s y)
      → ((w : W)
          → env.list_jobs namespace (("pull-job/release", v.desired_version) ∷ []) w
            ≡ (ok (jobs_of w), w))
      → let filled = (filled_state targeted s).status in
        let r = schedule env namespace v targeted [] s in
        (r.0 ≡ done tt)
        × (w : W) × ((y : String)
            → is_found (env.get_job (job_key env namespace s.ua y) w).0
              ≡ (contains (visited filled.nodes_waiting) y || has_job env namespace s y))
        × (lists_of r.1.ua.status ≡ lists_of (after_jobs (jobs_of w) (alternated filled)))
  schedule-plan v targeted s jobs_of primed unbatched d fresh listed =
      let s2 = after_visits targeted s in
      let (next, lists, found) = visits-done targeted s primed unbatched d fresh in
      let listing =
        job_phase-settle env server namespace v s2 (jobs_of s2.world) (listed s2.world) in
      let (settled, moved) = settle-done env server (jobs_of s2.world) s2 in
      let whole =
        schedule-completion v targeted s (waiting_phase-done env server namespace targeted s).0 next
          (ap (λ (r : _). r.0) listing ∙ settled) in
      let completion = completion_phase-done env server (job_phase env namespace v s2).1 in
      (
        ap (λ (r : _). r.0) whole ∙ completion.0,
        s2.world,
        found,
        ap (λ (r : _). lists_of r.1.ua.status) whole
            ∙ completion.1
            ∙ ap (λ (r : _). lists_of r.1.ua.status) listing
            ∙ moved
            ∙ lists-after_jobs (jobs_of s2.world) s2.ua.status
                (alternated (filled_state targeted s).status) lists,
      )
