-- ===== src/Reconcile/Unbatched.antt =====
-- internal/controller/upgradeaccelerator_controller.go: what the loop over all the waiting nodes
-- does where no call fails.
pub mod Visits
pub mod Steps
pub mod Loop
use mathlib.Core.List.{append_assoc, append-nil}
use mathlib.Core.Path.{subst}
use Prim.Native.Nat.{◌-◌, ◌/◌}
use openshift_upgrade_accele.Prelude.{
  ℕ, zero, suc, ◌+◌, pos, String, ◌≡◌, refl, sym, ap, ◌∙◌, true, false, ◌||◌, List, [], ◌∷◌, ◌++◌,
  ◌==◌, contains, contains-append, length, length-append, get_elem?, some, drop, is_empty, Distinct,
  arith, eq_iff, eq_refl,
}
use openshift_upgrade_accele.Api.{UpgradeAccelerator}
use openshift_upgrade_accele.Cluster.{Env}
use openshift_upgrade_accele.Exec.{State, Outcome, done}
use openshift_upgrade_accele.Schedule.{overwrite, is_zero}
use openshift_upgrade_accele.Schedule.Cut.{without}
use openshift_upgrade_accele.Schedule.Alternate.{
  visited, passed_over, last, copies, get_elem?-append, without-append, overwrite-append,
  drop-length, Distinct-middle, length-passed_over,
}
use openshift_upgrade_accele.Reconcile.Reply.{Reply}
use openshift_upgrade_accele.Reconcile.Scheduling.{visit_next, visit_shared, visit_nodes}
use openshift_upgrade_accele.Reconcile.Visited.{has_job}
use openshift_upgrade_accele.Reconcile.Unbatched.Steps.{
  rescheduled, Progress, IsFresh, step-found, leave, AllFresh, later-AllFresh,
}
use openshift_upgrade_accele.Reconcile.Unbatched.Visits.{
  JobServer, moved, visited_state, visit-fresh, visit-found, has_job-visited,
}
use openshift_upgrade_accele.Reconcile.Unbatched.Loop.{Ends, loop_at}

module _ {W : Type 0} (env : Env W) (namespace : String) (server : JobServer env)
    (start : State W) where
  begin :
      (waiting : List String)
      → start.ua.status.nodes_waiting ≡ waiting
      → Progress env namespace server start start waiting []
  begin waiting e = record {
    ua = λ i. record (start.ua) {
      status = record (start.ua.status) {
        nodes_warming = sym (append-nil start.ua.status.nodes_warming) i;
        nodes_waiting = e i;
      };
    };
    jobs = λ y. refl;
  }

  none_wait :
      start.ua.status.nodes_waiting ≡ [] → visit_nodes env namespace start ≡ (done [], start)
  unfolding visit_nodes
  none_wait e =
      let empty : is_empty start.ua.status.nodes_waiting ≡ true = ap is_empty e in rw empty refl

  all_visited :
      is_empty start.ua.status.nodes_waiting ≡ false
      → start.ua.spec.parallelism ≡ pos 0
      → visit_nodes env namespace start
        ≡ visit_shared env namespace
            (length start.ua.status.nodes_waiting)
            0
            start.ua.status.nodes_waiting
            start
  unfolding visit_nodes
  all_visited e z =
      let unbatched : is_zero start.ua.spec.parallelism ≡ true = ap is_zero z in
      rw (e, unbatched) refl

  whole_at :
      (waiting : List String)
      → start.ua.status.nodes_waiting ≡ waiting
      → start.ua.spec.parallelism ≡ pos 0
      → Distinct waiting
      → ((y : String) → contains waiting y ≡ true → IsFresh env namespace start y)
      → Ends env namespace server start
          (visit_nodes env namespace start)
          (passed_over waiting)
          (visited waiting)
  whole_at [] e z d fresh =
      subst (λ r. Ends env namespace server start r [] []) (sym (none_wait e))
        (record { names = []; ended = refl; progress = begin [] e })
  whole_at (x ∷ names) e z d fresh =
      subst (λ r. Ends env namespace server start r (passed_over (x ∷ names)) (visited (x ∷ names)))
        (sym (
          all_visited (ap is_empty e) z
          ∙ ap (λ (w : List String). visit_shared env namespace (length w) 0 w start) e))
        (loop_at env namespace server start 0 x names (suc (length names)) 0 [] (x ∷ names) start []
          (begin (x ∷ names) e) (omega arith) refl (sym (append-nil (x ∷ names))) d
          (λ y there. (fresh y there, refl)))

  -- Let no call fail, `Parallelism` be 0, and the waiting nodes be distinct, not preheated and
  -- without a Job. The loop over them ends without an error; the nodes at the even positions and the
  -- last one leave the waiting list, warm and have their Job, while the others are passed over: they
  -- still wait, in their order, and have none. Of n waiting nodes those are (n - 1) / 2. Nothing else
  -- changes in the object.
  pub visit_nodes-alternate :
      start.ua.spec.parallelism ≡ pos 0
      → Distinct start.ua.status.nodes_waiting
      → ((y : String)
          → contains start.ua.status.nodes_waiting y ≡ true
          → IsFresh env namespace start y)
      → let waiting = start.ua.status.nodes_waiting in
        let r = visit_nodes env namespace start in
        ((names : List String) × (r.0 ≡ done names))
        × (r.1.ua ≡ rescheduled start (passed_over waiting) (visited waiting))
        × ((y : String)
            → has_job env namespace r.1 y
              ≡ (contains (visited waiting) y || has_job env namespace start y))
        × (length r.1.ua.status.nodes_waiting ≡ (length waiting - 1) / 2)
  visit_nodes-alternate z d fresh =
      let ends = whole_at start.ua.status.nodes_waiting refl z d fresh in
      (
        (ends.names, ends.ended),
        ends.progress.ua,
        ends.progress.jobs,
        ap (λ (ua : UpgradeAccelerator). length ua.status.nodes_waiting) ends.progress.ua
            ∙ length-passed_over start.ua.status.nodes_waiting,
      )
