-- ===== src/Reconcile/Shared.antt =====
-- internal/controller/upgradeaccelerator_controller.go: that the loop over all the waiting nodes,
-- whose slice shares its array with the waiting list, does not panic.
use openshift_upgrade_accele.Prelude.{
  ℕ, zero, suc, ◌+◌, ◌≤◌, String, ◌≡◌, ◌≢◌, refl, true, List, contains, length, is_empty, drop,
  arith, Bool-cases, inl, inr,
}
use openshift_upgrade_accele.Cluster.{Env}
use openshift_upgrade_accele.Exec.{State, Outcome, done, fail, panic, and_then, Exec}
use openshift_upgrade_accele.Schedule.{overwrite, rounds, is_zero, take_batch}
use openshift_upgrade_accele.Reconcile.Reply.{Reply}
use openshift_upgrade_accele.Reconcile.Scheduling.{
  visit_next, visit_shared, visit_batch, visit_nodes,
}
use openshift_upgrade_accele.Schedule.Overwrite.{
  contains-drop-suc, contains-drop-overwrite, length-overwrite, get_at,
}
use openshift_upgrade_accele.Reconcile.Visited.{
  JobStore, is_covered, IsVisited, visit_next-IsVisited,
}

module _ {W : Type 0} (env : Env W) (namespace : String) (store : JobStore env) where
  -- Every name from the position on is covered, and the positions are in the array.
  record Ready (left passed : ℕ) (backing : List String) (s : State W) : Type 0 where
    covered :
        (y : String) → contains (drop passed backing) y ≡ true → is_covered env namespace s y ≡ true
    positions : length backing ≡ passed + left
    waiting : length s.ua.status.nodes_waiting ≤ length backing

  next-Ready :
      (left passed : ℕ) (backing : List String) (s : State W) {o : Outcome Reply (Unit {0})}
      (s' : State W)
      → Ready (suc left) passed backing s
      → IsVisited env namespace store s o s'
      → Ready left (suc passed) (overwrite s'.ua.status.nodes_waiting backing) s'
  unfolding overwrite
  next-Ready left passed backing s s' r v =
      let front = s'.ua.status.nodes_waiting in
      let same = length-overwrite front backing (omega (arith, v.shorter, r.waiting)) in
      record {
        covered = λ y h. ground (
          arith,
          contains-drop-overwrite (suc passed) front backing y h,
          contains-drop-suc passed backing y,
          r.covered y,
          v.covered y,
        );
        positions = omega (arith, same, r.positions);
        waiting = omega (arith, same, v.shorter, r.waiting);
      }

  rest_at :
      {s : State W} (o : Outcome Reply (Unit {0})) (s' : State W) (m : Exec W Reply (List String))
      → IsVisited env namespace store s o s'
      → (m s').0 ≢ panic
      → (and_then o (λ _. m) s').0 ≢ panic
  rest_at (done a) s' m v h = h
  rest_at (fail e) s' m v h = λ e'. cc
  rest_at panic s' m v h = absurd (v.no_panic refl)

  visit_shared-ne_panic :
      (left passed : ℕ) (backing : List String) (s : State W)
      → Ready left passed backing s
      → (visit_shared env namespace left passed backing s).0 ≢ panic
  unfolding visit_shared
  visit_shared-ne_panic zero passed backing s r = λ e. cc
  visit_shared-ne_panic (suc left) passed backing s r =
      let (node, e, there) = get_at passed backing left r.positions in
      let v = visit_next-IsVisited env namespace store node s (r.covered node there) in
      let s' = (visit_next env namespace node s).1 in
      rw e (
        rest_at (visit_next env namespace node s).0 s' _ v (
          visit_shared-ne_panic left (suc passed) (overwrite s'.ua.status.nodes_waiting backing) s'
            (next-Ready left passed backing s s' r v)))

  -- Where a Job that was created stays found, the loop over the waiting nodes does not panic if
  -- `Parallelism` counts no round, although the loop removes names from the array that it ranges
  -- over.
  pub visit_nodes-ne_panic :
      (s : State W) → rounds s.ua.spec.parallelism ≡ 0 → (visit_nodes env namespace s).0 ≢ panic
  unfolding visit_nodes visit_batch take_batch
  visit_nodes-ne_panic s unbatched = elim (Bool-cases (is_empty s.ua.status.nodes_waiting)) [
    | inl e ↦ rw e (λ h. cc)
    | inr e ↦ elim (Bool-cases (is_zero s.ua.spec.parallelism)) [
      | inl z ↦
          rw (e, z)
            (visit_shared-ne_panic (length s.ua.status.nodes_waiting) 0 s.ua.status.nodes_waiting s
              (record {
                covered = λ y h. ground (arith, h);
                positions = omega arith;
                waiting = omega arith;
              }))
      | inr z ↦ rw (e, z, unbatched) (λ h. cc)
    ]
  ]
