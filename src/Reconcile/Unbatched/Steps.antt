-- ===== src/Reconcile/Unbatched/Steps.antt =====
-- internal/controller/upgradeaccelerator_controller.go: how far the loop over all the waiting nodes
-- has come after a visit.
use mathlib.Core.List.{append_assoc}
use mathlib.Core.Path.{subst}
use openshift_upgrade_accele.Prelude.{
  String, ◌≡◌, sym, ap, ◌∙◌, true, false, ◌||◌, List, [], ◌∷◌, ◌++◌, contains, contains-append,
  Distinct, arith, eq_iff, eq_refl,
}
use openshift_upgrade_accele.Api.{UpgradeAccelerator}
use openshift_upgrade_accele.Cluster.{Env}
use openshift_upgrade_accele.Exec.{State, done}
use openshift_upgrade_accele.Schedule.Cut.{without}
use openshift_upgrade_accele.Schedule.Alternate.{without-append, Distinct-middle}
use openshift_upgrade_accele.Reconcile.Scheduling.{visit_next}
use openshift_upgrade_accele.Reconcile.Visited.{has_job}
use openshift_upgrade_accele.Reconcile.Unbatched.Visits.{
  JobServer, moved, visited_state, visit-fresh, visit-found, has_job-visited,
}

-- The object of the start with other waiting nodes and with more warming ones.
abbrev pub rescheduled : {W : Type 0} → State W → (waiting added : List String) → UpgradeAccelerator
rescheduled start waiting added = record (start.ua) {
  status = record (start.ua.status) {
    nodes_warming = start.ua.status.nodes_warming ++ added;
    nodes_waiting = waiting;
  };
}

-- The name can be visited: it has no Job and is not preheated.
abbrev pub IsFresh : {W : Type 0} → Env W → (namespace : String) → State W → String → Type 0
IsFresh env namespace start x =
    (has_job env namespace start x ≡ false) × (contains start.ua.status.nodes_preheated x ≡ false)

module _ {W : Type 0} (env : Env W) (namespace : String) (server : JobServer env)
    (start : State W) where
  -- The names of `added` have left the waiting nodes with a Job each, and nothing else has changed.
  pub record Progress (s : State W) (waiting added : List String) : Type 0 where
    pub ua : s.ua ≡ rescheduled start waiting added
    pub jobs :
        (y : String)
        → has_job env namespace s y ≡ (contains added y || has_job env namespace start y)

  step-fresh :
      (x : String) (s : State W) (waiting added : List String)
      → Progress s waiting added
      → IsFresh env namespace start x
      → contains added x ≡ false
      → contains waiting x ≡ true
      → ((visit_next env namespace x s).0 ≡ done tt)
        × Progress (visit_next env namespace x s).1 (without x waiting) (added ++ (x ∷ []))
  step-fresh x s waiting added p (absent, cold) new waits =
      let warm = start.ua.status.nodes_warming in
      let no_job : has_job env namespace s x ≡ false = p.jobs x ∙ ground (arith, new, absent) in
      let cold' =
        ap (λ (ua : UpgradeAccelerator). contains ua.status.nodes_preheated x) p.ua ∙ cold in
      let waits' =
        ap (λ (ua : UpgradeAccelerator). contains ua.status.nodes_waiting x) p.ua ∙ waits in
      let e = visit-fresh env namespace server x s no_job cold' waits' in
      let after : Progress (visited_state env namespace server x s) (without x waiting)
          (added ++ (x ∷ [])) =
        record {
          ua =
              ap (moved env namespace server x) p.ua
              ∙ ap
                  (λ (names : List String). record (rescheduled start (without x waiting) []) {
                    status = record (start.ua.status) {
                      nodes_warming = names;
                      nodes_waiting = without x waiting;
                    };
                  })
                  (append_assoc warm added (x ∷ []));
          jobs = λ y.
              has_job-visited env namespace server x y s no_job
              ∙ ground (arith, p.jobs y, contains-append added (x ∷ []) y);
        } in
      (
        ap (λ (r : _). r.0) e,
        subst (λ r. Progress r.1 (without x waiting) (added ++ (x ∷ []))) (sym e) after,
      )

  pub step-found :
      (x : String) (s : State W) (waiting added : List String)
      → Progress s waiting added
      → contains added x ≡ true
      → ((visit_next env namespace x s).0 ≡ done tt)
        × Progress (visit_next env namespace x s).1 waiting added
  step-found x s waiting added p old =
      let job : has_job env namespace s x ≡ true = p.jobs x ∙ ground (arith, old) in
      let e = visit-found env namespace server x s job in
      (ap (λ (r : _). r.0) e, subst (λ r. Progress r.1 waiting added) (sym e) p)

  -- The visit of a name that waits.
  pub leave :
      (x : String) (names behind : List String) (s : State W) (added : List String)
      → Progress s (behind ++ (x ∷ names)) added
      → Distinct (behind ++ (x ∷ names))
      → IsFresh env namespace start x
      → contains added x ≡ false
      → ((visit_next env namespace x s).0 ≡ done tt)
        × Progress (visit_next env namespace x s).1 (behind ++ names) (added ++ (x ∷ []))
  leave x names behind s added p d fresh new =
      let step =
        step-fresh x s (behind ++ (x ∷ names)) added p fresh new
          (ground (arith, contains-append behind (x ∷ names) x, eq_refl x)) in
      (
        step.0,
        subst (λ w. Progress (visit_next env namespace x s).1 w (added ++ (x ∷ [])))
            (without-append behind x names (Distinct-middle behind x names d).0) step.1,
      )

  abbrev pub AllFresh : (names added : List String) → Type 0
  AllFresh names added =
      (y : String)
      → contains names y ≡ true
      → IsFresh env namespace start y × (contains added y ≡ false)

  pub later-AllFresh :
      (x : String) (names added : List String)
      → contains names x ≡ false
      → AllFresh (x ∷ names) added
      → AllFresh names (added ++ (x ∷ []))
  later-AllFresh x names added h all y there =
      let (fresh, new) = all y (ground (arith, there)) in
      (fresh, ground (arith, contains-append added (x ∷ []) y, eq_iff x y, new, h, there))
