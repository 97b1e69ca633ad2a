-- ===== src/Reconcile/Unbatched/Loop.antt =====
-- internal/controller/upgradeaccelerator_controller.go: the loop over all the waiting nodes,
-- position by position.
use mathlib.Core.List.{append_assoc}
use mathlib.Core.Path.{subst}
use openshift_upgrade_accele.Prelude.{
  ℕ, zero, suc, ◌+◌, String, ◌≡◌, refl, sym, ap, ◌∙◌, true, false, List, [], ◌∷◌, ◌++◌, contains,
  contains-append, length, length-append, get_elem?, some, Distinct, arith, eq_refl,
}
use openshift_upgrade_accele.Api.{UpgradeAccelerator}
use openshift_upgrade_accele.Cluster.{Env}
use openshift_upgrade_accele.Exec.{State, Outcome, done}
use openshift_upgrade_accele.Schedule.{overwrite}
use openshift_upgrade_accele.Schedule.Alternate.{
  visited, passed_over, last, copies, get_elem?-append, overwrite-append, drop-length,
  Distinct-middle,
}
use openshift_upgrade_accele.Reconcile.Reply.{Reply}
use openshift_upgrade_accele.Reconcile.Scheduling.{visit_next, visit_shared}
use openshift_upgrade_accele.Reconcile.Unbatched.Steps.{
  Progress, IsFresh, step-found, leave, AllFresh, later-AllFresh,
}
use openshift_upgrade_accele.Reconcile.Unbatched.Visits.{JobServer}

module _ {W : Type 0} (env : Env W) (namespace : String) (server : JobServer env)
    (start : State W) where
  -- The loop ends without an error.
  pub record Ends (r : Outcome Reply (List String) × State W) (waiting added : List String)
      : Type 0 where
    pub names : List String
    pub ended : r.0 ≡ done names
    pub progress : Progress env namespace server start r.1 waiting added

  round :
      (left passed : ℕ) (backing : List String) (x : String) (s : State W)
      (waiting added : List String) {waiting' added' : List String}
      → get_elem? backing passed ≡ some x
      → ((visit_next env namespace x s).0 ≡ done tt)
        × Progress env namespace server start (visit_next env namespace x s).1 waiting added
      → ((s' : State W)
          → Progress env namespace server start s' waiting added
          → Ends
              (visit_shared env namespace left (suc passed) (overwrite waiting backing) s')
              waiting'
              added')
      → Ends (visit_shared env namespace (suc left) passed backing s) waiting' added'
  unfolding visit_shared
  round left passed backing x s waiting added at (e, p) rest =
      let s' = (visit_next env namespace x s).1 in
      let now : s'.ua.status.nodes_waiting ≡ waiting =
        ap (λ (ua : UpgradeAccelerator). ua.status.nodes_waiting) p.ua in
      let ends = rest s' p in
      record {
        names = ends.names;
        ended = rw (at, e, now) ends.ended;
        progress = rw (at, e, now) ends.progress;
      }

  -- At positions whose name has its Job the loop does nothing.
  rest_at :
      (k passed : ℕ) (x : String) (behind backing : List String) (s : State W)
      (waiting added : List String)
      → Progress env namespace server start s waiting added
      → contains added x ≡ true
      → backing ≡ behind ++ copies k x
      → length behind ≡ passed
      → overwrite waiting backing ≡ backing
      → Ends (visit_shared env namespace k passed backing s) waiting added
  unfolding visit_shared
  rest_at zero passed x behind backing s waiting added p old e l same = record {
    names = backing;
    ended = refl;
    progress = p;
  }
  rest_at (suc k) passed x behind backing s waiting added p old e l same =
      round k passed backing x s waiting added
        (rw (e, sym l) (get_elem?-append behind x (copies k x)))
        (step-found env namespace server start x s waiting added p old)
        (λ s' p'. rw same (
          rest_at k (suc passed) x (behind ++ (x ∷ [])) backing s' waiting added p' old
            (e ∙ sym (append_assoc behind (x ∷ []) (copies k x)))
            (length-append behind (x ∷ []) ∙ omega (arith, l)) same))

  Ends-same :
      {r : Outcome Reply (List String) × State W} {waiting waiting' added added' : List String}
      → waiting ≡ waiting'
      → added ≡ added'
      → Ends r waiting added
      → Ends r waiting' added'
  Ends-same e f ends = rw (sym e, sym f) ends

  -- The last name: behind its position the array holds copies of it.
  last_at :
      (k : ℕ) (x : String) (passed : ℕ) (front behind backing : List String) (s : State W)
      (added : List String)
      → Progress env namespace server start s (behind ++ (x ∷ [])) added
      → backing ≡ front ++ (x ∷ copies k x)
      → length front ≡ passed
      → overwrite (behind ++ []) backing ≡ backing
      → Distinct (behind ++ (x ∷ []))
      → IsFresh env namespace start x × (contains added x ≡ false)
      → Ends
          (visit_shared env namespace (suc k) passed backing s)
          (behind ++ [])
          (added ++ (x ∷ []))
  last_at k x passed front behind backing s added p e l kept d (fresh, new) =
      round k passed backing x s (behind ++ []) (added ++ (x ∷ []))
        (rw (e, sym l) (get_elem?-append front x (copies k x)))
        (leave env namespace server start x [] behind s added p d fresh new)
        (λ s' p'. rw kept (
          rest_at k (suc passed) x (front ++ (x ∷ [])) backing s' (behind ++ []) (added ++ (x ∷ []))
            p' (ground (arith, contains-append added (x ∷ []) x, eq_refl x))
            (e ∙ sym (append_assoc front (x ∷ []) (copies k x)))
            (length-append front (x ∷ []) ∙ omega (arith, l)) kept))

  -- The names from `x` on are visited at every other position; behind them the array holds copies
  -- of the last one.
  pub loop_at :
      (k : ℕ) (x : String) (names : List String) (left passed : ℕ) (behind backing : List String)
      (s : State W) (added : List String)
      → Progress env namespace server start s (behind ++ (x ∷ names)) added
      → left ≡ suc (length names) + k
      → length behind ≡ passed
      → backing ≡ behind ++ ((x ∷ names) ++ copies k (last x names))
      → Distinct (behind ++ (x ∷ names))
      → AllFresh env namespace server start (x ∷ names) added
      → Ends
          (visit_shared env namespace left passed backing s)
          (behind ++ passed_over (x ∷ names))
          (added ++ visited (x ∷ names))
  unfolding overwrite
  loop_at k x names zero passed behind backing s added p n l e d all = absurd (omega (arith, n))
  loop_at k x [] (suc left) passed behind backing s added p n l e d all =
      let kept : overwrite (behind ++ []) backing ≡ backing =
        rw e (overwrite-append behind [] (x ∷ copies k x)) in
      let m : left ≡ k = omega (arith, n) in
      rw m (
        last_at k x passed behind behind backing s added p e l kept d
          (all x (ground (arith, eq_refl x))))
  loop_at k x (y ∷ []) (suc zero) passed behind backing s added p n l e d all =
      absurd (omega (arith, n))
  loop_at k x (y ∷ []) (suc (suc left)) passed behind backing s added p n l e d all =
      let (fresh, new) = all x (ground (arith, eq_refl x)) in
      let middle = Distinct-middle behind x (y ∷ []) d in
      let shifted = overwrite (behind ++ (y ∷ [])) backing in
      let f : shifted ≡ behind ++ (y ∷ y ∷ copies k y) =
        rw e (overwrite-append behind (y ∷ []) (x ∷ y ∷ copies k y)) in
      let m : left ≡ k = omega (arith, n) in
      Ends-same refl (append_assoc added (x ∷ []) (y ∷ [])) (
        round (suc left) passed backing x s (behind ++ (y ∷ [])) (added ++ (x ∷ []))
          (rw (e, sym l) (get_elem?-append behind x (y ∷ copies k y)))
          (leave env namespace server start x (y ∷ []) behind s added p d fresh new)
          (λ s' p'. rw m (
            last_at k y (suc passed) (behind ++ (y ∷ [])) behind shifted s' (added ++ (x ∷ [])) p'
              (f ∙ sym (append_assoc behind (y ∷ []) (y ∷ copies k y)))
              (length-append behind (y ∷ []) ∙ omega (arith, l))
              (rw f (overwrite-append behind [] (y ∷ y ∷ copies k y))) middle.2
              (later-AllFresh env namespace server start x (y ∷ []) added middle.1 all y
                (ground (arith, eq_refl y))))))
  loop_at k x (y ∷ z ∷ names) (suc left) passed behind backing s added p n l e d all =
      let (fresh, new) = all x (ground (arith, eq_refl x)) in
      let middle = Distinct-middle behind x (y ∷ z ∷ names) d in
      let pad = copies k (last z names) in
      let shifted = overwrite (behind ++ (y ∷ z ∷ names)) backing in
      let f : shifted ≡ behind ++ ((y ∷ z ∷ names) ++ (last z names ∷ pad)) =
        rw e (overwrite-append behind (y ∷ z ∷ names) (x ∷ ((y ∷ z ∷ names) ++ pad)))
        ∙ ap (λ (t : List String). behind ++ ((y ∷ z ∷ names) ++ t))
            (drop-length x (y ∷ z ∷ names) pad) in
      let assoc = append_assoc behind (y ∷ []) in
      Ends-same (assoc (passed_over (z ∷ names)))
        (append_assoc added (x ∷ []) (visited (z ∷ names)))
        (round left passed backing x s (behind ++ (y ∷ z ∷ names)) (added ++ (x ∷ []))
          (rw (e, sym l) (get_elem?-append behind x ((y ∷ z ∷ names) ++ pad)))
          (leave env namespace server start x (y ∷ z ∷ names) behind s added p d fresh new)
          (λ s' p'.
            loop_at (suc k) z names left (suc passed) (behind ++ (y ∷ [])) shifted s'
              (added ++ (x ∷ []))
              (subst (λ w. Progress env namespace server start s' w (added ++ (x ∷ [])))
                (sym (assoc (z ∷ names))) p')
              (omega (arith, n)) (length-append behind (y ∷ []) ∙ omega (arith, l))
              (f ∙ sym (assoc ((z ∷ names) ++ (last z names ∷ pad))))
              (subst Distinct (sym (assoc (z ∷ names))) middle.2)
              (λ v there.
                later-AllFresh env namespace server start x (y ∷ z ∷ names) added middle.1 all v
                  (ground (arith, there)))))
