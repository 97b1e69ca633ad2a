-- ===== src/Reconcile/Scoped.antt =====
-- internal/controller/upgradeaccelerator_controller.go: which Jobs are created, and what else is
-- done to the world.
pub mod Whole
use mathlib.Core.Path.{subst}
use openshift_upgrade_accele.Prelude.{
  ◌⊎◌, String, ◌≡◌, ◌∙◌, sym, refl, Bool, true, false, ◌||◌, ◌==◌, Option, none, some, List, [],
  ◌∷◌, ◌++◌, contains, contains-append, arith, eq_iff, if◌then◌else◌, Bool-cases, Option-cases, inl,
  inr,
}
use openshift_upgrade_accele.Api.{UpgradeAccelerator, UpgradeAcceleratorSpec}
use openshift_upgrade_accele.Cluster.{Env, Job, NamespacedName, Labels}
use openshift_upgrade_accele.Exec.{
  Error, Outcome, done, fail, panic, Result, ok, err, State, call, or_else, throw, pure,
}
use openshift_upgrade_accele.Exec.Preserves.{Preserves, preserves_rules}
use openshift_upgrade_accele.Conditions.{status_update, append_condition}
use openshift_upgrade_accele.Jobs.{create_pull_job, pull_job_manifest}
use openshift_upgrade_accele.Reconcile.Reply.{after_error, save}
use openshift_upgrade_accele.Reconcile.Scheduling.{pull_job, schedule_node, start_warming}
use openshift_upgrade_accele.Reconcile.Tracked.{KeepsOthers}

-- Every name of the list is allowed.
abbrev pub Within : (String → Bool) → List String → Type 0
Within allowed names = (y : String) → contains names y ≡ true → allowed y ≡ true

-- What is kept of the world by reading, by the status updates of objects in which only allowed
-- nodes wait and warm and the spec is as known, and by creating the pull Job of an allowed node.
pub record IsScope {W : Type 0} (env : Env W) (namespace : String) (allowed : String → Bool)
    (K : UpgradeAcceleratorSpec → Type 0) (P : W → Type 0) : Type 0 where
  pub by_update :
      (ua : UpgradeAccelerator) (w : W)
      → K ua.spec
      → Within allowed ua.status.nodes_waiting
      → Within allowed ua.status.nodes_warming
      → P w
      → P (env.update_status ua w).1
  pub by_read : (key : NamespacedName) (w : W) → P w → P (env.get_job key w).1
  pub by_list : (labels : Labels) (w : W) → P w → P (env.list_jobs namespace labels w).1
  pub by_create :
      (ua : UpgradeAccelerator) (node : String) (w : W)
      → allowed node ≡ true
      → P w
      → P (env.create_job (pull_job_manifest env ua (pull_job env namespace ua node)) w).1

abbrev is_absent : Result Job → Bool
is_absent (ok job) = false
is_absent (err e) = e.not_found

-- The world and the spec are as they should be, and only allowed nodes wait or warm.
pub record IsScoped {W : Type 0} (allowed : String → Bool) (K : UpgradeAcceleratorSpec → Type 0)
    (P : W → Type 0) (s : State W) : Type 0 where
  pub world : P s.world
  pub waiting : Within allowed s.ua.status.nodes_waiting
  pub warming : Within allowed s.ua.status.nodes_warming
  pub spec : K s.ua.spec

module _ {W : Type 0} (env : Env W) (namespace : String) (allowed : String → Bool)
    (K : UpgradeAcceleratorSpec → Type 0) (P : W → Type 0)
    (scope : IsScope env namespace allowed K P) where
  moved :
      (w : W) (s s' : State W)
      → s' ≡ record s { world = w }
      → P w
      → IsScoped allowed K P s
      → IsScoped allowed K P s'
  moved w s s' e q p =
      subst (IsScoped allowed K P) (sym e)
        (record { world = q; waiting = p.waiting; warming = p.warming; spec = p.spec })

  pub status_update-Preserves : Preserves (IsScoped allowed K P) (status_update env)
  unfolding status_update
  status_update-Preserves = record {
    at = λ s p.
        moved (env.update_status s.ua s.world).1 s _ (ground arith)
          (scope.by_update s.ua s.world p.spec p.waiting p.warming p.world) p;
  }

  pub save-Preserves : Preserves (IsScoped allowed K P) (save env)
  unfolding save
  save-Preserves = search (preserves_rules, status_update-Preserves) depth 8

  pub append_condition-Preserves :
      (type_name status reason message : String)
      → Preserves (IsScoped allowed K P) (append_condition env type_name status reason message)
  unfolding append_condition
  append_condition-Preserves type_name status reason message = record {
    at = λ s p.
        status_update-Preserves.at _
          (record { world = p.world; waiting = p.waiting; warming = p.warming; spec = p.spec });
  }

  pub list_jobs-Preserves :
      (labels : Labels) → Preserves (IsScoped allowed K P) (call (env.list_jobs namespace labels))
  list_jobs-Preserves labels = record {
    at = λ s p.
        moved (env.list_jobs namespace labels s.world).1 s _ (ground arith)
          (scope.by_list labels s.world p.world) p;
  }

  abbrev key_at : State W → String → NamespacedName
  key_at s node = record { namespace = namespace; name = (pull_job env namespace s.ua node).name }

  read_only :
      (node : String) (s : State W)
      → is_absent (env.get_job (key_at s node) s.world).0 ≡ false
      → (create_pull_job env (pull_job env namespace s.ua node) s).1
        ≡ record s { world = (env.get_job (key_at s node) s.world).1 }
  unfolding create_pull_job
  read_only node s h = ground (arith, h)

  created :
      (node : String) (s : State W)
      → is_absent (env.get_job (key_at s node) s.world).0 ≡ true
      → (create_pull_job env (pull_job env namespace s.ua node) s).1 ≡ record s {
        world =
            (env.create_job
              (pull_job_manifest env s.ua (pull_job env namespace s.ua node))
              (env.get_job (key_at s node) s.world).1).1;
      }
  unfolding create_pull_job
  created node s h = ground (arith, h)

  create_at :
      (node : String) (s : State W)
      → allowed node ≡ true
      → IsScoped allowed K P s
      → IsScoped allowed K P (create_pull_job env (pull_job env namespace s.ua node) s).1
  create_at node s a p =
      let w = (env.get_job (key_at s node) s.world).1 in
      let q = scope.by_read (key_at s node) s.world p.world in
      elim (Bool-cases (is_absent (env.get_job (key_at s node) s.world).0)) [
        | inl h ↦ moved _ s _ (created node s h) (scope.by_create s.ua node w a q) p
        | inr h ↦ moved _ s _ (read_only node s h) q p
      ]

  thrown_at :
      (o : Outcome Error Bool) (s : State W)
      → IsScoped allowed K P s
      → IsScoped allowed K P (or_else (λ _. (o, s)) (λ e. throw (after_error e)) s).1
  thrown_at (done a) s p = p
  thrown_at (fail e) s p = p
  thrown_at panic s p = p

  schedule_at :
      (b : Bool) (node : String) (s : State W)
      → allowed node ≡ true
      → IsScoped allowed K P s
      → IsScoped allowed K P
          ((if b
              then or_else
                  (create_pull_job env (pull_job env namespace s.ua node))
                  (λ e. throw (after_error e))
              else pure false)
            s).1
  schedule_at true node s a p =
      let (o, s') = create_pull_job env (pull_job env namespace s.ua node) s in
      thrown_at o s' (create_at node s a p)
  schedule_at false node s a p = p

  pub schedule_node-Preserves :
      (node : String)
      → allowed node ≡ true
      → Preserves (IsScoped allowed K P) (schedule_node env namespace node)
  unfolding schedule_node
  schedule_node-Preserves node a = record { at = λ s p. schedule_at _ node s a p }

  pub start_warming-Preserves :
      (unwait : List String → Option (List String)) (node : String)
      → KeepsOthers unwait node
      → allowed node ≡ true
      → Preserves (IsScoped allowed K P) (start_warming env namespace unwait node)
  unfolding start_warming
  start_warming-Preserves unwait node k a = record {
    at = λ s p.
        let warm : Within allowed (s.ua.status.nodes_warming ++ (node ∷ [])) = λ y h. ground (
          arith,
          a,
          p.warming y,
          contains-append s.ua.status.nodes_warming (node ∷ []) y,
          eq_iff node y,
        ) in
        elim (Option-cases (unwait s.ua.status.nodes_waiting)) [
          | inl e ↦
              rw e (record { world = p.world; spec = p.spec; waiting = p.waiting; warming = warm })
          | inr (rest, e) ↦ rw e (
              save-Preserves.at _ (record {
                world = p.world;
                spec = p.spec;
                waiting = λ y h. elim (Bool-cases (node == y)) [
                  | inl same ↦ ground (arith, a, eq_iff node y)
                  | inr other ↦
                      p.waiting y (sym (k.at s.ua.status.nodes_waiting {rest = rest} y e other) ∙ h)
                ];
                warming = warm;
              }))
        ];
  }
