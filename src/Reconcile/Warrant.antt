-- ===== src/Reconcile/Warrant.antt =====
-- internal/controller/upgradeaccelerator_controller.go: what is known of every object that is
-- stored, through the calls of the client, the conditions, and the ends of a reconciliation.
pub mod Calls
pub mod Sections
pub mod Scan
pub mod Loops
pub mod Phases
pub mod Whole
use mathlib.Core.Path.{subst}
use openshift_upgrade_accele.Prelude.{
  ℕ, String, ◌≡◌, sym, refl, Bool, true, false, List, [], ◌∷◌, ◌++◌, contains, ltb, arith, Option,
  none, some,
}
use openshift_upgrade_accele.Api.{UpgradeAccelerator}
use openshift_upgrade_accele.Cluster.{Env, NamespacedName, Labels, Job, ConfigMap, Namespace}
use openshift_upgrade_accele.Exec.{
  Error, Result, ok, err, State, Outcome, done, fail, panic, Exec, call, modify, ignore, pure,
  crash,
}
use openshift_upgrade_accele.Exec.Preserves.{
  Preserves, preserves_rules, Preserves-or_else, Preserves-pure,
}
use openshift_upgrade_accele.Conditions.{
  status_update, append_condition, delete_condition, delete_from, delete_conditions,
}
use openshift_upgrade_accele.Reconcile.Reply.{Reply, after_error, save, refetch}

-- What a Job that is listed says of its node, if it succeeded.
abbrev pub Warrants : (String → Bool) → List Job → Type 0
Warrants good [] = Unit {0}
Warrants good (job ∷ jobs) =
    (ltb 0 job.succeeded ≡ true → good job.node_name ≡ true) × Warrants good jobs

abbrev pub AllWarranted : (String → Bool) → Result (List Job) → Type 0
AllWarranted good (ok jobs) = Warrants good jobs
AllWarranted good (err e) = Unit {0}

-- What of an object the sections before the waiting list leave alone, or empty.
pub record View : Type 0 where
  pub pools : List String
  pub waiting : List String
  pub warming : List String
  pub preheated : List String

abbrev pub view : UpgradeAccelerator → View
view ua = record {
  pools = ua.spec.selector.machine_config_pools;
  waiting = ua.status.nodes_waiting;
  warming = ua.status.nodes_warming;
  preheated = ua.status.nodes_preheated;
}

abbrev pub Stored : (View → Type 0) → Result UpgradeAccelerator → Type 0
Stored Q (ok ua) = Q (view ua)
Stored Q (err e) = Unit {0}

abbrev pub OfPreheated : (List String → Type 0) → View → Type 0
OfPreheated R v = R v.preheated

-- A property of lists of nodes that holds of none, and still holds when another good node is added.
pub record IsGrowing (good : String → Bool) (Q : List String → Type 0) : Type 0 where
  pub empty : Q []
  pub extended :
      (names : List String) (name : String)
      → Q names
      → contains names name ≡ false
      → good name ≡ true
      → Q (names ++ (name ∷ []))

-- A property of the world that every call but those on Jobs keeps, a status update if the object
-- has the property `Q`, and that gives that an object which is fetched has it.
pub record IsWarrant {W : Type 0} (env : Env W) (P : W → Type 0) (Q : View → Type 0) : Type 0 where
  pub fetched :
      (key : NamespacedName) (w : W) → P w → Stored Q (env.get_upgrade_accelerator key w).0
  pub by_update :
      (ua : UpgradeAccelerator) (w : W) → Q (view ua) → P w → P (env.update_status ua w).1
  pub by_fetch : (key : NamespacedName) (w : W) → P w → P (env.get_upgrade_accelerator key w).1
  pub by_list_nodes : (labels : Labels) (w : W) → P w → P (env.list_nodes labels w).1
  pub by_list_pools : (w : W) → P w → P (env.list_machine_config_pools w).1
  pub by_infrastructure : (name : String) (w : W) → P w → P (env.get_infrastructure name w).1
  pub by_operator : (key : NamespacedName) (w : W) → P w → P (env.get_cluster_operator key w).1
  pub by_version : (key : NamespacedName) (w : W) → P w → P (env.get_cluster_version key w).1
  pub by_namespace : (name : String) (w : W) → P w → P (env.get_namespace name w).1
  pub by_create_namespace : (n : Namespace) (w : W) → P w → P (env.create_namespace n w).1
  pub by_config_map : (key : NamespacedName) (w : W) → P w → P (env.get_config_map key w).1
  pub by_create_config_map : (m : ConfigMap) (w : W) → P w → P (env.create_config_map m w).1
  pub by_update_config_map : (m : ConfigMap) (w : W) → P w → P (env.update_config_map m w).1
  pub by_shell : (line : String) (w : W) → P w → P (env.run_shell line w).1

-- The same of the calls on Jobs, where the listed Jobs which succeeded ran on nodes which are `good`.
pub record IsJobWarrant {W : Type 0} (env : Env W) (good : String → Bool) (P : W → Type 0)
    : Type 0 where
  pub listed :
      (namespace : String) (labels : Labels) (w : W)
      → P w
      → AllWarranted good (env.list_jobs namespace labels w).0
  pub by_job : (key : NamespacedName) (w : W) → P w → P (env.get_job key w).1
  -- A Job that is created has not succeeded.
  pub by_create_job : (job : Job) (w : W) → job.succeeded ≡ 0 → P w → P (env.create_job job w).1
  pub by_list_jobs :
      (namespace : String) (labels : Labels) (w : W) → P w → P (env.list_jobs namespace labels w).1

-- The world is as it should be, and so is the object in memory.
pub record IsWarranted {W : Type 0} (P : W → Type 0) (Q : View → Type 0) (s : State W)
    : Type 0 where
  pub world : P s.world
  pub object : Q (view s.ua)

module _ {W : Type 0} {P : W → Type 0} {Q : View → Type 0} where
  called_at :
      {A : Type 0} (r : Result A × W) (s : State W)
      → P r.1
      → IsWarranted P Q s
      → IsWarranted P Q (call {W = W} (λ _. r) s).1
  called_at (ok a, w) s q p = record { world = q; object = p.object }
  called_at (err e, w) s q p = record { world = q; object = p.object }

  pub call-Preserves :
      {A : Type 0} (f : W → Result A × W)
      → ((w : W) → P w → P (f w).1)
      → Preserves (IsWarranted P Q) (call f)
  call-Preserves f k = record { at = λ s p. called_at (f s.world) s (k s.world p.world) p }

  -- A change of the object that leaves its view.
  pub modify-Preserves :
      {E : Type 0} (f : UpgradeAccelerator → UpgradeAccelerator)
      → ((ua : UpgradeAccelerator) → view (f ua) ≡ view ua)
      → Preserves (IsWarranted P Q) (modify {E = E} f)
  modify-Preserves f k = record {
    at = λ s p. record { world = p.world; object = subst Q (sym (k s.ua)) p.object };
  }

  pub crash-Preserves : {E A : Type 0} → Preserves (IsWarranted P Q) (crash {W = W} {E = E} {A = A})
  crash-Preserves = record { at = λ s p. p }

module _ {W : Type 0} {P : W → Type 0} (R : List String → Type 0) where
  -- A change of the object that leaves the preheated nodes.
  pub alter-Preserves :
      {E : Type 0} (f : UpgradeAccelerator → UpgradeAccelerator)
      → ((ua : UpgradeAccelerator) → (f ua).status.nodes_preheated ≡ ua.status.nodes_preheated)
      → Preserves (IsWarranted P (OfPreheated R)) (modify {E = E} f)
  alter-Preserves f k = record {
    at = λ s p. record { world = p.world; object = subst R (sym (k s.ua)) p.object };
  }

module _ {W : Type 0} (env : Env W) (P : W → Type 0) (Q : View → Type 0)
    (warrant : IsWarrant env P Q) where
  abbrev Holds : {E A : Type 0} → Exec W E A → Type 0
  Holds m = Preserves (IsWarranted P Q) m

  pub status_update-Preserves : Holds (status_update env)
  unfolding status_update
  status_update-Preserves = record {
    at = λ s p.
        called_at (env.update_status s.ua s.world) s
          (warrant.by_update s.ua s.world p.object p.world) p;
  }

  pub append_condition-Preserves :
      (type_name status reason message : String)
      → Holds (append_condition env type_name status reason message)
  unfolding append_condition
  append_condition-Preserves type_name status reason message = record {
    at = λ s p. status_update-Preserves.at _ (record { world = p.world; object = p.object });
  }

  delete_condition-Preserves : (type_name : String) → Holds (delete_condition env type_name)
  unfolding delete_condition
  delete_condition-Preserves type_name = record {
    at = λ s p. status_update-Preserves.at _ (record { world = p.world; object = p.object });
  }

  delete_from-Preserves :
      (last : Outcome Error (Unit {0})) (types : List String) → Holds (delete_from env last types)
  unfolding delete_from
  delete_from-Preserves last [] = record { at = λ s p. p }
  delete_from-Preserves last (t ∷ types) = record {
    at = λ s p.
        let (o, s') = delete_condition env t s in
        (delete_from-Preserves o types).at s' ((delete_condition-Preserves t).at s p);
  }

  pub delete_conditions-Preserves : (types : List String) → Holds (delete_conditions env types)
  unfolding delete_conditions
  delete_conditions-Preserves types = delete_from-Preserves (done tt) types

  pub save-Preserves : Holds (save env)
  unfolding save
  save-Preserves = search (preserves_rules, status_update-Preserves) depth 8

  refetched_at :
      (r : Result UpgradeAccelerator × W) (s : State W)
      → Stored Q r.0
      → P r.1
      → IsWarranted P Q s
      → IsWarranted P Q
          (refetch
            (record env { get_upgrade_accelerator = λ _ _. r })
            (record { namespace = ""; name = "" })
            s).1
  unfolding refetch
  refetched_at (ok ua, w) s q p h = record { world = p; object = q }
  refetched_at (err e, w) s q p h = record { world = p; object = h.object }

  pub refetch-Preserves : (req : NamespacedName) → Holds (refetch env req)
  unfolding refetch
  refetch-Preserves req = record {
    at = λ s p.
        refetched_at (env.get_upgrade_accelerator req s.world) s
          (warrant.fetched req s.world p.world) (warrant.by_fetch req s.world p.world) p;
  }
