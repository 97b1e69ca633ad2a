-- ===== src/Reconcile/Guard/Whole.antt =====
-- internal/controller/upgradeaccelerator_controller.go: for which nodes a whole reconciliation
-- creates Jobs.
use openshift_upgrade_accele.Prelude.{String, Bool, true, false, if◌then◌else◌, is_lower_case_of}
use openshift_upgrade_accele.Api.{UpgradeAccelerator}
use openshift_upgrade_accele.Cluster.{Env, NamespacedName}
use openshift_upgrade_accele.Exec.{
  Result, ok, err, State, Outcome, done, fail, panic, Exec, and_then, pure, throw, or_else, ◌>>=◌,
}
use openshift_upgrade_accele.Exec.Preserves.{Preserves}
use openshift_upgrade_accele.Exec.Ensures.{
  Ended, Ensures, Ensures-kept, Ensures-throw, Ensures-get, Ensures-or_else,
}
use openshift_upgrade_accele.Sorting.{sort_slice_of_strings}
use openshift_upgrade_accele.Versions.{OpenShiftClusterVersionState}
use openshift_upgrade_accele.Nodes.{NodeSets}
use openshift_upgrade_accele.Nodes.Targets.{determine_targeted_nodes}
use openshift_upgrade_accele.Nodes.Primers.{KeepsNames}
use openshift_upgrade_accele.Nodes.Allowed.{AllGood}
use openshift_upgrade_accele.Reconcile.Reply.{Reply, after_error, after}
use openshift_upgrade_accele.Reconcile.Checks.{
  version_phase, initial_checks, setup_phase, reconcile_disabled,
}
use openshift_upgrade_accele.Reconcile.Run.{
  schedule, reconcile_enabled, reconcile_fetched, reconcile, after_fetch,
}
use openshift_upgrade_accele.Reconcile.Scoped.{IsScope}
use openshift_upgrade_accele.Reconcile.Scoped.Whole.{schedule-IsScoped}
use openshift_upgrade_accele.Reconcile.Warrant.{View, IsWarrant, IsWarranted, Stored}
use openshift_upgrade_accele.Reconcile.Warrant.Phases.{
  empty_view, infrastructure_phase-Preserves, version_phase-Preserves, initial_checks-Preserves,
  setup_phase-Preserves, reconcile_disabled-Preserves,
}
use openshift_upgrade_accele.Reconcile.Guard.{
  NoPools, IsGuarded, IsOffering, determine_targeted_nodes-SetsGood,
}

-- From an invariant an action leads to a property of the world, however it ends.
record Leads {W E A : Type 0} (I : State W → Type 0) (J : W → Type 0) (m : Exec W E A)
    : Type 0 where
  at : (s : State W) → I s → J (m s).1.world

module _ {W E A B : Type 0} (I : State W → Type 0) (J : W → Type 0)
    (sound : (s : State W) → I s → J s.world) where
  then_at :
      (Mid : A → Type 0) (o : Outcome E A) (f : A → Exec W E B) (s : State W)
      → Ended I Mid o s
      → ((a : A) → Mid a → Leads I J (f a))
      → J (and_then o f s).1.world
  then_at Mid (done a) f s (p, q) k = (k a q).at s p
  then_at Mid (fail e) f s p k = sound s p
  then_at Mid panic f s p k = sound s p

  Leads-bind :
      {Mid : A → Type 0} (m : Exec W E A) (f : A → Exec W E B)
      → Ensures I Mid m
      → ((a : A) → Mid a → Leads I J (f a))
      → Leads I J (m >>= f)
  Leads-bind {Mid = Mid} m f k q = record { at = λ s p. then_at Mid (m s).0 f (m s).1 (k.at s p) q }

module _ {W : Type 0} (env : Env W) (good : String → Bool) (P J : W → Type 0)
    (warrant : IsWarrant env P (IsGuarded good)) (offering : IsOffering env good P)
    (keeps : KeepsNames (sort_slice_of_strings env)) (sound : (w : W) → P w → J w)
    (scope : (namespace : String) → IsScope env namespace good NoPools J) where
  abbrev I : State W → Type 0
  I = IsWarranted P (IsGuarded good)

  sound_at : (s : State W) → I s → J s.world
  sound_at s p = sound s.world p.world

  emptied : (v : View) → IsGuarded good v → IsGuarded good (empty_view v)
  emptied v p = record { no_pools = p.no_pools; waiting = λ y h. cc; warming = λ y h. cc }

  kept_of : {A B : Type 0} (m : Exec W A B) → Preserves I m → Leads I J m
  kept_of m k = record { at = λ s p. sound_at (m s).1 (k.at s p) }

  ends_at :
      (o : Outcome Reply (Unit {0})) (s : State W)
      → J s.world
      → J (and_then o (λ _. pure (after 60)) s).1.world
  ends_at (done a) s j = j
  ends_at (fail e) s j = j
  ends_at panic s j = j

  schedules :
      (v : OpenShiftClusterVersionState) (nodes : NodeSets) (namespace : String)
      → AllGood good nodes.targeted × AllGood good nodes.primer
      → Leads I J (schedule env namespace v nodes.targeted nodes.primer >>= λ _. pure (after 60))
  schedules v nodes namespace (targeted, primer) = record {
    at = λ s p.
        let (o, s') = schedule env namespace v nodes.targeted nodes.primer s in
        ends_at o s'
          (schedule-IsScoped env namespace good NoPools J (scope namespace) v nodes.targeted
            nodes.primer s targeted primer
            (record {
              world = sound_at s p;
              waiting = p.object.waiting;
              warming = p.object.warming;
              spec = p.object.no_pools;
            })).world;
  }

  abbrev after_nodes : NamespacedName → OpenShiftClusterVersionState → NodeSets → Exec W Reply Reply
  after_nodes req v nodes = initial_checks env req nodes.targeted nodes.primer >>= λ _.
      setup_phase env v >>= λ namespace.
      schedule env namespace v nodes.targeted nodes.primer >>= λ _. pure (after 60)

  after_nodes-Leads :
      (req : NamespacedName) (v : OpenShiftClusterVersionState) (nodes : NodeSets)
      → AllGood good nodes.targeted × AllGood good nodes.primer
      → Leads I J (after_nodes req v nodes)
  after_nodes-Leads req v nodes chosen =
      Leads-bind I J sound_at _ _
        (Ensures-kept _ (
          initial_checks-Preserves env P (IsGuarded good) emptied warrant req nodes.targeted
            nodes.primer))
        λ _ _.
          Leads-bind I J sound_at _ _
            (Ensures-kept _ (setup_phase-Preserves env P (IsGuarded good) emptied warrant v))
            λ namespace _. schedules v nodes namespace chosen

  abbrev after_version : NamespacedName → OpenShiftClusterVersionState → Exec W Reply Reply
  after_version req v =
      or_else (determine_targeted_nodes env) (λ e. throw (after_error e)) >>= after_nodes req v

  reconcile_enabled-Leads : (req : NamespacedName) → Leads I J (reconcile_enabled env req)
  unfolding reconcile_enabled
  reconcile_enabled-Leads req =
      Leads-bind I J sound_at _ (λ _. version_phase env req >>= after_version req)
        (Ensures-kept _ (infrastructure_phase-Preserves env P (IsGuarded good) emptied warrant req))
        λ _ _.
          Leads-bind I J sound_at _ (after_version req)
            (Ensures-kept _ (version_phase-Preserves env P (IsGuarded good) emptied warrant req))
            λ v _.
              Leads-bind I J sound_at _ (after_nodes req v)
                (Ensures-or_else _ _
                  (determine_targeted_nodes-SetsGood env good P warrant offering keeps)
                  λ e. Ensures-throw (after_error e))
                λ nodes chosen. after_nodes-Leads req v nodes chosen

  chosen_at :
      (b : Bool) (m n : Exec W Reply Reply)
      → Leads I J m
      → Leads I J n
      → Leads I J (if b then m else n)
  chosen_at true m n p q = p
  chosen_at false m n p q = q

  reconcile_fetched-Leads : (req : NamespacedName) → Leads I J (reconcile_fetched env req)
  unfolding reconcile_fetched
  reconcile_fetched-Leads req =
      Leads-bind I J sound_at _
        (λ ua.
          if is_lower_case_of "disabled" ua.spec.state
          then reconcile_disabled env
          else reconcile_enabled env req)
        (Ensures-get {Post = λ _. Unit {0}} (λ s p. tt))
        λ ua _.
          chosen_at (is_lower_case_of "disabled" ua.spec.state) _ _
            (kept_of _ (reconcile_disabled-Preserves env P (IsGuarded good) emptied warrant))
            (reconcile_enabled-Leads req)

  world-after_fetch :
      (req : NamespacedName) (r : Result UpgradeAccelerator × W)
      → Stored (IsGuarded good) r.0
      → P r.1
      → J (after_fetch env req r).1
  world-after_fetch req (ok ua, w) q p =
      (reconcile_fetched-Leads req).at _ (record { world = p; object = q })
  world-after_fetch req (err e, w) q p = sound w p

  -- Where the fetched objects name no MachineConfigPools, their waiting and warming nodes are good,
  -- every node that is listed without a label that disables preheating is good, and sorting keeps
  -- the names, a reconciliation creates pull Jobs for good nodes only: what reading, status updates
  -- and the creation of such Jobs keep of the world is kept, however the reconciliation ends, with
  -- priming and without, with a node selector and without.
  pub reconcile-IsScoped : (req : NamespacedName) (w : W) → P w → J (reconcile env req w).1
  unfolding reconcile
  reconcile-IsScoped req w p =
      world-after_fetch req (env.get_upgrade_accelerator req w) (warrant.fetched req w p)
        (warrant.by_fetch req w p)
