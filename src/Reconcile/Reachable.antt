-- ===== src/Reconcile/Reachable.antt =====
-- internal/controller/upgradeaccelerator_controller.go: any number of reconciliations among the
-- steps that users, nodes and other controllers take, and what holds of every object that is stored
-- after them.
use openshift_upgrade_accele.Prelude.{
  String, ◌≡◌, Bool, true, false, List, [], ◌∷◌, ◌++◌, contains, contains-append, Distinct, arith,
  eq_iff,
}
use openshift_upgrade_accele.Cluster.{Env, NamespacedName}
use openshift_upgrade_accele.Reconcile.Run.{reconcile}
use openshift_upgrade_accele.Reconcile.Warrant.{
  OfPreheated, IsGrowing, IsWarrant, IsJobWarrant, Stored,
}
use openshift_upgrade_accele.Reconcile.Warrant.Whole.{world-reconcile}

-- A step of the cluster: a reconciliation, or what `Others` allows.
pub data Step {W : Type 0} (env : Env W) (Others : W → W → Type 0) : W → W → Type 0 where
  reconciles : (req : NamespacedName) (w : W) → Step env Others w (reconcile env req w).1
  others : {w w' : W} → Others w w' → Step env Others w w'

pub data Reachable {W : Type 0} (env : Env W) (Others : W → W → Type 0) (start : W)
    : W → Type 0 where
  here : Reachable env Others start start
  next :
      {w w' : W}
      → Reachable env Others start w
      → Step env Others w w'
      → Reachable env Others start w'

-- The nodes are counted once, and each of them is good.
pub record IsCounted (good : String → Bool) (names : List String) : Type 0 where
  pub once : Distinct names
  pub each : (name : String) → contains names name ≡ true → good name ≡ true

Distinct-snoc :
    (names : List String) (name : String)
    → Distinct names
    → contains names name ≡ false
    → Distinct (names ++ (name ∷ []))
Distinct-snoc [] name d new = ground arith
Distinct-snoc (x ∷ xs) name (first, d) new = (
  ground (arith, contains-append xs (name ∷ []) x, first, new, eq_iff name x, eq_iff x name),
  Distinct-snoc xs name d (ground (arith, new)),
)

IsCounted-IsGrowing : (good : String → Bool) → IsGrowing good (IsCounted good)
IsCounted-IsGrowing good = record {
  empty = record { once = tt; each = λ name h. cc };
  extended = λ names name counted new fine. record {
    once = Distinct-snoc names name counted.once new;
    each = λ x h.
        ground (arith, contains-append names (name ∷ []) x, counted.each x, eq_iff name x, h, fine);
  };
}

module _ {W : Type 0} (env : Env W) (good : String → Bool) (P : W → Type 0)
    (Others : W → W → Type 0) (warrant : IsWarrant env P (OfPreheated (IsCounted good)))
    (jobs : IsJobWarrant env good P) where
  world_kept :
      {start w : W}
      → ((v v' : W) → Others v v' → P v → P v')
      → P start
      → Reachable env Others start w
      → P w
  world_kept kept p here = p
  world_kept kept p (next r (reconciles req w)) =
      world-reconcile env good P (IsCounted good) (IsCounted-IsGrowing good) warrant jobs req w
        (world_kept kept p r)
  world_kept kept p (next r (others step)) = kept _ _ step (world_kept kept p r)

  -- Let a property of the world be given that the calls keep and the steps of others too, and by
  -- which the fetched objects and the listed Jobs are as they should be. Then after any number of
  -- reconciliations, however each of them ends, among steps of others, the preheated nodes of the
  -- object that is fetched are distinct and all good, where the nodes of the succeeded Jobs that
  -- are listed are good.
  pub preheated-IsCounted :
      {start w : W} (key : NamespacedName)
      → ((v v' : W) → Others v v' → P v → P v')
      → P start
      → Reachable env Others start w
      → Stored (OfPreheated (IsCounted good)) (env.get_upgrade_accelerator key w).0
  preheated-IsCounted key kept p r = warrant.fetched key _ (world_kept kept p r)
