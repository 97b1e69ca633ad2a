-- ===== src/Reconcile/Guard/Reachable.antt =====
-- internal/controller/upgradeaccelerator_controller.go: for which nodes any number of
-- reconciliations create Jobs.
use openshift_upgrade_accele.Prelude.{String, Bool}
use openshift_upgrade_accele.Cluster.{Env}
use openshift_upgrade_accele.Sorting.{sort_slice_of_strings}
use openshift_upgrade_accele.Nodes.Primers.{KeepsNames}
use openshift_upgrade_accele.Reconcile.Scoped.{IsScope}
use openshift_upgrade_accele.Reconcile.Warrant.{IsWarrant}
use openshift_upgrade_accele.Reconcile.Reachable.{Reachable, here, next, reconciles, others}
use openshift_upgrade_accele.Reconcile.Guard.{NoPools, IsGuarded, IsOffering}
use openshift_upgrade_accele.Reconcile.Guard.Whole.{reconcile-IsScoped}

module _ {W : Type 0} (env : Env W) (good : String → Bool) (P : W → Type 0)
    (Others : W → W → Type 0) (warrant : IsWarrant env P (IsGuarded good))
    (offering : IsOffering env good P) (keeps : KeepsNames (sort_slice_of_strings env))
    (scope : (namespace : String) → IsScope env namespace good NoPools P) where
  -- Let the fetched objects name no MachineConfigPools, every node that is ever listed without a
  -- label that disables preheating be good, and sorting keep the names. Then any number of
  -- reconciliations among steps of others creates pull Jobs for good nodes only: what the steps of
  -- others keep of the world, and reading, the creation of such Jobs and the other calls, and status
  -- updates after which only good nodes wait and warm, is kept by all of them. A node that is
  -- labelled after it was listed without the label stays good: of such a node nothing is said here.
  pub jobs_of_good :
      {start w : W}
      → ((v v' : W) → Others v v' → P v → P v')
      → P start
      → Reachable env Others start w
      → P w
  jobs_of_good kept p here = p
  jobs_of_good kept p (next r (reconciles req w)) =
      reconcile-IsScoped env good P P warrant offering keeps (λ v q. q) scope req w
        (jobs_of_good kept p r)
  jobs_of_good kept p (next r (others step)) = kept _ _ step (jobs_of_good kept p r)
