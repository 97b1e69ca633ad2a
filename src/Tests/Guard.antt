-- ===== src/Tests/Guard.antt =====
-- The theorem on the Jobs of a whole reconciliation at the sample cluster, with a node that is not
-- to be preheated.
use openshift_upgrade_accele.Prelude.{
  String, ◌≡◌, refl, Bool, true, false, not, List, [], ◌∷◌, Option, some, none, contains, keep,
  Bool-cases, inl, inr, arith, ◌==◌, eq_iff, if◌then◌else◌, any,
}
use openshift_upgrade_accele.Api.{UpgradeAccelerator}
use openshift_upgrade_accele.Cluster.{Node}
use openshift_upgrade_accele.Nodes.Labeled.{some_node}
use openshift_upgrade_accele.Nodes.Allowed.{Offers, is_preheatable}
use openshift_upgrade_accele.Reconcile.Run.{reconcile}
use openshift_upgrade_accele.Reconcile.Warrant.{IsWarrant, Stored, view}
use openshift_upgrade_accele.Reconcile.Guard.{NoPools, IsGuarded, IsOffering}
use openshift_upgrade_accele.Reconcile.Guard.Reachable.{jobs_of_good}
use openshift_upgrade_accele.Reconcile.Scoped.{IsScope}
use openshift_upgrade_accele.Reconcile.Reachable.{Reachable, here, next, reconciles, others}
use openshift_upgrade_accele.Samples.{World, cluster, sample, sample_request, world_of, plain_node}
use openshift_upgrade_accele.Tests.Objects.{
  is_listed, OnlyListed, cluster-KeepsNames, disabled_node,
}

abbrev GuardedIn : Option UpgradeAccelerator → Type 0
GuardedIn none = Unit {0}
GuardedIn (some ua) = IsGuarded is_listed (view ua)

record IsSafe (w : World) : Type 0 where
  stored : GuardedIn w.accelerator
  offered : Offers is_listed w.nodes
  created : OnlyListed w

sample-Stored :
    (o : Option UpgradeAccelerator)
    → GuardedIn o
    → Stored
        (IsGuarded is_listed)
        (cluster.get_upgrade_accelerator sample_request
          (record (world_of sample []) { accelerator = o })).0
sample-Stored none h = tt
sample-Stored (some ua) h = h

some_node-keep :
    (p q : Node → Bool) (nodes : List Node) (x : String)
    → some_node q (keep p nodes) x ≡ true
    → some_node q nodes x ≡ true
some_node-keep p q [] x h = h
some_node-keep p q (n ∷ nodes) x h = ground (arith, h, some_node-keep p q nodes x)

cluster-IsWarrant : IsWarrant cluster IsSafe (IsGuarded is_listed)
cluster-IsWarrant = record {
  fetched = λ key w p. sample-Stored w.accelerator p.stored;
  by_update = λ ua w q p. record { stored = q; offered = p.offered; created = p.created };
  by_fetch = λ key w p. p;
  by_list_nodes = λ labels w p. p;
  by_list_pools = λ w p. p;
  by_infrastructure = λ name w p. p;
  by_operator = λ key w p. p;
  by_version = λ key w p. p;
  by_namespace = λ name w p. p;
  by_create_namespace =
      λ n w p. record { stored = p.stored; offered = p.offered; created = p.created };
  by_config_map = λ key w p. p;
  by_create_config_map =
      λ m w p. record { stored = p.stored; offered = p.offered; created = p.created };
  by_update_config_map =
      λ m w p. record { stored = p.stored; offered = p.offered; created = p.created };
  by_shell = λ line w p. p;
}

cluster-IsOffering : IsOffering cluster is_listed IsSafe
cluster-IsOffering = record {
  listed = λ labels w p x h. p.offered x (some_node-keep _ is_preheatable w.nodes x h);
}

abbrev three_nodes : World
three_nodes = world_of sample (plain_node "a" ∷ disabled_node "c" ∷ plain_node "b" ∷ [])

three_nodes-IsSafe : IsSafe three_nodes
unfolding openshift_upgrade_accele.Nodes.label_is openshift_upgrade_accele.Prelude.is_lower_case_of
three_nodes-IsSafe = record {
  stored = record { no_pools = refl; waiting = λ y h. cc; warming = λ y h. cc };
  offered = λ x h. ground (arith, h, eq_iff "a" x, eq_iff "b" x);
  created = refl;
}

IsSafe-IsScope : (namespace : String) → IsScope cluster namespace is_listed NoPools IsSafe
unfolding openshift_upgrade_accele.Jobs.pull_job_manifest
IsSafe-IsScope namespace = record {
  by_update = λ ua w no_pools waiting warming p. record {
    stored = record { no_pools = no_pools; waiting = waiting; warming = warming };
    offered = p.offered;
    created = p.created;
  };
  by_read = λ key w p. p;
  by_list = λ labels w p. p;
  by_create = λ ua node w good p. record {
    stored = p.stored;
    offered = p.offered;
    created = ground (arith, good, p.created);
  };
}

-- All Jobs are deleted, as by their time to live.
data Expires : World → World → Type 0 where
  expires : (w : World) → Expires w (record w { jobs = [] })

kept-IsSafe : (v v' : World) → Expires v v' → IsSafe v → IsSafe v'
kept-IsSafe _ _ (expires w) p = record { stored = p.stored; offered = p.offered; created = refl }

abbrev expired : World
expired = record ((reconcile cluster sample_request three_nodes).1) { jobs = [] }

abbrev after_two : World
after_two = (reconcile cluster sample_request expired).1

two_rounds : Reachable cluster Expires three_nodes after_two
two_rounds =
    next (next (next here (reconciles sample_request three_nodes)) (others (expires _)))
      (reconciles sample_request expired)

jobs_of_good_example : IsSafe after_two
jobs_of_good_example =
    jobs_of_good cluster is_listed IsSafe Expires cluster-IsWarrant cluster-IsOffering
      cluster-KeepsNames IsSafe-IsScope kept-IsSafe three_nodes-IsSafe two_rounds
