-- ===== src/Tests/Reach.antt =====
-- The theorem on reachable worlds at the sample cluster, where a Job finishes between two
-- reconciliations.
use openshift_upgrade_accele.Prelude.{
  refl, Bool, List, [], ◌∷◌, some, none, Option, keep, Bool-cases, inl, inr, arith,
}
use openshift_upgrade_accele.Api.{UpgradeAccelerator}
use openshift_upgrade_accele.Cluster.{Job}
use openshift_upgrade_accele.Reconcile.Run.{reconcile}
use openshift_upgrade_accele.Reconcile.Warrant.{
  IsWarrant, IsJobWarrant, OfPreheated, Stored, Warrants,
}
use openshift_upgrade_accele.Reconcile.Reachable.{
  reconciles, others, Reachable, here, next, IsCounted, preheated-IsCounted,
}
use openshift_upgrade_accele.Samples.{World, cluster, sample, sample_request, world_of, plain_node}
use openshift_upgrade_accele.Tests.Objects.{done_job, is_listed}

abbrev CountedIn : Option UpgradeAccelerator → Type 0
CountedIn none = Unit {0}
CountedIn (some ua) = IsCounted is_listed ua.status.nodes_preheated

record IsSound (w : World) : Type 0 where
  stored : CountedIn w.accelerator
  finished : Warrants is_listed w.jobs

warrants-keep :
    (p : Job → Bool) (jobs : List Job) → Warrants is_listed jobs → Warrants is_listed (keep p jobs)
warrants-keep p [] h = h
warrants-keep p (job ∷ jobs) (first, rest) = elim (Bool-cases (p job)) [
  | inl kept ↦ rw kept (first, warrants-keep p jobs rest)
  | inr dropped ↦ rw dropped (warrants-keep p jobs rest)
]

sample-Stored :
    (o : Option UpgradeAccelerator)
    → CountedIn o
    → Stored
        (OfPreheated (IsCounted is_listed))
        (cluster.get_upgrade_accelerator sample_request
          (record (world_of sample []) { accelerator = o })).0
sample-Stored none h = tt
sample-Stored (some ua) h = h

cluster-IsWarrant : IsWarrant cluster IsSound (OfPreheated (IsCounted is_listed))
cluster-IsWarrant = record {
  fetched = λ key w p. sample-Stored w.accelerator p.stored;
  by_update = λ ua w q p. record { stored = q; finished = p.finished };
  by_fetch = λ key w p. p;
  by_list_nodes = λ labels w p. p;
  by_list_pools = λ w p. p;
  by_infrastructure = λ name w p. p;
  by_operator = λ key w p. p;
  by_version = λ key w p. p;
  by_namespace = λ name w p. p;
  by_create_namespace = λ n w p. record { stored = p.stored; finished = p.finished };
  by_config_map = λ key w p. p;
  by_create_config_map = λ m w p. record { stored = p.stored; finished = p.finished };
  by_update_config_map = λ m w p. record { stored = p.stored; finished = p.finished };
  by_shell = λ line w p. p;
}

cluster-IsJobWarrant : IsJobWarrant cluster is_listed IsSound
cluster-IsJobWarrant = record {
  listed = λ namespace labels w p. warrants-keep _ w.jobs p.finished;
  by_job = λ key w p. p;
  by_create_job = λ job w new p. record {
    stored = p.stored;
    finished = (λ h. ground (arith, h, new), p.finished);
  };
  by_list_jobs = λ namespace labels w p. p;
}

-- A Job on the node a finishes.
data Finishes : World → World → Type 0 where
  finishes : (w : World) → Finishes w (record w { jobs = done_job "a" ∷ w.jobs })

kept-IsSound : (v v' : World) → Finishes v v' → IsSound v → IsSound v'
kept-IsSound _ _ (finishes w) p = record { stored = p.stored; finished = (λ h. refl, p.finished) }

abbrev begun : World
begun = world_of sample (plain_node "a" ∷ plain_node "b" ∷ [])

abbrev finished : World
finished =
    let w = (reconcile cluster sample_request begun).1 in record w { jobs = done_job "a" ∷ w.jobs }

abbrev after_two : World
after_two = (reconcile cluster sample_request finished).1

two_rounds : Reachable cluster Finishes begun after_two
two_rounds =
    next (next (next here (reconciles sample_request begun)) (others (finishes _)))
      (reconciles sample_request finished)

preheated-IsCounted_example :
    Stored
      (OfPreheated (IsCounted is_listed))
      (cluster.get_upgrade_accelerator sample_request after_two).0
preheated-IsCounted_example =
    preheated-IsCounted cluster is_listed IsSound Finishes cluster-IsWarrant cluster-IsJobWarrant
      sample_request kept-IsSound
      (record { stored = record { once = tt; each = λ name h. cc }; finished = tt }) two_rounds
