-- ===== src/Schedule/Settle.antt =====
-- internal/controller/upgradeaccelerator_controller.go: what the scan of the Jobs does to the lists.
use openshift_upgrade_accele.Prelude.{
  String, ◌≡◌, Bool, not, ◌&&◌, ◌||◌, List, [], ◌∷◌, ◌==◌, if◌then◌else◌, any, contains,
  contains-append, Distinct, ltb, arith, eq_iff,
}
use openshift_upgrade_accele.Api.{UpgradeAcceleratorStatus}
use openshift_upgrade_accele.Cluster.{Job}
use openshift_upgrade_accele.Schedule.{settle_job, settle_jobs}
use openshift_upgrade_accele.Schedule.Cut.{without, cut-without, contains-without, without-Distinct}

-- A succeeded Job of the node.
abbrev pub succeeded_on : String → Job → Bool
succeeded_on x job = ltb 0 job.succeeded && job.node_name == x

pub preheated-settle_job :
    (status : UpgradeAcceleratorStatus) (job : Job) (x : String)
    → contains (settle_job status job).0.nodes_preheated x
      ≡ (contains status.nodes_preheated x || succeeded_on x job)
unfolding settle_job
preheated-settle_job status job x =
    ground
      (arith, contains-append status.nodes_preheated (job.node_name ∷ []) x, eq_iff job.node_name x)

pub warming-settle_job :
    (status : UpgradeAcceleratorStatus) (job : Job)
    → (settle_job status job).0.nodes_warming ≡ (
        if ltb 0 job.succeeded && contains status.nodes_warming job.node_name
        then without job.node_name status.nodes_warming
        else status.nodes_warming)
unfolding settle_job
warming-settle_job status job = ground (arith, cut-without status.nodes_warming job.node_name)

-- After the scan the preheated nodes are those that were, and those on which a Job succeeded.
pub contains-preheated_settle_jobs :
    (status : UpgradeAcceleratorStatus) (jobs : List Job) (x : String)
    → contains (settle_jobs status jobs).nodes_preheated x
      ≡ (contains status.nodes_preheated x || any (succeeded_on x) jobs)
unfolding settle_jobs
contains-preheated_settle_jobs status [] x = ground arith
contains-preheated_settle_jobs status (job ∷ jobs) x = ground (
  arith,
  contains-preheated_settle_jobs (settle_job status job).0 jobs x,
  preheated-settle_job status job x,
)

warming-settle_job-Distinct :
    (status : UpgradeAcceleratorStatus) (job : Job)
    → Distinct status.nodes_warming
    → Distinct (settle_job status job).0.nodes_warming
warming-settle_job-Distinct status job d =
    rw (warming-settle_job status job)
      (ground (arith, without-Distinct job.node_name status.nodes_warming d))

contains-warming_settle_job :
    (status : UpgradeAcceleratorStatus) (job : Job) (x : String)
    → Distinct status.nodes_warming
    → contains (settle_job status job).0.nodes_warming x
      ≡ (contains status.nodes_warming x && not (succeeded_on x job))
contains-warming_settle_job status job x d = rw (warming-settle_job status job) (
    ground (arith, contains-without job.node_name status.nodes_warming x d, eq_iff job.node_name x))

-- After the scan, where the warming nodes are distinct, they are those that were, less those on
-- which a Job succeeded.
pub contains-warming_settle_jobs :
    (status : UpgradeAcceleratorStatus) (jobs : List Job) (x : String)
    → Distinct status.nodes_warming
    → contains (settle_jobs status jobs).nodes_warming x
      ≡ (contains status.nodes_warming x && not (any (succeeded_on x) jobs))
unfolding settle_jobs
contains-warming_settle_jobs status [] x d = ground arith
contains-warming_settle_jobs status (job ∷ jobs) x d = ground (
  arith,
  contains-warming_settle_jobs (settle_job status job).0 jobs x
      (warming-settle_job-Distinct status job d),
  contains-warming_settle_job status job x d,
)
