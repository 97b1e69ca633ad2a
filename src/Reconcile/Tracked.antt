-- ===== src/Reconcile/Tracked.antt =====
-- internal/controller/upgradeaccelerator_controller.go: no node is lost between the lists.
pub mod Whole
use openshift_upgrade_accele.Prelude.{
  ℕ, zero, suc, String, ◌≡◌, Bool, true, false, ◌||◌, ◌==◌, Option, some, List, [], ◌∷◌, contains,
  contains-append, arith, eq_iff, Bool-cases, Option-cases, inl, inr, is_empty, length,
}
use openshift_upgrade_accele.Api.{UpgradeAccelerator}
use openshift_upgrade_accele.Cluster.{Env, Job}
use openshift_upgrade_accele.Exec.{State, modify}
use openshift_upgrade_accele.Exec.Keeps.{
  Keeps, Keeps-bind, Keeps-when, Keeps-pure, Keeps-get, Keeps-modify, Keeps-or_crash, keeps_rules,
}
use openshift_upgrade_accele.Conditions.{status_update, append_condition}
use openshift_upgrade_accele.Jobs.{PullJob, create_pull_job}
use openshift_upgrade_accele.Schedule.{
  is_zero, rounds, cut, unwait_primer, overwrite, fill_waiting, settle_job, reset_warming,
  take_batch,
}
use openshift_upgrade_accele.Schedule.Cut.{
  cut-without, cut-panic, contains-without_ne, contains-unwait_primer,
}
use openshift_upgrade_accele.Schedule.Waiting.{contains-fill_waiting}
use openshift_upgrade_accele.Schedule.Settle.{preheated-settle_job, warming-settle_job}
use openshift_upgrade_accele.Reconcile.Reply.{Reply, update_nodes, save}
use openshift_upgrade_accele.Reconcile.Scheduling.{
  schedule_node, start_warming, visit_primer, visit_primers, primer_phase, visit_next, visit_batch,
  visit_shared, visit_nodes, next_phase,
}
use openshift_upgrade_accele.Reconcile.Checks.{waiting_phase}
use openshift_upgrade_accele.Reconcile.Run.{
  scan_job, scan_jobs, settle, job_phase, completion_phase, schedule,
}
use openshift_upgrade_accele.Versions.{OpenShiftClusterVersionState}

-- The node waits, warms or is preheated.
abbrev pub tracked : String → UpgradeAccelerator → Bool
tracked x ua =
    contains ua.status.nodes_waiting x
    || contains ua.status.nodes_warming x
    || contains ua.status.nodes_preheated x

-- It does, and the spec has no positive `Parallelism`.
pub record IsTracked (x : String) (ua : UpgradeAccelerator) : Type 0 where
  pub listed : tracked x ua ≡ true
  pub unbatched : rounds ua.spec.parallelism ≡ 0

pub contains-cut :
    (waiting : List String) (node : String) {rest : List String} (y : String)
    → cut waiting node ≡ some rest
    → node == y ≡ false
    → contains rest y ≡ contains waiting y
contains-cut waiting node y e h = elim (Bool-cases (contains waiting node)) [
  | inl there ↦ ground (arith, cut-without waiting node there, contains-without_ne node waiting y h)
  | inr absent ↦ ground (arith, cut-panic waiting node absent)
]

-- A way to take a node out of the waiting list, as far as the others go.
pub record KeepsOthers (unwait : List String → Option (List String)) (node : String) : Type 0 where
  pub at :
      (waiting : List String) {rest : List String} (y : String)
      → unwait waiting ≡ some rest
      → node == y ≡ false
      → contains rest y ≡ contains waiting y

pub cut-KeepsOthers : (node : String) → KeepsOthers (λ waiting. cut waiting node) node
cut-KeepsOthers node = record { at = λ waiting y e h. contains-cut waiting node y e h }

pub unwait_primer-KeepsOthers :
    (node : String) → KeepsOthers (λ waiting. unwait_primer waiting node) node
unwait_primer-KeepsOthers node = record {
  at = λ waiting y e h. contains-unwait_primer waiting node y e h;
}

pub tracked-settle_job :
    (ua : UpgradeAccelerator) (job : Job) (x : String)
    → tracked x ua ≡ true
    → tracked x (update_nodes (λ status. (settle_job status job).0) ua) ≡ true
unfolding settle_job
tracked-settle_job ua job x h = ground (
  arith,
  h,
  preheated-settle_job ua.status job x,
  warming-settle_job ua.status job,
  contains-without_ne job.node_name ua.status.nodes_warming x,
)

module _ {W : Type 0} (env : Env W) (x : String) where
  pub save-Keeps : Keeps (IsTracked x) (save env)
  unfolding save status_update
  save-Keeps = record {
    at = λ s p. record {
      listed = ground (arith, p.listed);
      unbatched = ground (arith, p.unbatched);
    };
  }

  pub append_condition-Keeps :
      (type_name status reason message : String)
      → Keeps (IsTracked x) (append_condition env type_name status reason message)
  unfolding append_condition status_update
  append_condition-Keeps type_name status reason message = record {
    at = λ s p. record {
      listed = ground (arith, p.listed);
      unbatched = ground (arith, p.unbatched);
    };
  }

  pub create_pull_job-Keeps :
      (pull_job : PullJob) → Keeps (IsTracked x) (create_pull_job env pull_job)
  unfolding create_pull_job
  create_pull_job-Keeps pull_job = record {
    at = λ s p. record {
      listed = ground (arith, p.listed);
      unbatched = ground (arith, p.unbatched);
    };
  }

  module _ (namespace : String) where
    pub schedule_node-Keeps :
        (node : String) → Keeps (IsTracked x) (schedule_node env namespace node)
    unfolding schedule_node
    schedule_node-Keeps node = search (keeps_rules, create_pull_job-Keeps) depth 12

    pub start_warming-Keeps :
        (unwait : List String → Option (List String)) (node : String)
        → KeepsOthers unwait node
        → Keeps (IsTracked x) (start_warming env namespace unwait node)
    unfolding start_warming
    start_warming-Keeps unwait node k = record {
      at = λ s p. elim (Option-cases (unwait s.ua.status.nodes_waiting)) [
        | inl e ↦ rw e (record {
          listed = ground (
            arith,
            p.listed,
            contains-append s.ua.status.nodes_warming (node ∷ []) x,
            eq_iff node x,
          );
          unbatched = p.unbatched;
        })
        | inr (rest, e) ↦ rw e (
            save-Keeps.at _ (record {
              listed = ground (
                arith,
                p.listed,
                k.at s.ua.status.nodes_waiting {rest = rest} x e,
                contains-append s.ua.status.nodes_warming (node ∷ []) x,
                eq_iff node x,
              );
              unbatched = p.unbatched;
            }))
      ];
    }
