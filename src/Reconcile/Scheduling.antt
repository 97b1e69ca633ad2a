-- ===== src/Reconcile/Scheduling.antt =====
-- internal/controller/upgradeaccelerator_controller.go: the sections of `Reconcile` that create the
-- Jobs.
use Prim.Native.String
use openshift_upgrade_accele.Prelude.{
  ℕ, zero, suc, String, Bool, false, ◌&&◌, ◌||◌, not, Option, List, [], ◌∷◌, ◌++◌, ◌==◌,
  if◌then◌else◌, length, get_elem?, contains, is_empty, join_commas,
}
use openshift_upgrade_accele.Api.{UpgradeAccelerator}
use openshift_upgrade_accele.Cluster.{Env}
use openshift_upgrade_accele.Exec.{
  Exec, ◌>>=◌, ◌>>◌, pure, throw, or_crash, get, modify, when, or_else, ignore,
}
use openshift_upgrade_accele.Conditions
use openshift_upgrade_accele.Conditions.{get_condition_reason, condition_type_primer}
use openshift_upgrade_accele.Versions.{hash_string}
use openshift_upgrade_accele.Jobs.{PullJob, create_pull_job}
use openshift_upgrade_accele.Schedule.{
  cut, unwait_primer, take_batch, rounds, is_zero, may_schedule, overwrite,
}
use openshift_upgrade_accele.Reconcile.Reply.{Reply, after_error, update_nodes, save}

module _ {W : Type 0} (env : Env W) (namespace : String) where
  abbrev pub pull_job : UpgradeAccelerator → String → PullJob
  pull_job ua node = record {
    name = String.◌++◌ node (String.◌++◌ "-ua-puller-" (hash_string env ua.status.desired_version));
    namespace = namespace;
    target_node_name = node;
    release_config_map_name = "";
  }

  -- A Job for the node, unless it is in both lists: whether one was created.
  unfoldable pub schedule_node : String → Exec W Reply Bool
  unfolding may_schedule
  schedule_node node = do
    ua ← get
    if may_schedule ua.status node
        then or_else (create_pull_job env (pull_job ua node)) (λ e. throw (after_error e))
        else pure false

  -- The node starts to warm. `waiting` is the list without it; if that cannot be cut, the slice
  -- expression panics and the object in memory is lost.
  unfoldable pub start_warming :
      (List String → Option (List String)) → String → Exec W Reply (Unit {0})
  start_warming unwait node = do
    modify (
        update_nodes
          (λ status. record status { nodes_warming = status.nodes_warming ++ (node ∷ []) }))
    ua ← get
    or_crash (unwait ua.status.nodes_waiting) (λ waiting. do
      modify (update_nodes (λ status. record status { nodes_waiting = waiting }))
      save env)

  -- The body of the loop over the primer nodes.
  unfoldable pub visit_primer : String → Exec W Reply Bool
  unfolding schedule_node start_warming unwait_primer
  visit_primer node = do
    created ← schedule_node node
    when created (start_warming (λ waiting. unwait_primer waiting node) node)
    pure created

  -- `primerJobScheduled` and `primerJobStillRunning`
  unfoldable pub visit_primers :
      (scheduled still_running : Bool) → List String → Exec W Reply (Bool × Bool)
  unfolding visit_primer
  visit_primers scheduled still_running [] = pure (scheduled, still_running)
  visit_primers scheduled still_running (node ∷ nodes) = do
    ua ← get
    created ← visit_primer node
    visit_primers (scheduled || created) (still_running || contains ua.status.nodes_warming node)
        nodes

  unfoldable pub primer_phase : List String → Exec W Reply (Unit {0})
  unfolding visit_primers
  primer_phase primers = do
    ua ← get
    when (ua.spec.prime && not (is_empty primers)) (do
      (scheduled, still_running) ← visit_primers false false primers
      when scheduled (
          ignore (
            Conditions.set_condition_primer_in_progress env
              (String.◌++◌ "Primer nodes warming in progress: " (join_commas primers))))
      when still_running (
          ignore (
            Conditions.set_condition_running env Conditions.condition_reason_running_jobs_scheduled
              (String.◌++◌ "Following primer nodes currently warming: " (join_commas primers))))
      when (not still_running && not scheduled) (
          ignore (
            Conditions.set_condition_primer_completed env
              (String.◌++◌ "Primer nodes warming completed: " (join_commas primers)))))

  -- The body of the loop over the next nodes.
  unfoldable pub visit_next : String → Exec W Reply (Unit {0})
  unfolding schedule_node start_warming cut
  visit_next node = do
    created ← schedule_node node
    when created (start_warming (λ waiting. cut waiting node) node)

  -- The loop over a batch, whose slice is its own.
  unfoldable pub visit_batch : List String → Exec W Reply (Unit {0})
  unfolding visit_next
  visit_batch [] = pure tt
  visit_batch (node ∷ nodes) = do visit_next node; visit_batch nodes

  -- The loop over all the waiting nodes. The slice that it ranges over shares its array with the
  -- waiting list, and `append` moves the names behind a removed one to the front, so the name at
  -- the next position is read from the array as it then is. A status update decodes the response
  -- into the same array, with the same names. `left` positions are left, `passed` are behind, and
  -- the result is the slice at the end.
  unfoldable pub visit_shared :
      (left passed : ℕ) (backing : List String) → Exec W Reply (List String)
  unfolding visit_next overwrite
  visit_shared zero passed backing = pure backing
  visit_shared (suc left) passed backing = or_crash (get_elem? backing passed) (λ node. do
    visit_next node
    ua ← get
    visit_shared left (suc passed) (overwrite ua.status.nodes_waiting backing))

  -- The next nodes, visited: all that wait, or a batch of them.
  unfoldable pub visit_nodes : Exec W Reply (List String)
  unfolding visit_batch visit_shared take_batch
  visit_nodes = do
    ua ← get
    let waiting = ua.status.nodes_waiting
    if is_empty waiting
        then pure []
        else if is_zero ua.spec.parallelism
        then visit_shared (length waiting) 0 waiting
        else or_crash (take_batch (rounds ua.spec.parallelism) waiting) (λ (batch, rest). do
          modify (update_nodes (λ status. record status { nodes_waiting = rest }))
          visit_batch batch
          pure batch)

  unfoldable pub next_phase : Exec W Reply (Unit {0})
  unfolding visit_nodes
  next_phase = do
    ua ← get
    let reason = get_condition_reason ua condition_type_primer
    when
        (reason == Conditions.condition_reason_primer_skipped
          || reason == Conditions.condition_reason_primer_completed)
        (do
          next ← visit_nodes
          ignore (
              Conditions.set_condition_running env
                Conditions.condition_reason_running_jobs_scheduled
                (String.◌++◌ "Following nodes currently warming: " (join_commas next))))
