-- ===== src/Schedule.antt =====
-- internal/controller/upgradeaccelerator_controller.go: what `Reconcile` does to the node lists of
-- the status, without the calls of the client. `none` is a panic.
pub mod Waiting
pub mod Cut
pub mod Overwrite
pub mod Alternate
pub mod Settle
use openshift_upgrade_accele.Prelude.{
  ℕ, zero, suc, ℤ, pos, negsuc, String, Bool, true, false, not, ◌&&◌, ◌||◌, Option, none, some,
  List, [], ◌∷◌, ◌++◌, ltb, nat_eq, if◌then◌else◌, length, take, drop, contains, index, is_empty,
}
use openshift_upgrade_accele.Api.{UpgradeAcceleratorStatus}
use openshift_upgrade_accele.Cluster.{Job}

-- The loop that fills the waiting list: the list, and whether it was changed.
unfoldable pub fill_waiting :
    (warming preheated waiting targeted : List String) → List String × Bool
fill_waiting warming preheated waiting [] = (waiting, false)
fill_waiting warming preheated waiting (node ∷ nodes) =
    let new =
      not (contains warming node) && not (contains preheated node) && not (contains waiting node) in
    let (rest, changed) =
      fill_waiting warming preheated (if new then waiting ++ (node ∷ []) else waiting) nodes in
    (rest, new || changed)

-- `append(names[:slices.Index(names, name)], names[slices.Index(names, name)+1:]...)`; a slice
-- bound of -1 panics.
unfoldable pub cut : List String → String → Option (List String)
cut names name = elim (index names name) [
  | none ↦ none
  | some i ↦ some (take i names ++ drop (suc i) names)
]

-- How a primer node leaves the waiting list.
unfoldable pub unwait_primer : List String → String → Option (List String)
unfolding cut
unwait_primer waiting node =
    if nat_eq (length waiting) 1 && contains waiting node
    then some []
    else if ltb 1 (length waiting)
    then cut waiting node
    else some waiting

-- The loop over `Parallelism`: the batch and what stays waiting. `NodesWaiting[0]` of an empty list
-- panics.
unfoldable pub take_batch : ℕ → List String → Option (List String × List String)
take_batch zero waiting = some ([], waiting)
take_batch (suc n) [] = none
take_batch (suc n) (node ∷ waiting) = elim (take_batch n waiting) [
  | none ↦ none
  | some (batch, rest) ↦ some (node ∷ batch, rest)
]

-- The rounds of a loop up to a signed number.
abbrev pub rounds : ℤ → ℕ
rounds (pos n) = n
rounds (negsuc n) = zero

abbrev pub is_zero : ℤ → Bool
is_zero (pos n) = nat_eq n 0
is_zero (negsuc n) = false

-- A node is scheduled unless it is in both lists.
unfoldable pub may_schedule : UpgradeAcceleratorStatus → String → Bool
may_schedule status node =
    not (contains status.nodes_warming node) || not (contains status.nodes_preheated node)

-- Every primer node is preheated.
unfoldable pub all_preheated : (preheated primers : List String) → Bool
all_preheated preheated [] = true
all_preheated preheated (node ∷ nodes) = contains preheated node && all_preheated preheated nodes

-- The first test for completion, before anything is scheduled.
unfoldable pub is_completed : UpgradeAcceleratorStatus → Bool
is_completed status =
    nat_eq (length status.nodes_selected) (length status.nodes_preheated)
    && is_empty status.nodes_waiting

-- The second one, at the end.
unfoldable pub is_all_preheated : UpgradeAcceleratorStatus → Bool
is_all_preheated status =
    is_empty status.nodes_waiting
    && is_empty status.nodes_warming
    && nat_eq (length status.nodes_preheated) (length status.nodes_selected)

abbrev or_same : List String → Option (List String) → List String
or_same names none = names
or_same names (some names') = names'

-- A succeeded Job moves its node to the preheated nodes: the status, and whether it was changed.
unfoldable pub settle_job : UpgradeAcceleratorStatus → Job → UpgradeAcceleratorStatus × Bool
unfolding cut
settle_job status job =
    let node = job.node_name in
    let fresh = not (contains status.nodes_preheated node) in
    let was_warming = contains status.nodes_warming node in
    if ltb 0 job.succeeded
    then (
      record status {
        nodes_preheated =
            if fresh then status.nodes_preheated ++ (node ∷ []) else status.nodes_preheated;
        nodes_warming =
            if was_warming
            then or_same status.nodes_warming (cut status.nodes_warming node)
            else status.nodes_warming;
      },
      fresh || was_warming,
    )
    else (status, false)

-- The scan of all the Jobs, as far as the status in memory goes.
unfoldable pub settle_jobs : UpgradeAcceleratorStatus → List Job → UpgradeAcceleratorStatus
unfolding settle_job
settle_jobs status [] = status
settle_jobs status (job ∷ jobs) = settle_jobs (settle_job status job).0 jobs

-- With no Job at all, the warming nodes wait again.
unfoldable pub reset_warming : UpgradeAcceleratorStatus → UpgradeAcceleratorStatus
reset_warming status = record status {
  nodes_waiting = status.nodes_waiting ++ status.nodes_warming;
  nodes_warming = [];
}

-- Nothing is selected, warming, waiting or preheated.
unfoldable pub reset_nodes : UpgradeAcceleratorStatus → UpgradeAcceleratorStatus
reset_nodes status = record status {
  nodes_selected = [];
  nodes_preheated = [];
  nodes_warming = [];
  nodes_waiting = [];
  primer_nodes = [];
}

-- The backing array behind two slices, after an in-place `append` gave it a shorter front.
unfoldable pub overwrite : (front backing : List String) → List String
overwrite front backing = front ++ drop (length front) backing
