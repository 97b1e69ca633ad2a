-- ===== src/Manager.antt =====
-- internal/controller/upgradeaccelerator_manager.go, and `ignoreDeletionPredicate` of
-- upgradeaccelerator_controller.go: which events reach the controller, and what they enqueue. An
-- event passes if every filter of the builder lets it pass; `predicate.Funcs` lets pass what it has
-- no function for.
pub mod Laws
use openshift_upgrade_accele.Prelude.{
  ℕ, String, Bool, true, not, ◌&&◌, Option, none, some, List, [], ◌∷◌, nat_eq, map,
}
use openshift_upgrade_accele.Api.{UpgradeAccelerator, UpgradeAcceleratorList}
use openshift_upgrade_accele.Cluster.{ClusterVersion, ClusterOperator, NamespacedName}
use openshift_upgrade_accele.Exec.{Result, ok, err}
use openshift_upgrade_accele.Versions.{
  has_cluster_version_changed, has_machine_config_cluster_operator_changed,
}

-- client.Object, by the types that the filters tell apart.
pub data ObjectKind : Type 0 where
  cluster_version : ClusterVersion → ObjectKind
  cluster_operator : ClusterOperator → ObjectKind
  other : ObjectKind

pub record Object : Type 0 where
  pub generation : ℕ
  pub kind : ObjectKind

pub data Event : Type 0 where
  create : Object → Event
  update : (old new : Object) → Event
  delete : (object : Object) (state_unknown : Bool) → Event
  generic : Object → Event

-- The type assertions on the old object of an update. It has the type of the new one.
abbrev cluster_version_of : Object → Option ClusterVersion
cluster_version_of o = elim o.kind [ cluster_version v ↦ some v | _ ↦ none ]

abbrev cluster_operator_of : Object → Option ClusterOperator
cluster_operator_of o = elim o.kind [ cluster_operator c ↦ some c | _ ↦ none ]

unfoldable pub cluster_version_filter : Event → Bool
cluster_version_filter (update old new) = elim new.kind [
  | cluster_version v ↦ has_cluster_version_changed (cluster_version_of old) (some v)
  | _ ↦ true
]
cluster_version_filter (create o) = true
cluster_version_filter (delete o unknown) = true
cluster_version_filter (generic o) = true

unfoldable pub cluster_operator_filter : Event → Bool
cluster_operator_filter (update old new) = elim new.kind [
  | cluster_operator c ↦
      has_machine_config_cluster_operator_changed (cluster_operator_of old) (some c)
  | _ ↦ true
]
cluster_operator_filter (create o) = true
cluster_operator_filter (delete o unknown) = true
cluster_operator_filter (generic o) = true

unfoldable pub ignore_deletion_predicate : Event → Bool
ignore_deletion_predicate (update old new) = not (nat_eq old.generation new.generation)
ignore_deletion_predicate (delete o unknown) = not unknown
ignore_deletion_predicate (create o) = true
ignore_deletion_predicate (generic o) = true

abbrev request_of : UpgradeAccelerator → NamespacedName
request_of ua = record { namespace = ua.namespace; name = ua.name }

-- The map functions of the two watches, over the UpgradeAccelerators that the client lists.
unfoldable pub cluster_version_requests :
    Result UpgradeAcceleratorList → Object → List NamespacedName
cluster_version_requests (err e) o = []
cluster_version_requests (ok list) o = elim o.kind [
  | cluster_version v ↦ map request_of list.items
  | _ ↦ []
]

unfoldable pub cluster_operator_requests :
    Result UpgradeAcceleratorList → Object → List NamespacedName
cluster_operator_requests (err e) o = []
cluster_operator_requests (ok list) o = elim o.kind [
  | cluster_operator c ↦ map request_of list.items
  | _ ↦ []
]

-- The types of which the builder is told.
pub data Kind : Type 0 where
  upgrade_accelerator : Kind
  config_map : Kind
  job : Kind
  cluster_version_kind : Kind
  cluster_operator_kind : Kind

-- A kind that is watched, and what an event on an object of it enqueues.
pub record Watch : Type 0 where
  pub kind : Kind
  pub requests : Result UpgradeAcceleratorList → Object → List NamespacedName

-- What the builder of a controller is given.
pub record Controller : Type 0 where
  pub name : String
  pub reconciled : Kind
  pub owned : List Kind
  pub watches : List Watch
  pub filters : List (Event → Bool)

unfoldable pub setup_with_manager : Controller
setup_with_manager = record {
  name = "upgradeaccelerator";
  reconciled = upgrade_accelerator;
  owned = config_map ∷ job ∷ [];
  watches =
      record { kind = cluster_version_kind; requests = cluster_version_requests }
      ∷ record { kind = cluster_operator_kind; requests = cluster_operator_requests }
      ∷ [];
  filters = cluster_version_filter ∷ cluster_operator_filter ∷ ignore_deletion_predicate ∷ [];
}

abbrev pub all_pass : List (Event → Bool) → Event → Bool
all_pass [] e = true
all_pass (filter ∷ filters) e = filter e && all_pass filters e

-- An event reaches the controller if every filter lets it pass.
unfoldable pub passes : Event → Bool
unfolding setup_with_manager cluster_version_filter cluster_operator_filter
    ignore_deletion_predicate
passes e = all_pass setup_with_manager.filters e
