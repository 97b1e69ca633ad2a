-- ===== src/Api.antt =====
-- api/v1alpha1/upgradeaccelerator_types.go: the custom resource. The condition type is that of
-- k8s.io/apimachinery, with the fields that the controller sets.
use openshift_upgrade_accele.Prelude.{ℕ, ℤ, String, Bool, Option, List}

pub record Toleration : Type 0 where
  pub key : String
  pub operator : String
  pub value : String
  pub effect : String

pub record OverrideReleaseVersion : Type 0 where
  pub version : String
  pub image : String

pub record UpgradeAcceleratorConfigRandomWait : Type 0 where
  pub enabled : Bool
  pub min_duration : ℤ
  pub max_duration : ℤ

pub record UpgradeAcceleratorConfigScheduling : Type 0 where
  pub tolerations : List Toleration
  pub namespace : String

pub record UpgradeAcceleratorConfig : Type 0 where
  pub scheduling : UpgradeAcceleratorConfigScheduling
  pub random_wait : UpgradeAcceleratorConfigRandomWait
  pub job_image : String
  pub override_release_version : OverrideReleaseVersion
  pub pull_script_config_map_name : String

pub record LabelSelectorRequirement : Type 0 where
  pub key : String
  pub operator : String
  pub values : List String

-- metav1.LabelSelector
pub record LabelSelector : Type 0 where
  pub match_labels : List (String × String)
  pub match_expressions : List LabelSelectorRequirement

pub record Selector : Type 0 where
  pub node_selector : Option LabelSelector
  pub machine_config_pools : List String

pub record UpgradeAcceleratorSpec : Type 0 where
  pub state : String
  pub selector : Selector
  pub prime : Bool
  pub parallelism : ℤ
  pub config : UpgradeAcceleratorConfig

-- metav1.Condition; the status is "True" or "False".
pub record Condition : Type 0 where
  pub type_name : String
  pub status : String
  pub reason : String
  pub message : String
  pub last_transition_time : ℕ

pub record UpgradeAcceleratorStatus : Type 0 where
  pub cluster_infrastructure : String
  pub current_version : String
  pub target_version : String
  pub desired_version : String
  pub desired_image : String
  pub last_completed_version : String
  pub conditions : List Condition
  pub nodes_selected : List String
  pub nodes_preheated : List String
  pub nodes_warming : List String
  pub nodes_waiting : List String
  pub primer_nodes : List String

pub record UpgradeAccelerator : Type 0 where
  pub name : String
  pub namespace : String
  pub spec : UpgradeAcceleratorSpec
  pub status : UpgradeAcceleratorStatus

pub record UpgradeAcceleratorList : Type 0 where
  pub items : List UpgradeAccelerator
