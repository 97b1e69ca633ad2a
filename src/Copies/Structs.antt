-- ===== src/Copies/Structs.antt =====
-- api/v1alpha1/upgradeaccelerator_types.go: the structs of the custom resource, whose pointers and
-- slices are parameters: references into a memory, or the values that are read through these.
use openshift_upgrade_accele.Prelude.{ℕ, ℤ, String, Bool}
use openshift_upgrade_accele.Api.{OverrideReleaseVersion, UpgradeAcceleratorConfigRandomWait}

-- A Go slice that is not nil: the elements of an array from an offset on.
pub record Slice : Type 0 where
  pub array : ℕ
  pub offset : ℕ
  pub len : ℕ
  pub capacity : ℕ

-- `Labels` stands for `*metav1.LabelSelector`, `Strings` for `[]string`.
pub record Selector (Labels Strings : Type 0) : Type 0 where
  pub node_selector : Labels
  pub machine_config_pools : Strings

-- `Tolerations` stands for `[]corev1.Toleration`.
pub record UpgradeAcceleratorConfigScheduling (Tolerations : Type 0) : Type 0 where
  pub tolerations : Tolerations
  pub namespace : String

pub record UpgradeAcceleratorConfig (Tolerations : Type 0) : Type 0 where
  pub scheduling : UpgradeAcceleratorConfigScheduling Tolerations
  pub random_wait : UpgradeAcceleratorConfigRandomWait
  pub job_image : String
  pub override_release_version : OverrideReleaseVersion
  pub pull_script_config_map_name : String

pub record UpgradeAcceleratorSpec (Labels Strings Tolerations : Type 0) : Type 0 where
  pub state : String
  pub selector : Selector Labels Strings
  pub prime : Bool
  pub parallelism : ℤ
  pub config : UpgradeAcceleratorConfig Tolerations

-- `Conditions` stands for `[]metav1.Condition`.
pub record UpgradeAcceleratorStatus (Conditions Strings : Type 0) : Type 0 where
  pub cluster_infrastructure : String
  pub current_version : String
  pub target_version : String
  pub desired_version : String
  pub desired_image : String
  pub last_completed_version : String
  pub conditions : Conditions
  pub nodes_selected : Strings
  pub nodes_preheated : Strings
  pub nodes_warming : Strings
  pub nodes_waiting : Strings
  pub primer_nodes : Strings

-- metav1.TypeMeta
pub record TypeMeta : Type 0 where
  pub kind : String
  pub api_version : String

-- `Meta` stands for metav1.ObjectMeta.
pub record UpgradeAccelerator (Meta Labels Strings Tolerations Conditions : Type 0) : Type 0 where
  pub type_meta : TypeMeta
  pub object_meta : Meta
  pub spec : UpgradeAcceleratorSpec Labels Strings Tolerations
  pub status : UpgradeAcceleratorStatus Conditions Strings

-- `Meta` stands for metav1.ListMeta, `Items` for `[]UpgradeAccelerator`.
pub record UpgradeAcceleratorList (Meta Items : Type 0) : Type 0 where
  pub type_meta : TypeMeta
  pub list_meta : Meta
  pub items : Items
