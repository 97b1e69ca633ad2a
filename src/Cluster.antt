-- ===== src/Cluster.antt =====
-- What the controller uses of code that is not its own: the Kubernetes API client, the `oc` command
-- line, JSON, hashing, sorting, merging and the environment, as one record of operations over an
-- abstract world. A call of the client takes the world and returns the new one.
use openshift_upgrade_accele.Prelude.{ℕ, String, Bool, Option, List}
use openshift_upgrade_accele.Api.{Toleration, LabelSelector, UpgradeAccelerator}
use openshift_upgrade_accele.Exec.{Error, Result}

abbrev pub Labels : Type 0
Labels = List (String × String)

pub record NamespacedName : Type 0 where
  pub namespace : String
  pub name : String

-- corev1.Node
pub record Node : Type 0 where
  pub name : String
  pub labels : Labels

-- machineconfigv1.MachineConfigPool
pub record MachineConfigPool : Type 0 where
  pub name : String
  pub node_selector : Option LabelSelector

-- configv1.OperandVersion
pub record OperandVersion : Type 0 where
  pub name : String
  pub version : String

-- configv1.ClusterOperator
pub record ClusterOperator : Type 0 where
  pub name : String
  pub versions : List OperandVersion

-- configv1.ClusterVersion, its `.status.desired`
pub record ClusterVersion : Type 0 where
  pub desired_version : String
  pub desired_image : String

-- configv1.Infrastructure; `.status.platformStatus` is a pointer.
pub record Infrastructure : Type 0 where
  pub platform_status : Option String

pub record EnvVar : Type 0 where
  pub name : String
  pub value : String

pub record VolumeMount : Type 0 where
  pub name : String
  pub mount_path : String
  pub read_only : Bool

pub data VolumeSource : Type 0 where
  config_map : (name : String) → VolumeSource
  host_path : (path type_name : String) → VolumeSource

pub record Volume : Type 0 where
  pub name : String
  pub source : VolumeSource

pub record Container : Type 0 where
  pub name : String
  pub image : String
  pub command : List String
  pub args : List String
  pub env : List EnvVar
  pub tty : Bool
  pub privileged : Bool
  pub run_as_user : ℕ
  pub seccomp_profile : String
  pub volume_mounts : List VolumeMount

-- batchv1.Job; `owner` is the name of the controlling UpgradeAccelerator.
pub record Job : Type 0 where
  pub name : String
  pub namespace : String
  pub labels : Labels
  pub owner : String
  pub ttl_seconds_after_finished : ℕ
  pub restart_policy : String
  pub host_pid : Bool
  pub host_network : Bool
  pub host_ipc : Bool
  pub node_name : String
  pub tolerations : List Toleration
  pub container : Container
  pub volumes : List Volume
  pub succeeded : ℕ

-- corev1.ConfigMap
pub record ConfigMap : Type 0 where
  pub name : String
  pub namespace : String
  pub labels : Labels
  pub owner : String
  pub entries : List (String × String)

-- corev1.Namespace
pub record Namespace : Type 0 where
  pub name : String
  pub labels : Labels

-- internal/controller/upgradeaccelerator_types.go: ReleaseImageTags
pub record ReleaseImageTags : Type 0 where
  pub name : String
  pub from : String

-- A run of `exec.Command("/bin/sh", "-c", line)`: the error of each step, if it fails, and the lines
-- that the scanner reads.
pub record Process : Type 0 where
  pub stdout_pipe : Option Error
  pub start : Option Error
  pub lines : List String
  pub scan : Option Error
  pub kill : Option Error
  pub wait : Option Error

pub record Env (W : Type 0) : Type 0 where
  -- client.Client, one field for each kind of object
  pub get_upgrade_accelerator : NamespacedName → W → Result UpgradeAccelerator × W
  -- The object's resource version guards the update, so the response is the object that was sent.
  pub update_status : UpgradeAccelerator → W → Result (Unit {0}) × W
  pub list_nodes : Labels → W → Result (List Node) × W
  pub list_machine_config_pools : W → Result (List MachineConfigPool) × W
  pub get_infrastructure : String → W → Result Infrastructure × W
  pub get_cluster_operator : NamespacedName → W → Result ClusterOperator × W
  pub get_cluster_version : NamespacedName → W → Result ClusterVersion × W
  pub get_namespace : String → W → Result Namespace × W
  pub create_namespace : Namespace → W → Result (Unit {0}) × W
  pub get_config_map : NamespacedName → W → Result ConfigMap × W
  pub create_config_map : ConfigMap → W → Result (Unit {0}) × W
  pub update_config_map : ConfigMap → W → Result (Unit {0}) × W
  pub get_job : NamespacedName → W → Result Job × W
  pub create_job : Job → W → Result (Unit {0}) × W
  pub list_jobs : String → Labels → W → Result (List Job) × W
  -- time.Now, the process table, and proxy.ReadProxyVarsFromEnv
  pub now : W → ℕ
  pub run_shell : String → W → Process × W
  pub proxy_vars : List EnvVar
  -- encoding/json
  pub unmarshal_images : String → Result (List ReleaseImageTags)
  pub marshal_images : List ReleaseImageTags → Result String
  -- crypto/sha256, in hexadecimal digits
  pub sha256_hex : String → String
  -- sort.Sort with the given `Less`, and unicode.ToUpper
  pub sort : (String → String → Bool) → List String → List String
  pub to_upper : ℕ → ℕ
  -- dario.cat/mergo: the first argument, with what it leaves empty taken from the second
  pub merge : LabelSelector → LabelSelector → Result LabelSelector
  -- the order in which `range` goes through a map, in the first and in the second loop
  pub range_merge : List (String × LabelSelector) → List (String × LabelSelector)
  pub range_list : List (String × LabelSelector) → List (String × LabelSelector)
