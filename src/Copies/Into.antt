-- ===== src/Copies/Into.antt =====
-- api/v1alpha1/zz_generated.deepcopy.go: `X_into` is DeepCopyInto of a type X, the value that all of
-- `out` gets, and `X_copy` is DeepCopy. The DeepCopyInto of the library's types are parameters.
use openshift_upgrade_accele.Prelude.{false, Option, none, some, ℤ}
use openshift_upgrade_accele.Api.{OverrideReleaseVersion, UpgradeAcceleratorConfigRandomWait}
use openshift_upgrade_accele.Copies.Memory.{
  Imported, Pointer, SelectorAt, SchedulingAt, ConfigAt, SpecAt, StatusAt, AcceleratorAt, ListAt,
}
use openshift_upgrade_accele.Copies.Cells.{
  Cmd, pure, ◌>>=◌, tolerations_place, conditions_place, items_place, label_selector_place,
  override_place, random_wait_place, selector_place, scheduling_place, config_place, spec_place,
  status_place, accelerator_place, list_place,
}
use openshift_upgrade_accele.Copies.Copying.{Copier, strings_copy, elements_copy, new_copy}

pub record Library (A : Imported) : Type 0 where
  pub object_meta : Copier A A.ObjectMeta
  pub list_meta : Copier A A.ListMeta
  pub label_selector : Copier A A.LabelSelector
  pub toleration : Copier A A.Toleration
  pub condition : Copier A A.Condition

module _ {A : Imported} where
  -- `*out = *in`
  unfoldable pub override_into : OverrideReleaseVersion → Cmd A OverrideReleaseVersion
  override_into s = pure s

  abbrev pub override_copier : Copier A OverrideReleaseVersion
  override_copier = record {
    zero_value = record { version = ""; image = "" };
    into = override_into;
  }

  unfoldable pub override_copy : Pointer → Cmd A Pointer
  override_copy = new_copy override_place override_copier

  unfoldable pub random_wait_into :
      UpgradeAcceleratorConfigRandomWait → Cmd A UpgradeAcceleratorConfigRandomWait
  random_wait_into s = pure s

  abbrev pub random_wait_copier : Copier A UpgradeAcceleratorConfigRandomWait
  random_wait_copier = record {
    zero_value = record { enabled = false; min_duration = ℤ.pos 0; max_duration = ℤ.pos 0 };
    into = random_wait_into;
  }

  unfoldable pub random_wait_copy : Pointer → Cmd A Pointer
  random_wait_copy = new_copy random_wait_place random_wait_copier

module _ {A : Imported} (l : Library A) where
  unfoldable pub selector_into : SelectorAt → Cmd A SelectorAt
  selector_into s = do
    node_selector ← new_copy label_selector_place l.label_selector s.node_selector
    pools ← strings_copy s.machine_config_pools
    pure (record s { node_selector = node_selector; machine_config_pools = pools })

  abbrev pub selector_copier : Copier A SelectorAt
  selector_copier = record {
    zero_value = record { node_selector = none; machine_config_pools = none };
    into = selector_into;
  }

  unfoldable pub selector_copy : Pointer → Cmd A Pointer
  selector_copy = new_copy selector_place selector_copier

  unfoldable pub scheduling_into : SchedulingAt → Cmd A SchedulingAt
  scheduling_into s = do
    tolerations ← elements_copy tolerations_place l.toleration s.tolerations
    pure (record s { tolerations = tolerations })

  abbrev pub scheduling_copier : Copier A SchedulingAt
  scheduling_copier = record {
    zero_value = record { tolerations = none; namespace = "" };
    into = scheduling_into;
  }

  unfoldable pub scheduling_copy : Pointer → Cmd A Pointer
  scheduling_copy = new_copy scheduling_place scheduling_copier

  unfoldable pub config_into : ConfigAt → Cmd A ConfigAt
  config_into s = do
    scheduling ← scheduling_into s.scheduling
    pure (record s {
      scheduling = scheduling;
      random_wait = s.random_wait;
      override_release_version = s.override_release_version;
    })

  abbrev pub config_copier : Copier A ConfigAt
  config_copier = record {
    zero_value = record {
      scheduling = scheduling_copier.zero_value;
      random_wait = (random_wait_copier {A = A}).zero_value;
      job_image = "";
      override_release_version = (override_copier {A = A}).zero_value;
      pull_script_config_map_name = "";
    };
    into = config_into;
  }

  unfoldable pub config_copy : Pointer → Cmd A Pointer
  config_copy = new_copy config_place config_copier

  unfoldable pub spec_into : SpecAt → Cmd A SpecAt
  spec_into s = do
    selector ← selector_into s.selector
    config ← config_into s.config
    pure (record s { selector = selector; config = config })

  abbrev pub spec_copier : Copier A SpecAt
  spec_copier = record {
    zero_value = record {
      state = "";
      selector = selector_copier.zero_value;
      prime = false;
      parallelism = ℤ.pos 0;
      config = config_copier.zero_value;
    };
    into = spec_into;
  }

  unfoldable pub spec_copy : Pointer → Cmd A Pointer
  spec_copy = new_copy spec_place spec_copier

  unfoldable pub status_into : StatusAt → Cmd A StatusAt
  status_into s = do
    conditions ← elements_copy conditions_place l.condition s.conditions
    selected ← strings_copy s.nodes_selected
    preheated ← strings_copy s.nodes_preheated
    warming ← strings_copy s.nodes_warming
    waiting ← strings_copy s.nodes_waiting
    primers ← strings_copy s.primer_nodes
    pure (record s {
      conditions = conditions;
      nodes_selected = selected;
      nodes_preheated = preheated;
      nodes_warming = warming;
      nodes_waiting = waiting;
      primer_nodes = primers;
    })

  abbrev pub status_copier : Copier A StatusAt
  status_copier = record {
    zero_value = record {
      cluster_infrastructure = "";
      current_version = "";
      target_version = "";
      desired_version = "";
      desired_image = "";
      last_completed_version = "";
      conditions = none;
      nodes_selected = none;
      nodes_preheated = none;
      nodes_warming = none;
      nodes_waiting = none;
      primer_nodes = none;
    };
    into = status_into;
  }

  unfoldable pub status_copy : Pointer → Cmd A Pointer
  status_copy = new_copy status_place status_copier

  unfoldable pub accelerator_into : AcceleratorAt A → Cmd A (AcceleratorAt A)
  accelerator_into s = do
    object_meta ← l.object_meta.into s.object_meta
    spec ← spec_into s.spec
    status ← status_into s.status
    pure (record s {
      type_meta = s.type_meta;
      object_meta = object_meta;
      spec = spec;
      status = status;
    })

  abbrev pub accelerator_copier : Copier A (AcceleratorAt A)
  accelerator_copier = record {
    zero_value = record {
      type_meta = record { kind = ""; api_version = "" };
      object_meta = l.object_meta.zero_value;
      spec = spec_copier.zero_value;
      status = status_copier.zero_value;
    };
    into = accelerator_into;
  }

  unfoldable pub accelerator_copy : Pointer → Cmd A Pointer
  accelerator_copy = new_copy accelerator_place accelerator_copier

  unfoldable pub list_into : ListAt A → Cmd A (ListAt A)
  list_into s = do
    list_meta ← l.list_meta.into s.list_meta
    items ← elements_copy items_place accelerator_copier s.items
    pure (record s { type_meta = s.type_meta; list_meta = list_meta; items = items })

  abbrev pub list_copier : Copier A (ListAt A)
  list_copier = record {
    zero_value = record {
      type_meta = record { kind = ""; api_version = "" };
      list_meta = l.list_meta.zero_value;
      items = none;
    };
    into = list_into;
  }

  unfoldable pub list_copy : Pointer → Cmd A Pointer
  list_copy = new_copy list_place list_copier

-- A value of the interface runtime.Object that is not nil: a pointer, nil or not, with its type.
pub data RuntimeObject : Type 0 where
  accelerator_pointer : Pointer → RuntimeObject
  list_pointer : Pointer → RuntimeObject

module _ {A : Imported} (l : Library A) where
  -- `if c := in.DeepCopy(); c != nil { return c }; return nil`
  abbrev not_nil : (Pointer → RuntimeObject) → Pointer → Option RuntimeObject
  not_nil object none = none
  not_nil object (some a) = some (object (some a))

  unfoldable pub accelerator_object : Pointer → Cmd A (Option RuntimeObject)
  accelerator_object p = do
    c ← accelerator_copy l p
    pure (not_nil RuntimeObject.accelerator_pointer c)

  unfoldable pub list_object : Pointer → Cmd A (Option RuntimeObject)
  list_object p = do c ← list_copy l p; pure (not_nil RuntimeObject.list_pointer c)
