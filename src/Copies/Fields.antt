-- ===== src/Copies/Fields.antt =====
-- What is read at each struct of the custom resource, and that its DeepCopyInto is a deep copy.
use openshift_upgrade_accele.Prelude.{refl, String, Option, List}
use openshift_upgrade_accele.Copies.Structs.{
  Selector, UpgradeAcceleratorConfigScheduling, UpgradeAcceleratorConfig, UpgradeAcceleratorSpec,
}
use openshift_upgrade_accele.Copies.Memory.{Imported, SelectorAt, SchedulingAt, ConfigAt, SpecAt}
use openshift_upgrade_accele.Copies.Cells.{label_selector_place, tolerations_place}
use openshift_upgrade_accele.Copies.Into.{
  Library, selector_into, scheduling_into, config_into, spec_into,
}
use openshift_upgrade_accele.Copies.Copying.{new_copy, strings_copy}
use openshift_upgrade_accele.Copies.Shapes.{Shape, ◌both◌, struct}
use openshift_upgrade_accele.Copies.Pointers.{pointer, slice}
use openshift_upgrade_accele.Copies.Rules.{IsDeepCopy, both-IsDeepCopy, struct-IsDeepCopy}
use openshift_upgrade_accele.Copies.Allocated.{new_copy-IsDeepCopy}
use openshift_upgrade_accele.Copies.Slices.{elements_copy-IsDeepCopy}
use openshift_upgrade_accele.Copies.Strings.{strings_shape, strings_copy-IsDeepCopy}

-- The types of k8s.io/api and k8s.io/apimachinery: what is read at them, and that their
-- DeepCopyInto, which is generated as well, is a deep copy.
pub record Contract {A : Imported} (l : Library A) : Type 1 where
  pub ObjectMeta : Type 0
  pub ListMeta : Type 0
  pub LabelSelector : Type 0
  pub Toleration : Type 0
  pub Condition : Type 0
  pub object_meta : Shape A A.ObjectMeta ObjectMeta
  pub list_meta : Shape A A.ListMeta ListMeta
  pub label_selector : Shape A A.LabelSelector LabelSelector
  pub toleration : Shape A A.Toleration Toleration
  pub condition : Shape A A.Condition Condition
  pub object_meta_copied : IsDeepCopy object_meta l.object_meta.into
  pub list_meta_copied : IsDeepCopy list_meta l.list_meta.into
  pub label_selector_copied : IsDeepCopy label_selector l.label_selector.into
  pub toleration_copied : IsDeepCopy toleration l.toleration.into
  pub condition_copied : IsDeepCopy condition l.condition.into

module _ {A : Imported} {l : Library A} (b : Contract l) where
  abbrev pub LabelsValue : Type 0
  LabelsValue = Option b.LabelSelector

  abbrev pub StringsValue : Type 0
  StringsValue = Option (List String)

  abbrev pub TolerationsValue : Type 0
  TolerationsValue = Option (List b.Toleration)

  abbrev pub ConditionsValue : Type 0
  ConditionsValue = Option (List b.Condition)

  abbrev pub join_selector :
      SelectorAt → LabelsValue × StringsValue → (Selector LabelsValue StringsValue)
  join_selector s v = record { node_selector = v.0; machine_config_pools = v.1 }

  abbrev pub selector_shape : Shape A SelectorAt (Selector LabelsValue StringsValue)
  selector_shape =
      struct (λ s. (s.node_selector, s.machine_config_pools)) join_selector
        (pointer (label_selector_place l.label_selector.zero_value) b.label_selector
          both strings_shape)

  pub selector_into-IsDeepCopy : IsDeepCopy selector_shape (selector_into l)
  unfolding selector_into
  selector_into-IsDeepCopy =
      struct-IsDeepCopy
        (both-IsDeepCopy (new_copy label_selector_place l.label_selector) strings_copy
          (new_copy-IsDeepCopy label_selector_place l.label_selector b.label_selector_copied)
          strings_copy-IsDeepCopy)
        (λ s. (s.node_selector, s.machine_config_pools))
        (λ s t. record s { node_selector = t.0; machine_config_pools = t.1 }) join_selector
        (selector_into l) (λ s h. refl) (λ s t. refl) (λ s t v. refl)

  abbrev pub join_scheduling :
      SchedulingAt → TolerationsValue → (UpgradeAcceleratorConfigScheduling TolerationsValue)
  join_scheduling s v = record { namespace = s.namespace; tolerations = v }

  abbrev pub scheduling_shape :
      Shape A SchedulingAt (UpgradeAcceleratorConfigScheduling TolerationsValue)
  scheduling_shape =
      struct (λ s. s.tolerations) join_scheduling
        (slice tolerations_place l.toleration.zero_value b.toleration)

  pub scheduling_into-IsDeepCopy : IsDeepCopy scheduling_shape (scheduling_into l)
  unfolding scheduling_into
  scheduling_into-IsDeepCopy =
      struct-IsDeepCopy
        (elements_copy-IsDeepCopy tolerations_place l.toleration b.toleration_copied)
        (λ s. s.tolerations) (λ s t. record s { tolerations = t }) join_scheduling
        (scheduling_into l) (λ s h. refl) (λ s t. refl) (λ s t v. refl)

  abbrev pub join_config :
      ConfigAt
      → UpgradeAcceleratorConfigScheduling TolerationsValue
      → (UpgradeAcceleratorConfig TolerationsValue)
  join_config s v = record {
    random_wait = s.random_wait;
    job_image = s.job_image;
    override_release_version = s.override_release_version;
    pull_script_config_map_name = s.pull_script_config_map_name;
    scheduling = v;
  }

  abbrev pub config_shape : Shape A ConfigAt (UpgradeAcceleratorConfig TolerationsValue)
  config_shape = struct (λ s. s.scheduling) join_config (scheduling_shape)

  pub config_into-IsDeepCopy : IsDeepCopy config_shape (config_into l)
  unfolding config_into
  config_into-IsDeepCopy =
      struct-IsDeepCopy (scheduling_into-IsDeepCopy) (λ s. s.scheduling)
        (λ s t. record s { scheduling = t }) join_config (config_into l) (λ s h. refl) (λ s t. refl)
        (λ s t v. refl)

  abbrev pub join_spec :
      SpecAt
      → Selector LabelsValue StringsValue × UpgradeAcceleratorConfig TolerationsValue
      → (UpgradeAcceleratorSpec LabelsValue StringsValue TolerationsValue)
  join_spec s v = record {
    state = s.state;
    prime = s.prime;
    parallelism = s.parallelism;
    selector = v.0;
    config = v.1;
  }

  abbrev pub spec_shape :
      Shape A SpecAt (UpgradeAcceleratorSpec LabelsValue StringsValue TolerationsValue)
  spec_shape = struct (λ s. (s.selector, s.config)) join_spec (selector_shape both config_shape)

  pub spec_into-IsDeepCopy : IsDeepCopy spec_shape (spec_into l)
  unfolding spec_into
  spec_into-IsDeepCopy =
      struct-IsDeepCopy
        (both-IsDeepCopy (selector_into l) (config_into l) selector_into-IsDeepCopy
          config_into-IsDeepCopy)
        (λ s. (s.selector, s.config)) (λ s t. record s { selector = t.0; config = t.1 }) join_spec
        (spec_into l) (λ s h. refl) (λ s t. refl) (λ s t v. refl)
