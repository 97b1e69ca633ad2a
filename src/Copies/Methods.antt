-- ===== src/Copies/Methods.antt =====
-- The nine DeepCopy methods of api/v1alpha1/zz_generated.deepcopy.go under one name.
use openshift_upgrade_accele.Prelude.{◌≡◌, Option}
use openshift_upgrade_accele.Api.{OverrideReleaseVersion, UpgradeAcceleratorConfigRandomWait}
use openshift_upgrade_accele.Copies.Structs.{
  Selector, UpgradeAcceleratorConfigScheduling, UpgradeAcceleratorConfig, UpgradeAcceleratorSpec,
  UpgradeAcceleratorStatus,
}
use openshift_upgrade_accele.Copies.Memory.{Imported, Memory, Pointer}
use openshift_upgrade_accele.Copies.Cells.{
  Cmd, override_place, random_wait_place, selector_place, scheduling_place, config_place,
  spec_place, status_place, accelerator_place, list_place,
}
use openshift_upgrade_accele.Copies.Into.{
  Library, override_into, random_wait_into, override_copier, random_wait_copier, selector_copier,
  scheduling_copier, config_copier, spec_copier, status_copier, accelerator_copier, list_copier,
  override_copy, random_wait_copy, selector_copy, scheduling_copy, config_copy, spec_copy,
  status_copy, accelerator_copy, list_copy,
}
use openshift_upgrade_accele.Copies.Shapes.{Agree, Shape, plain}
use openshift_upgrade_accele.Copies.Pointers.{pointer}
use openshift_upgrade_accele.Copies.Rules.{IsDeepCopy, plain-IsDeepCopy}
use openshift_upgrade_accele.Copies.Allocated.{new_copy-IsDeepCopy}
use openshift_upgrade_accele.Copies.Fields.{
  Contract, LabelsValue, StringsValue, TolerationsValue, ConditionsValue, selector_shape,
  scheduling_shape, config_shape, spec_shape, selector_into-IsDeepCopy, scheduling_into-IsDeepCopy,
  config_into-IsDeepCopy, spec_into-IsDeepCopy,
}
use openshift_upgrade_accele.Copies.Resources.{
  AcceleratorValue, ListValue, status_shape, accelerator_shape, list_shape, status_into-IsDeepCopy,
  accelerator_into-IsDeepCopy, list_into-IsDeepCopy,
}
use openshift_upgrade_accele.Copies.Objects.{copy_apart, original_apart}

pub data Method : Type 0 where
  of_override : Method
  of_random_wait : Method
  of_selector : Method
  of_scheduling : Method
  of_config : Method
  of_spec : Method
  of_status : Method
  of_accelerator : Method
  of_list : Method

module _ {A : Imported} (l : Library A) where
  abbrev pub deep_copy : Method → Pointer → Cmd A Pointer
  deep_copy of_override = override_copy
  deep_copy of_random_wait = random_wait_copy
  deep_copy of_selector = selector_copy l
  deep_copy of_scheduling = scheduling_copy l
  deep_copy of_config = config_copy l
  deep_copy of_spec = spec_copy l
  deep_copy of_status = status_copy l
  deep_copy of_accelerator = accelerator_copy l
  deep_copy of_list = list_copy l

module _ {A : Imported} {l : Library A} (b : Contract l) where
  -- What is read at the struct that the pointer leads to.
  abbrev pub Value : Method → Type 0
  Value of_override = OverrideReleaseVersion
  Value of_random_wait = UpgradeAcceleratorConfigRandomWait
  Value of_selector = Selector (LabelsValue b) (StringsValue b)
  Value of_scheduling = UpgradeAcceleratorConfigScheduling (TolerationsValue b)
  Value of_config = UpgradeAcceleratorConfig (TolerationsValue b)
  Value of_spec = UpgradeAcceleratorSpec (LabelsValue b) (StringsValue b) (TolerationsValue b)
  Value of_status = UpgradeAcceleratorStatus (ConditionsValue b) (StringsValue b)
  Value of_accelerator = AcceleratorValue b
  Value of_list = ListValue b

  abbrev pub receiver : (m : Method) → Shape A Pointer (Option (Value m))
  receiver of_override =
      pointer (override_place (override_copier {A = A}).zero_value) (plain OverrideReleaseVersion)
  receiver of_random_wait =
      pointer (random_wait_place (random_wait_copier {A = A}).zero_value)
        (plain UpgradeAcceleratorConfigRandomWait)
  receiver of_selector = pointer (selector_place (selector_copier l).zero_value) (selector_shape b)
  receiver of_scheduling =
      pointer (scheduling_place (scheduling_copier l).zero_value) (scheduling_shape b)
  receiver of_config = pointer (config_place (config_copier l).zero_value) (config_shape b)
  receiver of_spec = pointer (spec_place (spec_copier l).zero_value) (spec_shape b)
  receiver of_status = pointer (status_place (status_copier l).zero_value) (status_shape b)
  receiver of_accelerator =
      pointer (accelerator_place (accelerator_copier l).zero_value) (accelerator_shape b)
  receiver of_list = pointer (list_place (list_copier l).zero_value) (list_shape b)

  deep_copy-IsDeepCopy : (m : Method) → IsDeepCopy (receiver m) (deep_copy l m)
  unfolding override_copy random_wait_copy selector_copy scheduling_copy config_copy spec_copy
      status_copy accelerator_copy list_copy override_into random_wait_into
  deep_copy-IsDeepCopy of_override =
      new_copy-IsDeepCopy override_place override_copier (plain-IsDeepCopy OverrideReleaseVersion)
  deep_copy-IsDeepCopy of_random_wait =
      new_copy-IsDeepCopy random_wait_place random_wait_copier
        (plain-IsDeepCopy UpgradeAcceleratorConfigRandomWait)
  deep_copy-IsDeepCopy of_selector =
      new_copy-IsDeepCopy selector_place (selector_copier l) (selector_into-IsDeepCopy b)
  deep_copy-IsDeepCopy of_scheduling =
      new_copy-IsDeepCopy scheduling_place (scheduling_copier l) (scheduling_into-IsDeepCopy b)
  deep_copy-IsDeepCopy of_config =
      new_copy-IsDeepCopy config_place (config_copier l) (config_into-IsDeepCopy b)
  deep_copy-IsDeepCopy of_spec =
      new_copy-IsDeepCopy spec_place (spec_copier l) (spec_into-IsDeepCopy b)
  deep_copy-IsDeepCopy of_status =
      new_copy-IsDeepCopy status_place (status_copier l) (status_into-IsDeepCopy b)
  deep_copy-IsDeepCopy of_accelerator =
      new_copy-IsDeepCopy accelerator_place (accelerator_copier l) (accelerator_into-IsDeepCopy b)
  deep_copy-IsDeepCopy of_list =
      new_copy-IsDeepCopy list_place (list_copier l) (list_into-IsDeepCopy b)

  -- Let DeepCopyInto of the library's types be deep copies, and a receiver of one of the nine
  -- DeepCopy methods be nil, or a pointer such that it and all
  -- pointers and slices that are reached from it lead to allocated addresses. What is read at the
  -- copy is what was read at the receiver, also after anything has been written to addresses that
  -- were in use before the copy; and what is read at the receiver stays, also after anything has been
  -- written to the addresses that the copy allocated.
  pub deep_copy-apart :
      (m : Method) (p : Pointer) (h by_original by_copy : Memory A)
      → (receiver m).Within 0 h.next h p
      → Agree h.next (deep_copy l m p h).1.next (deep_copy l m p h).1 by_original
      → Agree 0 h.next (deep_copy l m p h).1 by_copy
      → ((receiver m).view by_original (deep_copy l m p h).0 ≡ (receiver m).view h p)
        × ((receiver m).view by_copy p ≡ (receiver m).view h p)
  deep_copy-apart m p h by_original by_copy w agree agree' = (
    copy_apart (deep_copy-IsDeepCopy m) p h by_original w agree,
    original_apart (deep_copy-IsDeepCopy m) p h by_copy w agree',
  )
