-- ===== src/Copies/Resources.antt =====
-- What is read at a status, at an UpgradeAccelerator and at a list of them, and that their
-- DeepCopyInto is a deep copy.
use openshift_upgrade_accele.Prelude.{refl, Option, List}
use openshift_upgrade_accele.Copies.Structs.{
  UpgradeAcceleratorSpec, UpgradeAcceleratorStatus, UpgradeAccelerator, UpgradeAcceleratorList,
}
use openshift_upgrade_accele.Copies.Memory.{Imported, SliceRef, StatusAt, AcceleratorAt, ListAt}
use openshift_upgrade_accele.Copies.Cells.{conditions_place, items_place}
use openshift_upgrade_accele.Copies.Into.{
  Library, spec_into, status_into, accelerator_into, list_into, accelerator_copier,
}
use openshift_upgrade_accele.Copies.Copying.{elements_copy}
use openshift_upgrade_accele.Copies.Shapes.{Shape, ◌both◌, struct}
use openshift_upgrade_accele.Copies.Pointers.{slice}
use openshift_upgrade_accele.Copies.Rules.{
  IsDeepCopy, copy_both, both-IsDeepCopy, struct-IsDeepCopy,
}
use openshift_upgrade_accele.Copies.Slices.{elements_copy-IsDeepCopy}
use openshift_upgrade_accele.Copies.Strings.{five_strings, five_copies, five_copies-IsDeepCopy}
use openshift_upgrade_accele.Copies.Fields.{
  Contract, LabelsValue, StringsValue, TolerationsValue, ConditionsValue, spec_shape,
  spec_into-IsDeepCopy,
}

abbrev pub status_parts :
    StatusAt → SliceRef × (SliceRef × (SliceRef × (SliceRef × (SliceRef × SliceRef))))
status_parts s = (
  s.conditions,
  (s.nodes_selected, (s.nodes_preheated, (s.nodes_warming, (s.nodes_waiting, s.primer_nodes)))),
)

module _ {A : Imported} {l : Library A} (b : Contract l) where
  abbrev pub StatusParts : Type 0
  StatusParts =
      (ConditionsValue b)
      × ((StringsValue b)
          × ((StringsValue b) × ((StringsValue b) × ((StringsValue b) × (StringsValue b)))))

  abbrev pub join_status :
      StatusAt → StatusParts → (UpgradeAcceleratorStatus (ConditionsValue b) (StringsValue b))
  join_status s v = record {
    cluster_infrastructure = s.cluster_infrastructure;
    current_version = s.current_version;
    target_version = s.target_version;
    desired_version = s.desired_version;
    desired_image = s.desired_image;
    last_completed_version = s.last_completed_version;
    conditions = v.0;
    nodes_selected = v.1.0;
    nodes_preheated = v.1.1.0;
    nodes_warming = v.1.1.1.0;
    nodes_waiting = v.1.1.1.1.0;
    primer_nodes = v.1.1.1.1.1;
  }

  abbrev pub status_shape :
      Shape A StatusAt (UpgradeAcceleratorStatus (ConditionsValue b) (StringsValue b))
  status_shape =
      struct status_parts join_status
        (slice conditions_place l.condition.zero_value b.condition both five_strings)

  pub status_into-IsDeepCopy : IsDeepCopy status_shape (status_into l)
  unfolding status_into
  status_into-IsDeepCopy =
      struct-IsDeepCopy
        (both-IsDeepCopy (elements_copy conditions_place l.condition) five_copies
          (elements_copy-IsDeepCopy conditions_place l.condition b.condition_copied)
          five_copies-IsDeepCopy)
        status_parts
        (λ s t. record s {
          conditions = t.0;
          nodes_selected = t.1.0;
          nodes_preheated = t.1.1.0;
          nodes_warming = t.1.1.1.0;
          nodes_waiting = t.1.1.1.1.0;
          primer_nodes = t.1.1.1.1.1;
        })
        join_status (status_into l) (λ s h. refl) (λ s t. refl) (λ s t v. refl)

  abbrev pub AcceleratorParts : Type 0
  AcceleratorParts =
      b.ObjectMeta
      × (UpgradeAcceleratorSpec (LabelsValue b) (StringsValue b) (TolerationsValue b)
          × UpgradeAcceleratorStatus (ConditionsValue b) (StringsValue b))

  abbrev pub AcceleratorValue : Type 0
  AcceleratorValue =
      UpgradeAccelerator b.ObjectMeta (LabelsValue b) (StringsValue b) (TolerationsValue b)
        (ConditionsValue b)

  abbrev pub join_accelerator : (AcceleratorAt A) → AcceleratorParts → AcceleratorValue
  join_accelerator s v = record {
    type_meta = s.type_meta;
    object_meta = v.0;
    spec = v.1.0;
    status = v.1.1;
  }

  abbrev pub accelerator_shape : Shape A (AcceleratorAt A) AcceleratorValue
  accelerator_shape =
      struct (λ s. (s.object_meta, (s.spec, s.status))) join_accelerator
        (b.object_meta both (spec_shape b) both status_shape)

  pub accelerator_into-IsDeepCopy : IsDeepCopy accelerator_shape (accelerator_into l)
  unfolding accelerator_into
  accelerator_into-IsDeepCopy =
      struct-IsDeepCopy
        (both-IsDeepCopy l.object_meta.into (copy_both (spec_into l) (status_into l))
          b.object_meta_copied
          (both-IsDeepCopy (spec_into l) (status_into l) (spec_into-IsDeepCopy b)
            status_into-IsDeepCopy))
        (λ s. (s.object_meta, (s.spec, s.status)))
        (λ s t. record s { object_meta = t.0; spec = t.1.0; status = t.1.1 }) join_accelerator
        (accelerator_into l) (λ s h. refl) (λ s t. refl) (λ s t v. refl)

  abbrev pub ListValue : Type 0
  ListValue = UpgradeAcceleratorList b.ListMeta (Option (List AcceleratorValue))

  abbrev pub join_list : (ListAt A) → b.ListMeta × Option (List AcceleratorValue) → ListValue
  join_list s v = record { type_meta = s.type_meta; list_meta = v.0; items = v.1 }

  abbrev pub list_shape : Shape A (ListAt A) ListValue
  list_shape =
      struct (λ s. (s.list_meta, s.items)) join_list
        (b.list_meta both slice items_place (accelerator_copier l).zero_value accelerator_shape)

  pub list_into-IsDeepCopy : IsDeepCopy list_shape (list_into l)
  unfolding list_into
  list_into-IsDeepCopy =
      struct-IsDeepCopy
        (both-IsDeepCopy l.list_meta.into (elements_copy items_place (accelerator_copier l))
          b.list_meta_copied
          (elements_copy-IsDeepCopy items_place (accelerator_copier l) accelerator_into-IsDeepCopy))
        (λ s. (s.list_meta, s.items)) (λ s t. record s { list_meta = t.0; items = t.1 }) join_list
        (list_into l) (λ s h. refl) (λ s t. refl) (λ s t v. refl)
