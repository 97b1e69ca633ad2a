-- ===== src/Tests/Copied.antt =====
-- The deep copies at a concrete memory, with library types that point into it.
use openshift_upgrade_accele.Prelude.{
  ℕ, ◌≡◌, refl, String, ℤ, true, Option, none, some, List, [], ◌∷◌, if◌then◌else◌, nat_eq, arith,
}
use openshift_upgrade_accele.Copies.Memory.{
  Imported, Memory, Block, Pointer, SliceRef, AcceleratorAt, foreign, strings, conditions,
  tolerations, items, list,
}
use openshift_upgrade_accele.Copies.Cells.{Place, store, strings_place}
use openshift_upgrade_accele.Copies.Into.{
  Library, RuntimeObject, list_object, list_copy, list_into, accelerator_into, spec_into,
  selector_into, config_into, scheduling_into, status_into,
}
use openshift_upgrade_accele.Copies.Copying.{
  Copier, new_copy, strings_copy, whole, elements_copy, elements_into,
}
use openshift_upgrade_accele.Copies.Shapes.{Shape, plain}
use openshift_upgrade_accele.Copies.Pointers.{pointer}
use openshift_upgrade_accele.Copies.Rules.{IsDeepCopy, plain-IsDeepCopy}
use openshift_upgrade_accele.Copies.Allocated.{
  new_copy-IsDeepCopy, store-Agree_below, store-Agree_above,
}
use openshift_upgrade_accele.Copies.Strings.{strings_shape, strings_copy-IsDeepCopy}
use openshift_upgrade_accele.Copies.Fields.{Contract}
use openshift_upgrade_accele.Copies.Objects.{lists, list_object-apart}
use openshift_upgrade_accele.Copies.Methods.{of_list, deep_copy, receiver, deep_copy-apart}

-- ObjectMeta and Toleration point to a foreign cell, LabelSelector is a slice of strings.
abbrev imported : Imported
imported = record {
  ObjectMeta = Pointer;
  ListMeta = String;
  LabelSelector = SliceRef;
  Toleration = Pointer;
  Condition = String;
  Foreign = List String;
}

abbrev foreign_of : Block imported → List String
foreign_of (foreign xs) = xs
foreign_of other = []

abbrev foreign_place : List String → Place imported (List String)
foreign_place z = record { wrap = foreign; unwrap = foreign_of; unwrap_wrap = λ xs. refl }

abbrev plain_copier : {T : Type 0} → T → Copier imported T
plain_copier z = record { zero_value = z; into = λ t h. (t, h) }

abbrev pointing_copier : Copier imported Pointer
pointing_copier = record { zero_value = none; into = new_copy foreign_place (plain_copier []) }

abbrev library : Library imported
library = record {
  object_meta = pointing_copier;
  list_meta = plain_copier "";
  label_selector = record { zero_value = none; into = strings_copy };
  toleration = pointing_copier;
  condition = plain_copier "";
}

abbrev pointing : Shape imported Pointer (Option (List String))
pointing = pointer (foreign_place []) (plain (List String))

pointing-IsDeepCopy : IsDeepCopy pointing (new_copy foreign_place (plain_copier []))
pointing-IsDeepCopy =
    new_copy-IsDeepCopy foreign_place (plain_copier []) (plain-IsDeepCopy (List String))

abbrev contract : Contract library
contract = record {
  ObjectMeta = Option (List String);
  ListMeta = String;
  LabelSelector = Option (List String);
  Toleration = Option (List String);
  Condition = String;
  object_meta = pointing;
  list_meta = plain String;
  label_selector = strings_shape;
  toleration = pointing;
  condition = plain String;
  object_meta_copied = pointing-IsDeepCopy;
  list_meta_copied = plain-IsDeepCopy String;
  label_selector_copied = strings_copy-IsDeepCopy;
  toleration_copied = pointing-IsDeepCopy;
  condition_copied = plain-IsDeepCopy String;
}

-- The waiting nodes are the last two elements of an array of three.
abbrev accelerator : AcceleratorAt imported
accelerator = record {
  type_meta = record { kind = "UpgradeAccelerator"; api_version = "v1alpha1" };
  object_meta = some 0;
  spec = record {
    state = "enabled";
    selector = record { node_selector = none; machine_config_pools = some (whole 2 1) };
    prime = true;
    parallelism = ℤ.pos 5;
    config = record {
      scheduling = record { tolerations = some (whole 4 1); namespace = "ns" };
      random_wait = record { enabled = true; min_duration = ℤ.pos 10; max_duration = ℤ.pos 30 };
      job_image = "image";
      override_release_version = record { version = ""; image = "" };
      pull_script_config_map_name = "";
    };
  };
  status = record {
    cluster_infrastructure = "AWS";
    current_version = "4.1";
    target_version = "4.2";
    desired_version = "4.2";
    desired_image = "quay";
    last_completed_version = "";
    conditions = some (whole 3 1);
    nodes_selected = some (whole 1 3);
    nodes_preheated = none;
    nodes_warming = none;
    nodes_waiting = some (record { array = 1; offset = 1; len = 2; capacity = 2 });
    primer_nodes = some (whole 1 1);
  };
}

abbrev cells : ℕ → Block imported
cells n =
    if nat_eq n 0
    then foreign ("app=x" ∷ [])
    else if nat_eq n 1
    then strings ("a" ∷ "b" ∷ "c" ∷ [])
    else if nat_eq n 2
    then strings ("worker" ∷ [])
    else if nat_eq n 3
    then conditions ("SetupComplete" ∷ [])
    else if nat_eq n 4
    then tolerations (some 0 ∷ [])
    else if nat_eq n 5
    then items (accelerator ∷ [])
    else list (record {
      type_meta = record { kind = "UpgradeAcceleratorList"; api_version = "v1alpha1" };
      list_meta = "";
      items = some (whole 5 1);
    })

abbrev memory : Memory imported
memory = record { next = 7; cell = cells }

-- The array of the waiting nodes of the original is overwritten.
abbrev changed : Memory imported → Memory imported
changed h = (store strings_place 1 ("z" ∷ "z" ∷ "z" ∷ []) h).1

list_object-apart_example :
    (c : ℕ) × ((list_object library (some 6) memory).0 ≡ some (RuntimeObject.list_pointer (some c)))
    × ((lists contract).view (changed (list_object library (some 6) memory).1) (some c)
        ≡ (lists contract).view memory (some 6))
    × ((lists contract).view (list_object library (some 6) memory).1 (some 6)
        ≡ (lists contract).view memory (some 6))
list_object-apart_example =
    list_object-apart contract 6 memory (changed (list_object library (some 6) memory).1)
      (list_object library (some 6) memory).1 (omega arith)
      (store-Agree_above strings_place 7 (list_object library (some 6) memory).1.next 1
        ("z" ∷ "z" ∷ "z" ∷ []) (list_object library (some 6) memory).1 (omega arith))
      (λ a p q. refl)

-- The array at 8, which the copy allocated, is overwritten.
deep_copy-apart_example :
    let h = (deep_copy library of_list (some 6) memory).1 in
    ((receiver contract of_list).view h (deep_copy library of_list (some 6) memory).0
      ≡ (receiver contract of_list).view memory (some 6))
    × ((receiver contract of_list).view (store strings_place 8 ("z" ∷ []) h).1 (some 6)
        ≡ (receiver contract of_list).view memory (some 6))
deep_copy-apart_example =
    deep_copy-apart contract of_list (some 6) memory (deep_copy library of_list (some 6) memory).1
      (store strings_place 8 ("z" ∷ []) (deep_copy library of_list (some 6) memory).1).1
      (omega arith) (λ a p q. refl)
      (store-Agree_below strings_place 0 7 8 ("z" ∷ [])
        (deep_copy library of_list (some 6) memory).1 (omega arith))

-- The list, its items, a label map, the pools, two cells of tolerations and four lists of the status.
allocated : (list_object library (some 6) memory).1.next ≡ 17
unfolding list_object list_copy new_copy list_into elements_copy elements_into accelerator_into
    spec_into selector_into config_into scheduling_into status_into strings_copy
allocated = refl
