-- ===== src/Copies/Memory.antt =====
-- The memory that the deep copies read and extend, and the statements on it.
use openshift_upgrade_accele.Prelude.{ℕ, String, Option, List}
use openshift_upgrade_accele.Api.{OverrideReleaseVersion, UpgradeAcceleratorConfigRandomWait}
use openshift_upgrade_accele.Copies.Structs.{
  Slice, Selector, UpgradeAcceleratorConfigScheduling, UpgradeAcceleratorConfig,
  UpgradeAcceleratorSpec, UpgradeAcceleratorStatus, UpgradeAccelerator, UpgradeAcceleratorList,
}

-- The structs of k8s.io/api and k8s.io/apimachinery as they lie in memory. `Foreign` is what their
-- fields point to: maps, arrays, numbers.
pub record Imported : Type 1 where
  pub ObjectMeta : Type 0
  pub ListMeta : Type 0
  pub LabelSelector : Type 0
  pub Toleration : Type 0
  pub Condition : Type 0
  pub Foreign : Type 0

-- Pointers and slices, where `none` is nil.
abbrev pub Pointer : Type 0
Pointer = Option ℕ

abbrev pub SliceRef : Type 0
SliceRef = Option Slice

abbrev pub SelectorAt : Type 0
SelectorAt = Selector Pointer SliceRef

abbrev pub SchedulingAt : Type 0
SchedulingAt = UpgradeAcceleratorConfigScheduling SliceRef

abbrev pub ConfigAt : Type 0
ConfigAt = UpgradeAcceleratorConfig SliceRef

abbrev pub SpecAt : Type 0
SpecAt = UpgradeAcceleratorSpec Pointer SliceRef SliceRef

abbrev pub StatusAt : Type 0
StatusAt = UpgradeAcceleratorStatus SliceRef SliceRef

abbrev pub AcceleratorAt : Imported → Type 0
AcceleratorAt A = UpgradeAccelerator A.ObjectMeta Pointer SliceRef SliceRef SliceRef

abbrev pub ListAt : Imported → Type 0
ListAt A = UpgradeAcceleratorList A.ListMeta SliceRef

-- What an address holds: one struct or one array.
pub data Block (A : Imported) : Type 0 where
  strings : List String → Block A
  tolerations : List A.Toleration → Block A
  conditions : List A.Condition → Block A
  items : List (AcceleratorAt A) → Block A
  label_selector : A.LabelSelector → Block A
  override : OverrideReleaseVersion → Block A
  random_wait : UpgradeAcceleratorConfigRandomWait → Block A
  selector : SelectorAt → Block A
  scheduling : SchedulingAt → Block A
  config : ConfigAt → Block A
  spec : SpecAt → Block A
  status : StatusAt → Block A
  accelerator : AcceleratorAt A → Block A
  list : ListAt A → Block A
  foreign : A.Foreign → Block A

-- Addresses from `next` on are free.
pub record Memory (A : Imported) : Type 0 where
  pub next : ℕ
  pub cell : ℕ → Block A
