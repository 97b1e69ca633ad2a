-- ===== src/Copies/Objects.antt =====
-- DeepCopyObject of the two kinds, which the clients of controller-runtime call: what is read at
-- the copy, and that original and copy share nothing.
use openshift_upgrade_accele.Prelude.{ℕ, ◌≡◌, refl, ◌∙◌, ◌↔◌, Option, none, some, arith}
use openshift_upgrade_accele.Copies.Memory.{Imported, Memory, Pointer}
use openshift_upgrade_accele.Copies.Cells.{Cmd, accelerator_place, list_place}
use openshift_upgrade_accele.Copies.Into.{
  Library, RuntimeObject, accelerator_copier, list_copier, accelerator_copy, list_copy,
  accelerator_object, list_object,
}
use openshift_upgrade_accele.Copies.Copying.{new_copy}
use openshift_upgrade_accele.Copies.Shapes.{Agree, Agree-trans, Shape}
use openshift_upgrade_accele.Copies.Pointers.{pointer}
use openshift_upgrade_accele.Copies.Rules.{IsDeepCopy}
use openshift_upgrade_accele.Copies.Allocated.{new_copy-IsDeepCopy}
use openshift_upgrade_accele.Copies.Fields.{Contract}
use openshift_upgrade_accele.Copies.Resources.{
  AcceleratorValue, ListValue, accelerator_shape, list_shape, accelerator_into-IsDeepCopy,
  list_into-IsDeepCopy,
}

module _ {A : Imported} {T V : Type 0} {s : Shape A T V} {copy : T → Cmd A T}
    (k : IsDeepCopy s copy) where
  pub copy_apart :
      (t : T) (h written : Memory A)
      → s.Within 0 h.next h t
      → Agree h.next (copy t h).1.next (copy t h).1 written
      → s.view written (copy t h).0 ≡ s.view h t
  copy_apart t h written w agree =
      s.view_agree h.next (copy t h).1.next (copy t h).1 written (copy t h).0 agree (k.within t h w)
      ∙ k.same_view t h w

  pub original_apart :
      (t : T) (h written : Memory A)
      → s.Within 0 h.next h t
      → Agree 0 h.next (copy t h).1 written
      → s.view written t ≡ s.view h t
  original_apart t h written w agree =
      s.view_agree 0 h.next h written t
        (Agree-trans 0 h.next h.next h (copy t h).1 written (omega arith) (k.keeps t h) agree) w

module _ {A : Imported} {l : Library A} (b : Contract l) where
  abbrev pub accelerators : Shape A Pointer (Option (AcceleratorValue b))
  accelerators = pointer (accelerator_place (accelerator_copier l).zero_value) (accelerator_shape b)

  abbrev pub lists : Shape A Pointer (Option (ListValue b))
  lists = pointer (list_place (list_copier l).zero_value) (list_shape b)

  -- Let DeepCopyInto of the library's types be deep copies, and a pointer to an UpgradeAccelerator
  -- be given all of whose pointers and slices, also those of its fields, lead to allocated
  -- addresses. DeepCopyObject gives a pointer with the type, at which all fields read as at the
  -- original, also after anything has been written to addresses that were in use before the copy;
  -- and the original still reads the same after anything has been written to the addresses that the
  -- copy allocated.
  pub accelerator_object-apart :
      (a : ℕ) (h by_original by_copy : Memory A)
      → accelerators.Within 0 h.next h (some a)
      → Agree h.next
          (accelerator_object l (some a) h).1.next
          (accelerator_object l (some a) h).1
          by_original
      → Agree 0 h.next (accelerator_object l (some a) h).1 by_copy
      → (c : ℕ) × ((accelerator_object l (some a) h).0
          ≡ some (RuntimeObject.accelerator_pointer (some c)))
        × (accelerators.view by_original (some c) ≡ accelerators.view h (some a))
        × (accelerators.view by_copy (some a) ≡ accelerators.view h (some a))
  unfolding accelerator_object accelerator_copy new_copy
  accelerator_object-apart a h by_original by_copy w agree agree' =
      let k =
        new_copy-IsDeepCopy accelerator_place (accelerator_copier l)
          (accelerator_into-IsDeepCopy b) in
      (
        h.next,
        refl,
        copy_apart k (some a) h by_original w agree,
        original_apart k (some a) h by_copy w agree',
      )

  -- Let DeepCopyInto of the library's types be deep copies, and a pointer to an
  -- UpgradeAcceleratorList be given all of whose pointers and slices, also those of its items, lead
  -- to allocated addresses. DeepCopyObject gives a pointer with the type, at which all fields and
  -- items read as at the original, also after anything has been written to addresses that were in
  -- use before the copy; and the original still reads the same after anything has been written to
  -- the addresses that the copy allocated.
  pub list_object-apart :
      (a : ℕ) (h by_original by_copy : Memory A)
      → lists.Within 0 h.next h (some a)
      → Agree h.next (list_object l (some a) h).1.next (list_object l (some a) h).1 by_original
      → Agree 0 h.next (list_object l (some a) h).1 by_copy
      → (c : ℕ) × ((list_object l (some a) h).0 ≡ some (RuntimeObject.list_pointer (some c)))
        × (lists.view by_original (some c) ≡ lists.view h (some a))
        × (lists.view by_copy (some a) ≡ lists.view h (some a))
  unfolding list_object list_copy new_copy
  list_object-apart a h by_original by_copy w agree agree' =
      let k = new_copy-IsDeepCopy list_place (list_copier l) (list_into-IsDeepCopy b) in
      (
        h.next,
        refl,
        copy_apart k (some a) h by_original w agree,
        original_apart k (some a) h by_copy w agree',
      )

-- DeepCopyObject gives the nil interface for a nil pointer and for no other.
pub object-none_iff :
    {A : Imported} (l : Library A) (p : Pointer) (h : Memory A)
    → (((accelerator_object l p h).0 ≡ none) ↔ (p ≡ none))
      × (((list_object l p h).0 ≡ none) ↔ (p ≡ none))
unfolding accelerator_object accelerator_copy list_object list_copy new_copy
object-none_iff l none h = ((λ e. refl, λ e. refl), (λ e. refl, λ e. refl))
object-none_iff l (some a) h =
    ((λ e. absurd (cc), λ e. absurd (cc)), (λ e. absurd (cc), λ e. absurd (cc)))
