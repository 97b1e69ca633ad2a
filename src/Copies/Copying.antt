-- ===== src/Copies/Copying.antt =====
-- api/v1alpha1/zz_generated.deepcopy.go: the steps that the generated methods are made of, the
-- copies of a slice and of what a pointer points to.
use openshift_upgrade_accele.Prelude.{ℕ, zero, suc, ◌+◌, none, some, List, [], ◌∷◌}
use openshift_upgrade_accele.Copies.Structs.{Slice}
use openshift_upgrade_accele.Copies.Memory.{Imported, Pointer, SliceRef}
use openshift_upgrade_accele.Copies.Cells.{
  Cmd, pure, ◌>>=◌, ◌>>◌, Place, load, store, alloc, strings_place,
}

-- A type of Go with a DeepCopyInto: its zero value and the method.
pub record Copier (A : Imported) (T : Type 0) : Type 0 where
  pub zero_value : T
  pub into : T → Cmd A T

module _ {T : Type 0} where
  abbrev pub replicate : ℕ → T → List T
  replicate zero x = []
  replicate (suc n) x = x ∷ replicate n x

  abbrev pub get_or : T → List T → ℕ → T
  get_or z [] i = z
  get_or z (x ∷ xs) zero = x
  get_or z (x ∷ xs) (suc i) = get_or z xs i

  abbrev pub set_elem : List T → ℕ → T → List T
  set_elem [] i y = []
  set_elem (x ∷ xs) zero y = y ∷ xs
  set_elem (x ∷ xs) (suc i) y = x ∷ set_elem xs i y

  -- The `n` elements from the position `offset + i` on. A slice never reaches past its array; the
  -- zero value would stand there.
  abbrev pub window : T → List T → ℕ → ℕ → ℕ → List T
  window z xs offset i zero = []
  window z xs offset i (suc n) = get_or z xs (offset + i) ∷ window z xs offset (suc i) n

  -- What `copy(dst, src)` makes of the elements of `dst`.
  abbrev pub copy_over : List T → List T → List T
  copy_over [] dst = dst
  copy_over (x ∷ src) [] = []
  copy_over (x ∷ src) (y ∷ dst) = x ∷ copy_over src dst

abbrev pub whole : ℕ → ℕ → Slice
whole array n = record { array = array; offset = 0; len = n; capacity = n }

module _ {A : Imported} where
  -- `if in.X != nil { *out = make([]string, len(*in)); copy(*out, *in) }`
  unfoldable pub strings_copy : SliceRef → Cmd A SliceRef
  strings_copy none = pure none
  strings_copy (some s) = do
    array ← alloc strings_place (replicate s.len "")
    src ← load strings_place s.array
    dst ← load strings_place array
    store strings_place array (copy_over (window "" src s.offset 0 s.len) dst)
    pure (some (whole array s.len))

  module _ {T : Type 0} (place : Place A (List T)) (c : Copier A T) where
    -- `for i := range *in { (*in)[i].DeepCopyInto(&(*out)[i]) }`, with `n` rounds left.
    unfoldable pub elements_into : Slice → ℕ → ℕ → ℕ → Cmd A (Unit {0})
    elements_into src array i zero = pure tt
    elements_into src array i (suc n) = do
      old ← load place src.array
      t ← c.into (get_or c.zero_value old (src.offset + i))
      dst ← load place array
      store place array (set_elem dst i t)
      elements_into src array (suc i) n

    -- `if in.X != nil { *out = make([]T, len(*in)); ... }`
    unfoldable pub elements_copy : SliceRef → Cmd A SliceRef
    elements_copy none = pure none
    elements_copy (some s) = do
      array ← alloc place (replicate s.len c.zero_value)
      elements_into s array 0 s.len
      pure (some (whole array s.len))

  -- `if in == nil { return nil }; out := new(T); in.DeepCopyInto(out); return out`, and the same
  -- steps for a field that is a pointer.
  unfoldable pub new_copy : {T : Type 0} → (T → Place A T) → Copier A T → Pointer → Cmd A Pointer
  new_copy place c none = pure none
  new_copy place c (some a) = do
    out ← alloc (place c.zero_value) c.zero_value
    t ← load (place c.zero_value) a
    t' ← c.into t
    store (place c.zero_value) out t'
    pure (some out)
