-- ===== src/Copies/Pointers.antt =====
-- What is read through a pointer and through a slice, with the addresses on the way.
use mathlib.Core.Path.{subst}
use openshift_upgrade_accele.Prelude.{
  ℕ, ◌≤◌, ◌<◌, ◌≡◌, refl, sym, ap, ◌∙◌, Option, none, some, List, [], ◌∷◌, map, arith,
}
use openshift_upgrade_accele.Copies.Structs.{Slice}
use openshift_upgrade_accele.Copies.Memory.{Imported, Memory, Pointer, SliceRef}
use openshift_upgrade_accele.Copies.Cells.{Place}
use openshift_upgrade_accele.Copies.Copying.{window}
use openshift_upgrade_accele.Copies.Shapes.{Agree, Shape}

module _ {A : Imported} {T V : Type 0} (place : Place A T) (s : Shape A T V) where
  abbrev pub view_pointer : Memory A → Pointer → Option V
  view_pointer h none = none
  view_pointer h (some a) = some (s.view h (place.unwrap (h.cell a)))

  abbrev pub WithinPointer : ℕ → ℕ → Memory A → Pointer → Type 0
  WithinPointer lo hi h none = Unit
  WithinPointer lo hi h (some a) = (lo ≤ a) × (a < hi) × s.Within lo hi h (place.unwrap (h.cell a))

  pub view_pointer-Agree :
      (lo hi : ℕ) (h h' : Memory A) (p : Pointer)
      → Agree lo hi h h'
      → WithinPointer lo hi h p
      → view_pointer h' p ≡ view_pointer h p
  view_pointer-Agree lo hi h h' none agree w = refl
  view_pointer-Agree lo hi h h' (some a) agree (p, q, w) =
      ap (λ (b : _). some (s.view h' (place.unwrap b))) (agree a p q)
      ∙ ap some (s.view_agree lo hi h h' (place.unwrap (h.cell a)) agree w)

  pub WithinPointer-Agree :
      (lo hi : ℕ) (h h' : Memory A) (p : Pointer)
      → Agree lo hi h h'
      → WithinPointer lo hi h p
      → WithinPointer lo hi h' p
  WithinPointer-Agree lo hi h h' none agree w = tt
  WithinPointer-Agree lo hi h h' (some a) agree (p, q, w) = (
    p,
    q,
    subst (λ b. s.Within lo hi h' (place.unwrap b)) (sym (agree a p q))
        (s.within_agree lo hi h h' (place.unwrap (h.cell a)) agree w),
  )

  pub WithinPointer-widen :
      (lo hi lo' hi' : ℕ) (h : Memory A) (p : Pointer)
      → lo' ≤ lo
      → hi ≤ hi'
      → WithinPointer lo hi h p
      → WithinPointer lo' hi' h p
  WithinPointer-widen lo hi lo' hi' h none u v w = tt
  WithinPointer-widen lo hi lo' hi' h (some a) u v (p, q, w) =
      (omega arith, omega arith, s.within_widen lo hi lo' hi' h (place.unwrap (h.cell a)) u v w)

  abbrev pub pointer : Shape A Pointer (Option V)
  pointer = record {
    view = view_pointer;
    Within = WithinPointer;
    view_agree = view_pointer-Agree;
    within_agree = WithinPointer-Agree;
    within_widen = WithinPointer-widen;
  }

module _ {A : Imported} {T V : Type 0} (s : Shape A T V) where
  abbrev pub AllWithin : ℕ → ℕ → Memory A → List T → Type 0
  AllWithin lo hi h [] = Unit
  AllWithin lo hi h (t ∷ ts) = s.Within lo hi h t × AllWithin lo hi h ts

  pub map-view-Agree :
      (lo hi : ℕ) (h h' : Memory A) (ts : List T)
      → Agree lo hi h h'
      → AllWithin lo hi h ts
      → map (s.view h') ts ≡ map (s.view h) ts
  map-view-Agree lo hi h h' [] agree w = refl
  map-view-Agree lo hi h h' (t ∷ ts) agree (w, ws) =
      λ i. s.view_agree lo hi h h' t agree w i ∷ map-view-Agree lo hi h h' ts agree ws i

  pub AllWithin-Agree :
      (lo hi : ℕ) (h h' : Memory A) (ts : List T)
      → Agree lo hi h h'
      → AllWithin lo hi h ts
      → AllWithin lo hi h' ts
  AllWithin-Agree lo hi h h' [] agree w = tt
  AllWithin-Agree lo hi h h' (t ∷ ts) agree (w, ws) =
      (s.within_agree lo hi h h' t agree w, AllWithin-Agree lo hi h h' ts agree ws)

  pub AllWithin-widen :
      (lo hi lo' hi' : ℕ) (h : Memory A) (ts : List T)
      → lo' ≤ lo
      → hi ≤ hi'
      → AllWithin lo hi h ts
      → AllWithin lo' hi' h ts
  AllWithin-widen lo hi lo' hi' h [] u v w = tt
  AllWithin-widen lo hi lo' hi' h (t ∷ ts) u v (w, ws) =
      (s.within_widen lo hi lo' hi' h t u v w, AllWithin-widen lo hi lo' hi' h ts u v ws)

-- Reading through a slice: the array at its address, and there the elements of the slice.
module _ {A : Imported} {T V : Type 0} (place : Place A (List T)) (z : T) (s : Shape A T V) where
  abbrev pub elements : Memory A → Slice → List T
  elements h r = window z (place.unwrap (h.cell r.array)) r.offset 0 r.len

  abbrev pub view_slice : Memory A → SliceRef → Option (List V)
  view_slice h none = none
  view_slice h (some r) = some (map (s.view h) (elements h r))

  abbrev pub WithinSlice : ℕ → ℕ → Memory A → SliceRef → Type 0
  WithinSlice lo hi h none = Unit
  WithinSlice lo hi h (some r) =
      (lo ≤ r.array) × (r.array < hi) × AllWithin s lo hi h (elements h r)

  elements-Agree :
      (lo hi : ℕ) (h h' : Memory A) (r : Slice)
      → Agree lo hi h h'
      → lo ≤ r.array
      → r.array < hi
      → elements h' r ≡ elements h r
  elements-Agree lo hi h h' r agree p q =
      ap (λ (b : _). window z (place.unwrap b) r.offset 0 r.len) (agree r.array p q)

  pub view_slice-Agree :
      (lo hi : ℕ) (h h' : Memory A) (r : SliceRef)
      → Agree lo hi h h'
      → WithinSlice lo hi h r
      → view_slice h' r ≡ view_slice h r
  view_slice-Agree lo hi h h' none agree w = refl
  view_slice-Agree lo hi h h' (some r) agree (p, q, w) =
      ap (λ (ts : List T). some (map (s.view h') ts)) (elements-Agree lo hi h h' r agree p q)
      ∙ ap some (map-view-Agree s lo hi h h' (elements h r) agree w)

  pub WithinSlice-Agree :
      (lo hi : ℕ) (h h' : Memory A) (r : SliceRef)
      → Agree lo hi h h'
      → WithinSlice lo hi h r
      → WithinSlice lo hi h' r
  WithinSlice-Agree lo hi h h' none agree w = tt
  WithinSlice-Agree lo hi h h' (some r) agree (p, q, w) = (
    p,
    q,
    subst (λ ts. AllWithin s lo hi h' ts) (sym (elements-Agree lo hi h h' r agree p q))
        (AllWithin-Agree s lo hi h h' (elements h r) agree w),
  )

  pub WithinSlice-widen :
      (lo hi lo' hi' : ℕ) (h : Memory A) (r : SliceRef)
      → lo' ≤ lo
      → hi ≤ hi'
      → WithinSlice lo hi h r
      → WithinSlice lo' hi' h r
  WithinSlice-widen lo hi lo' hi' h none u v w = tt
  WithinSlice-widen lo hi lo' hi' h (some r) u v (p, q, w) =
      (omega arith, omega arith, AllWithin-widen s lo hi lo' hi' h (elements h r) u v w)

  abbrev pub slice : Shape A SliceRef (Option (List V))
  slice = record {
    view = view_slice;
    Within = WithinSlice;
    view_agree = view_slice-Agree;
    within_agree = WithinSlice-Agree;
    within_widen = WithinSlice-widen;
  }
