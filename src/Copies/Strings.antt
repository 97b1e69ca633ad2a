-- ===== src/Copies/Strings.antt =====
-- The copies of slices of strings are deep copies.
use mathlib.Core.Path.{subst}
use openshift_upgrade_accele.Prelude.{
  ℕ, ◌≤◌, ◌<◌, ◌≡◌, refl, ap, ◌∙◌, String, Option, none, some, List, [], ◌∷◌, map, arith,
}
use openshift_upgrade_accele.Copies.Structs.{Slice}
use openshift_upgrade_accele.Copies.Memory.{Imported, Memory, SliceRef}
use openshift_upgrade_accele.Copies.Cells.{Cmd, load, alloc, strings_place}
use openshift_upgrade_accele.Copies.Copying.{strings_copy, replicate, window, copy_over, whole}
use openshift_upgrade_accele.Copies.Shapes.{Agree, Agree-trans, Shape, plain, ◌both◌}
use openshift_upgrade_accele.Copies.Pointers.{slice, elements, AllWithin}
use openshift_upgrade_accele.Copies.Rules.{IsDeepCopy, copy_both, both-IsDeepCopy}
use openshift_upgrade_accele.Copies.Windows.{length-window, copy_over-replicate}
use openshift_upgrade_accele.Copies.Allocated.{
  alloc-Agree, store-Agree_below, load-store, load-alloc,
}
use openshift_upgrade_accele.Copies.Slices.{elements-whole}

plain-AllWithin :
    {A : Imported} (T : Type 0) (lo hi : ℕ) (h : Memory A) (ts : List T)
    → AllWithin (plain {A = A} T) lo hi h ts
plain-AllWithin T lo hi h [] = tt
plain-AllWithin T lo hi h (t ∷ ts) = (tt, plain-AllWithin T lo hi h ts)

le_zero : (n : ℕ) → 0 ≤ n
le_zero n = omega arith

module _ {A : Imported} where
  abbrev pub strings_shape : Shape A SliceRef (Option (List String))
  strings_shape = slice strings_place "" (plain String)

  strings_copy-grows : (r : SliceRef) (h : Memory A) → h.next ≤ (strings_copy r h).1.next
  unfolding strings_copy
  strings_copy-grows none h = omega arith
  strings_copy-grows (some r) h = omega arith

  strings_copy-keeps : (r : SliceRef) (h : Memory A) → Agree 0 h.next h (strings_copy r h).1
  unfolding strings_copy
  strings_copy-keeps none h = λ b p q. refl
  strings_copy-keeps (some r) h =
      let h' = (alloc strings_place (replicate r.len "") h).1 in
      let src = window "" (load strings_place r.array h').0 r.offset 0 r.len in
      Agree-trans 0 h.next h.next h h' (strings_copy (some r) h).1 (omega arith)
        (alloc-Agree strings_place 0 (replicate r.len "") h)
        (store-Agree_below strings_place 0 h.next h.next
          (copy_over src (load strings_place h.next h').0) h' (omega arith))

  -- What the new array holds.
  strings_copy-held :
      (r : Slice) (h : Memory A)
      → r.array < h.next
      → (load strings_place h.next (strings_copy (some r) h).1).0
        ≡ elements strings_place "" (plain {A = A} String) h r
  unfolding strings_copy
  strings_copy-held r h u =
      let zeros = replicate r.len "" in
      let h' = (alloc strings_place zeros h).1 in
      let old = elements strings_place "" (plain {A = A} String) h r in
      let src = window "" (load strings_place r.array h').0 r.offset 0 r.len in
      let low : 0 ≤ r.array = le_zero r.array in
      let e : src ≡ old =
        ap (λ (b : _). window "" (strings_place.unwrap b) r.offset 0 r.len)
          (alloc-Agree strings_place 0 zeros h r.array low u) in
      load-store strings_place h.next (copy_over src (load strings_place h.next h').0) h'
      ∙ ap (λ (xs : List String). copy_over src xs) (load-alloc strings_place zeros h)
      ∙ ap (λ (xs : List String). copy_over xs zeros) e
      ∙ subst (λ n. copy_over old (replicate n "") ≡ old)
          (length-window "" (load strings_place r.array h).0 r.offset 0 r.len)
          (copy_over-replicate old "")

  strings_copy-fresh :
      (r : SliceRef) (h : Memory A)
      → strings_shape.Within 0 h.next h r
      → let out = strings_copy r h in
        strings_shape.Within h.next out.1.next out.1 out.0
        × (strings_shape.view out.1 out.0 ≡ strings_shape.view h r)
  unfolding strings_copy
  strings_copy-fresh none h w = (tt, refl)
  strings_copy-fresh (some r) h (p, u, w) =
      let end = (strings_copy (some r) h).1 in
      let old = elements strings_place "" (plain {A = A} String) h r in
      let all =
        elements-whole strings_place "" (plain {A = A} String) end h.next r.len old
          (strings_copy-held r h u)
          (length-window "" (load strings_place r.array h).0 r.offset 0 r.len) in
      (
        (
          omega arith,
          omega arith,
          plain-AllWithin String h.next end.next end
              (elements strings_place "" (plain {A = A} String) end (whole h.next r.len)),
        ),
        ap (λ (xs : List String). some (map (λ (x : String). x) xs)) all,
      )

  pub strings_copy-IsDeepCopy : IsDeepCopy {A = A} strings_shape strings_copy
  strings_copy-IsDeepCopy = record {
    grows = strings_copy-grows;
    keeps = strings_copy-keeps;
    within = λ r h w. (strings_copy-fresh r h w).0;
    same_view = λ r h w. (strings_copy-fresh r h w).1;
  }

  -- The five lists of nodes in a status.
  abbrev pub five_strings : Shape A (SliceRef × (SliceRef × (SliceRef × (SliceRef × SliceRef)))) (
      Option (List String)
      × (Option (List String)
          × (Option (List String) × (Option (List String) × Option (List String)))))
  five_strings =
      strings_shape both strings_shape both strings_shape both strings_shape both strings_shape

  abbrev pub five_copies :
      SliceRef × (SliceRef × (SliceRef × (SliceRef × SliceRef)))
      → Cmd A (SliceRef × (SliceRef × (SliceRef × (SliceRef × SliceRef))))
  five_copies =
      copy_both strings_copy
        (copy_both strings_copy (copy_both strings_copy (copy_both strings_copy strings_copy)))

  one_more :
      {T V : Type 0} {s : Shape A T V} (f : T → Cmd A T)
      → IsDeepCopy s f
      → IsDeepCopy (strings_shape both s) (copy_both strings_copy f)
  one_more f k = both-IsDeepCopy strings_copy f strings_copy-IsDeepCopy k

  pub five_copies-IsDeepCopy : IsDeepCopy {A = A} five_strings five_copies
  five_copies-IsDeepCopy =
      one_more _ (one_more _ (one_more _ (one_more strings_copy strings_copy-IsDeepCopy)))
