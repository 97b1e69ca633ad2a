-- ===== src/Copies/Slices.antt =====
-- The copies of slices whose elements have a DeepCopyInto of their own are deep copies.
use mathlib.Core.Path.{subst}
use openshift_upgrade_accele.Prelude.{
  ℕ, suc, ◌≤◌, ◌≡◌, refl, sym, ap, ◌∙◌, none, some, List, [], length, map, arith,
}
use openshift_upgrade_accele.Copies.Memory.{Imported, Memory, SliceRef}
use openshift_upgrade_accele.Copies.Cells.{Place, load, alloc}
use openshift_upgrade_accele.Copies.Copying.{
  Copier, elements_into, elements_copy, replicate, window, whole,
}
use openshift_upgrade_accele.Copies.Shapes.{Agree, Agree-trans, Shape}
use openshift_upgrade_accele.Copies.Pointers.{
  slice, elements, AllWithin, map-view-Agree, AllWithin-Agree, AllWithin-widen,
}
use openshift_upgrade_accele.Copies.Rules.{IsDeepCopy}
use openshift_upgrade_accele.Copies.Windows.{length-window, length-replicate, window-whole}
use openshift_upgrade_accele.Copies.Allocated.{alloc-Agree, load-alloc}
use openshift_upgrade_accele.Copies.Arrays.{
  elements_into-grows, elements_into-below, elements_into-Filled,
}

module _ {A : Imported} {T V : Type 0} (place : Place A (List T)) (z : T) (s : Shape A T V) where
  -- A slice of a new array reads all of it.
  pub elements-whole :
      (h : Memory A) (q n : ℕ) (xs : List T)
      → (load place q h).0 ≡ xs
      → length xs ≡ n
      → elements place z s h (whole q n) ≡ xs
  elements-whole h q n xs e l =
      ap (λ (ys : List T). window z ys 0 0 n) e
      ∙ subst (λ m. window z xs 0 0 m ≡ xs) l (window-whole z xs)

module _ {A : Imported} {T V : Type 0} {s : Shape A T V} (place : Place A (List T)) (c : Copier A T)
    (k : IsDeepCopy s c.into) where
  elements_copy-grows : (r : SliceRef) (h : Memory A) → h.next ≤ (elements_copy place c r h).1.next
  unfolding elements_copy
  elements_copy-grows none h = omega arith
  elements_copy-grows (some r) h =
      let h' = (alloc place (replicate r.len c.zero_value) h).1 in
      omega (arith, elements_into-grows place c k r h.next 0 r.len h')

  elements_copy-keeps :
      (r : SliceRef) (h : Memory A) → Agree 0 h.next h (elements_copy place c r h).1
  unfolding elements_copy
  elements_copy-keeps none h = λ b p q. refl
  elements_copy-keeps (some r) h =
      let h' = (alloc place (replicate r.len c.zero_value) h).1 in
      Agree-trans 0 h.next h.next h h' (elements_copy place c (some r) h).1 (omega arith)
        (alloc-Agree place 0 (replicate r.len c.zero_value) h)
        (elements_into-below place c k r h.next 0 r.len h' (omega arith))

  elements_copy-fresh :
      (r : SliceRef) (h : Memory A)
      → (slice place c.zero_value s).Within 0 h.next h r
      → let out = elements_copy place c r h in
        (slice place c.zero_value s).Within h.next out.1.next out.1 out.0
        × ((slice place c.zero_value s).view out.1 out.0 ≡ (slice place c.zero_value s).view h r)
  unfolding elements_copy
  elements_copy-fresh none h w = (tt, refl)
  elements_copy-fresh (some r) h (p, u, w) =
      let zeros = replicate r.len c.zero_value in
      let h' = (alloc place zeros h).1 in
      let end = (elements_into place c r h.next 0 r.len h').1 in
      let agree = alloc-Agree place 0 zeros h in
      let old = elements place c.zero_value s h r in
      let filled =
        elements_into-Filled place c k r h.next r.len 0 (load place r.array h).0 [] zeros h'
          (omega arith) u (ap place.unwrap (agree r.array p u)) (load-alloc place zeros h) refl
          (length-replicate r.len c.zero_value) (AllWithin-Agree s 0 h.next h h' old agree w) in
      let n =
        filled.length_copies
        ∙ length-window c.zero_value (load place r.array h).0 r.offset 0 r.len in
      let all = elements-whole place c.zero_value s end h.next r.len filled.copies filled.held n in
      let wide =
        AllWithin-widen s (suc h.next) end.next h.next end.next end filled.copies (omega arith)
          (omega arith) filled.all_within in
      (
        (
          omega arith,
          omega (arith, elements_into-grows place c k r h.next 0 r.len h'),
          subst (λ ts. AllWithin s h.next end.next end ts) (sym all) wide,
        ),
        ap some (
            ap (λ (ts : List T). map (s.view end) ts) all
            ∙ filled.same_views
            ∙ map-view-Agree s 0 h.next h h' old agree w),
      )

  pub elements_copy-IsDeepCopy : IsDeepCopy (slice place c.zero_value s) (elements_copy place c)
  elements_copy-IsDeepCopy = record {
    grows = elements_copy-grows;
    keeps = elements_copy-keeps;
    within = λ r h w. (elements_copy-fresh r h w).0;
    same_view = λ r h w. (elements_copy-fresh r h w).1;
  }
