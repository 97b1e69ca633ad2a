-- ===== src/Copies/Arrays.antt =====
-- The loop that copies the elements of a slice, round by round.
use mathlib.Core.Path.{subst}
use openshift_upgrade_accele.Prelude.{
  ℕ, zero, suc, ◌+◌, ◌≤◌, ◌<◌, ◌≡◌, refl, sym, ap, ◌∙◌, List, [], ◌∷◌, ◌++◌, length, map,
  length-append, arith,
}
use openshift_upgrade_accele.Copies.Structs.{Slice}
use openshift_upgrade_accele.Copies.Memory.{Imported, Memory}
use openshift_upgrade_accele.Copies.Cells.{Place, load, store}
use openshift_upgrade_accele.Copies.Copying.{Copier, elements_into, get_or, set_elem, window}
use openshift_upgrade_accele.Copies.Shapes.{Agree, Agree-narrow, Agree-trans, Shape}
use openshift_upgrade_accele.Copies.Pointers.{AllWithin, map-view-Agree, AllWithin-Agree}
use openshift_upgrade_accele.Copies.Rules.{IsDeepCopy}
use openshift_upgrade_accele.Copies.Windows.{set_elem-append}
use openshift_upgrade_accele.Copies.Allocated.{store-Agree_below, store-Agree_above, load-store}

pub append_assoc :
    {T : Type 0} (xs : List T) (y : T) (ys : List T) → (xs ++ (y ∷ [])) ++ ys ≡ xs ++ (y ∷ ys)
append_assoc [] y ys = refl
append_assoc (x ∷ xs) y ys = ap (λ (zs : List _). x ∷ zs) (append_assoc xs y ys)

module _ {A : Imported} {T V : Type 0} {s : Shape A T V} (place : Place A (List T)) (c : Copier A T)
    (k : IsDeepCopy s c.into) (src : Slice) (q : ℕ) where
  -- One round: what `in[i]` is, the memory in which it has been copied, and that in which the copy
  -- is written.
  abbrev source : ℕ → Memory A → T
  source i h = get_or c.zero_value (load place src.array h).0 (src.offset + i)

  abbrev copied : ℕ → Memory A → T × Memory A
  copied i h = c.into (source i h) h

  abbrev written : ℕ → Memory A → Memory A
  written i h = let r = copied i h in (store place q (set_elem (load place q r.1).0 i r.0) r.1).1

  written-below : (i : ℕ) (h : Memory A) → q < h.next → Agree 0 q h (written i h)
  written-below i h u =
      let r = copied i h in
      Agree-trans 0 q q h r.1 (written i h) (omega arith)
        (Agree-narrow 0 h.next 0 q h r.1 (omega arith) (omega arith) (k.keeps (source i h) h))
        (store-Agree_below place 0 q q (set_elem (load place q r.1).0 i r.0) r.1 (omega arith))

  written-above : (i : ℕ) (h : Memory A) → q < h.next → Agree (suc q) h.next h (written i h)
  written-above i h u =
      let r = copied i h in
      Agree-trans (suc q) h.next h.next h r.1 (written i h) (omega arith)
        (Agree-narrow 0 h.next (suc q) h.next h r.1 (omega arith) (omega arith)
          (k.keeps (source i h) h))
        (store-Agree_above place (suc q) h.next q (set_elem (load place q r.1).0 i r.0) r.1
          (omega arith))

  pub elements_into-grows :
      (i n : ℕ) (h : Memory A) → h.next ≤ (elements_into place c src q i n h).1.next
  unfolding elements_into
  elements_into-grows i zero h = omega arith
  elements_into-grows i (suc n) h =
      omega (arith, k.grows (source i h) h, elements_into-grows (suc i) n (written i h))

  pub elements_into-below :
      (i n : ℕ) (h : Memory A) → q < h.next → Agree 0 q h (elements_into place c src q i n h).1
  unfolding elements_into
  elements_into-below i zero h u = λ b v w. refl
  elements_into-below i (suc n) h u =
      let u' : q < (written i h).next = omega (arith, k.grows (source i h) h) in
      Agree-trans 0 q q h (written i h) (elements_into place c src q (suc i) n (written i h)).1
        (omega arith) (written-below i h u) (elements_into-below (suc i) n (written i h) u')

  pub elements_into-above :
      (i n : ℕ) (h : Memory A)
      → q < h.next
      → Agree (suc q) h.next h (elements_into place c src q i n h).1
  unfolding elements_into
  elements_into-above i zero h u = λ b v w. refl
  elements_into-above i (suc n) h u =
      let u' : q < (written i h).next = omega (arith, k.grows (source i h) h) in
      Agree-trans (suc q) h.next (written i h).next h (written i h)
        (elements_into place c src q (suc i) n (written i h)).1 (k.grows (source i h) h)
        (written-above i h u) (elements_into-above (suc i) n (written i h) u')

  -- After the loop the array holds what stood before the position `i`, and a copy of each element
  -- from there on.
  pub record Filled (h : Memory A) (done ts : List T) (h' : Memory A) : Type 0 where
    pub copies : List T
    pub held : (load place q h').0 ≡ done ++ copies
    pub length_copies : length copies ≡ length ts
    pub all_within : AllWithin s (suc q) h'.next h' copies
    pub same_views : map (s.view h') copies ≡ map (s.view h) ts

  module _ (i : ℕ) (h : Memory A) (arr : List T) where
    -- The element that is copied lies as it did before, and the copy goes through new addresses.
    round-source :
        (n : ℕ)
        → q < h.next
        → place.unwrap (h.cell src.array) ≡ arr
        → AllWithin s 0 q h (window c.zero_value arr src.offset i (suc n))
        → s.Within 0 h.next h (source i h)
    round-source n u e (w, ws) =
        subst (λ xs. s.Within 0 h.next h (get_or c.zero_value xs (src.offset + i))) (sym e)
          (s.within_widen 0 q 0 h.next h (get_or c.zero_value arr (src.offset + i)) (omega arith)
            (omega arith) w)

    round-fresh :
        q < h.next
        → s.Within 0 h.next h (source i h)
        → s.Within h.next (written i h).next (written i h) (copied i h).0
          × (s.view (written i h) (copied i h).0 ≡ s.view h (source i h))
    round-fresh u w =
        let r = copied i h in
        let made = k.within (source i h) h w in
        let agree =
          store-Agree_above place h.next r.1.next q (set_elem (load place q r.1).0 i r.0) r.1 u in
        (
          s.within_agree h.next r.1.next r.1 (written i h) r.0 agree made,
          s.view_agree h.next r.1.next r.1 (written i h) r.0 agree made
              ∙ k.same_view (source i h) h w,
        )

  round-held :
      (i : ℕ) (h : Memory A) (done : List T) (x : T) (rest : List T)
      → q < h.next
      → length done ≡ i
      → (load place q h).0 ≡ done ++ (x ∷ rest)
      → (load place q (written i h)).0 ≡ (done ++ ((copied i h).0 ∷ [])) ++ rest
  round-held i h done x rest u l e =
      let r = copied i h in
      load-store place q (set_elem (load place q r.1).0 i r.0) r.1
      ∙ ap (λ (xs : List T). set_elem xs i r.0)
          (ap place.unwrap (k.keeps (source i h) h q (omega arith) u) ∙ e)
      ∙ subst (λ j. set_elem (done ++ (x ∷ rest)) j r.0 ≡ (done ++ (r.0 ∷ [])) ++ rest) l
          (set_elem-append done x r.0 rest)

  pub elements_into-Filled :
      (n i : ℕ) (arr done rest : List T) (h : Memory A)
      → q < h.next
      → src.array < q
      → (load place src.array h).0 ≡ arr
      → (load place q h).0 ≡ done ++ rest
      → length done ≡ i
      → length rest ≡ n
      → AllWithin s 0 q h (window c.zero_value arr src.offset i n)
      → Filled h done (window c.zero_value arr src.offset i n) (elements_into place c src q i n h).1
  unfolding elements_into
  elements_into-Filled zero i arr done [] h u v e f l m ws = record {
    copies = [];
    held = f;
    length_copies = refl;
    all_within = tt;
    same_views = refl;
  }
  elements_into-Filled zero i arr done (x ∷ rest) h u v e f l m ws = absurd (omega (arith, m))
  elements_into-Filled (suc n) i arr done [] h u v e f l m ws = absurd (omega (arith, m))
  elements_into-Filled (suc n) i arr done (x ∷ rest) h u v e f l m (w, ws) =
      let t = (copied i h).0 in
      let h' = written i h in
      let end = (elements_into place c src q (suc i) n h').1 in
      let u' : q < h'.next = omega (arith, k.grows (source i h) h) in
      let below = written-below i h u in
      let tail = window c.zero_value arr src.offset (suc i) n in
      let fresh = round-fresh i h arr u (round-source i h arr n u e (w, ws)) in
      let above = elements_into-above (suc i) n h' u' in
      let low =
        s.within_widen h.next h'.next (suc q) h'.next h' t (omega arith) (omega arith) fresh.0 in
      let ih =
        elements_into-Filled n (suc i) arr (done ++ (t ∷ [])) rest h' u' v
          (ap place.unwrap (below src.array (omega arith) v) ∙ e) (round-held i h done x rest u l f)
          (length-append done (t ∷ []) ∙ omega (arith, l)) (omega (arith, m))
          (AllWithin-Agree s 0 q h h' tail below ws) in
      let first =
        s.view_agree (suc q) h'.next h' end t above low
        ∙ fresh.1
        ∙ ap (λ (xs : List T). s.view h (get_or c.zero_value xs (src.offset + i))) e in
      record {
        copies = t ∷ ih.copies;
        held = ih.held ∙ append_assoc done t ih.copies;
        length_copies = ap suc ih.length_copies;
        all_within = (
          s.within_widen (suc q) h'.next (suc q) end.next end t (omega arith)
              (elements_into-grows (suc i) n h')
              (s.within_agree (suc q) h'.next h' end t above low),
          ih.all_within,
        );
        same_views = λ j. first j ∷ (ih.same_views ∙ map-view-Agree s 0 q h h' tail below ws) j;
      }
