-- ===== src/Copies/Allocated.antt =====
-- Cells that are allocated and written, and that `new` with DeepCopyInto is a deep copy.
use mathlib.Core.Path.{subst}
use openshift_upgrade_accele.Prelude.{
  ℕ, ◌≤◌, ◌<◌, ◌≡◌, refl, sym, ap, ◌∙◌, none, some, nat_eq, if◌then◌else◌, arith,
}
use openshift_upgrade_accele.Copies.Memory.{Imported, Memory, Pointer}
use openshift_upgrade_accele.Copies.Cells.{Place, load, store, alloc}
use openshift_upgrade_accele.Copies.Copying.{Copier, new_copy}
use openshift_upgrade_accele.Copies.Shapes.{Agree, Agree-narrow, Agree-trans, Shape}
use openshift_upgrade_accele.Copies.Pointers.{pointer}
use openshift_upgrade_accele.Copies.Rules.{IsDeepCopy}

module _ {A : Imported} {T : Type 0} (place : Place A T) where
  pub alloc-Agree : (lo : ℕ) (t : T) (h : Memory A) → Agree lo h.next h (alloc place t h).1
  alloc-Agree lo t h b p q = ground arith

  pub store-Agree_below :
      (lo hi a : ℕ) (t : T) (h : Memory A) → hi ≤ a → Agree lo hi h (store place a t h).1
  store-Agree_below lo hi a t h r b p q = ground arith

  pub store-Agree_above :
      (lo hi a : ℕ) (t : T) (h : Memory A) → a < lo → Agree lo hi h (store place a t h).1
  store-Agree_above lo hi a t h r b p q = ground arith

  pub load-store : (a : ℕ) (t : T) (h : Memory A) → (load place a (store place a t h).1).0 ≡ t
  load-store a t h =
      let e : (if nat_eq a a then place.wrap t else h.cell a) ≡ place.wrap t = ground arith in
      ap place.unwrap e ∙ place.unwrap_wrap t

  pub load-alloc : (t : T) (h : Memory A) → (load place h.next (alloc place t h).1).0 ≡ t
  load-alloc t h =
      let e : (if nat_eq h.next h.next then place.wrap t else h.cell h.next) ≡ place.wrap t =
        ground arith in
      ap place.unwrap e ∙ place.unwrap_wrap t

module _ {A : Imported} {T V : Type 0} {s : Shape A T V} (place : T → Place A T) (c : Copier A T)
    (k : IsDeepCopy s c.into) where
  new_copy-grows : (p : Pointer) (h : Memory A) → h.next ≤ (new_copy place c p h).1.next
  unfolding new_copy
  new_copy-grows none h = omega arith
  new_copy-grows (some a) h =
      let h' = (alloc (place c.zero_value) c.zero_value h).1 in
      omega (arith, k.grows (load (place c.zero_value) a h').0 h')

  new_copy-keeps : (p : Pointer) (h : Memory A) → Agree 0 h.next h (new_copy place c p h).1
  unfolding new_copy
  new_copy-keeps none h = λ b p q. refl
  new_copy-keeps (some a) h =
      let pl = place c.zero_value in
      let h' = (alloc pl c.zero_value h).1 in
      let t = (load pl a h').0 in
      let h'' = (c.into t h').1 in
      Agree-trans 0 h.next h.next h h' (new_copy place c (some a) h).1 (omega arith)
        (alloc-Agree pl 0 c.zero_value h)
        (Agree-trans 0 h.next h.next h' h'' (new_copy place c (some a) h).1 (omega arith)
          (Agree-narrow 0 h'.next 0 h.next h' h'' (omega arith) (omega arith) (k.keeps t h'))
          (store-Agree_below pl 0 h.next h.next (c.into t h').0 h'' (omega arith)))

  -- The struct that a pointer points to, in the memory in which its copy has been allocated.
  new_copy-source :
      (a : ℕ) (h : Memory A)
      → (pointer (place c.zero_value) s).Within 0 h.next h (some a)
      → let pl = place c.zero_value in
        let h' = (alloc pl c.zero_value h).1 in
        s.Within 0 h'.next h' (load pl a h').0
        × (s.view h' (load pl a h').0 ≡ s.view h (load pl a h).0)
  new_copy-source a h (p, q, w) =
      let pl = place c.zero_value in
      let h' = (alloc pl c.zero_value h).1 in
      let agree = alloc-Agree pl 0 c.zero_value h in
      let later =
        s.within_widen 0 h.next 0 h'.next h' (load pl a h).0 (omega arith) (omega arith)
          (s.within_agree 0 h.next h h' (load pl a h).0 agree w) in
      let same = ap pl.unwrap (agree a p q) in
      (
        subst (λ t. s.Within 0 h'.next h' t) (sym same) later,
        ap (s.view h') same ∙ s.view_agree 0 h.next h h' (load pl a h).0 agree w,
      )

  new_copy-fresh :
      (p : Pointer) (h : Memory A)
      → (pointer (place c.zero_value) s).Within 0 h.next h p
      → let r = new_copy place c p h in
        (pointer (place c.zero_value) s).Within h.next r.1.next r.1 r.0
        × ((pointer (place c.zero_value) s).view r.1 r.0
            ≡ (pointer (place c.zero_value) s).view h p)
  unfolding new_copy
  new_copy-fresh none h w = (tt, refl)
  new_copy-fresh (some a) h w =
      let pl = place c.zero_value in
      let h' = (alloc pl c.zero_value h).1 in
      let t = (load pl a h').0 in
      let h'' = (c.into t h').1 in
      let t' = (c.into t h').0 in
      let r = (new_copy place c (some a) h).1 in
      let source = new_copy-source a h w in
      let agree = store-Agree_above pl h'.next h''.next h.next t' h'' (omega arith) in
      let stored = load-store pl h.next t' h'' in
      let made = k.within t h' source.0 in
      let later =
        s.within_widen h'.next h''.next h.next h''.next r t' (omega arith) (omega arith)
          (s.within_agree h'.next h''.next h'' r t' agree made) in
      let same = s.view_agree h'.next h''.next h'' r t' agree made in
      (
        (
          omega arith,
          omega (arith, k.grows t h'),
          subst (λ t. s.Within h.next h''.next r t) (sym stored) later,
        ),
        ap some (ap (s.view r) stored ∙ same ∙ k.same_view t h' source.0 ∙ source.1),
      )

  pub new_copy-IsDeepCopy : IsDeepCopy (pointer (place c.zero_value) s) (new_copy place c)
  new_copy-IsDeepCopy = record {
    grows = new_copy-grows;
    keeps = new_copy-keeps;
    within = λ p h w. (new_copy-fresh p h w).0;
    same_view = λ p h w. (new_copy-fresh p h w).1;
  }
