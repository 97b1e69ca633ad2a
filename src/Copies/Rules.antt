-- ===== src/Copies/Rules.antt =====
-- What a deep copy is, and that it is made of the deep copies of the fields.
use openshift_upgrade_accele.Prelude.{ℕ, ◌≤◌, ◌≡◌, refl, ap, ◌∙◌, arith}
use openshift_upgrade_accele.Copies.Memory.{Imported, Memory}
use openshift_upgrade_accele.Copies.Cells.{Cmd, pure, ◌>>=◌}
use openshift_upgrade_accele.Copies.Shapes.{
  Agree, Agree-narrow, Agree-trans, Shape, plain, ◌both◌, struct,
}

-- The copy takes new addresses only and writes to no others; reading it goes through the new
-- addresses only and gives what reading the original gives.
pub record IsDeepCopy {A : Imported} {T V : Type 0} (s : Shape A T V) (copy : T → Cmd A T)
    : Type 0 where
  pub grows : (t : T) (h : Memory A) → h.next ≤ (copy t h).1.next
  pub keeps : (t : T) (h : Memory A) → Agree 0 h.next h (copy t h).1
  pub within :
      (t : T) (h : Memory A)
      → s.Within 0 h.next h t
      → s.Within h.next (copy t h).1.next (copy t h).1 (copy t h).0
  pub same_view :
      (t : T) (h : Memory A) → s.Within 0 h.next h t → s.view (copy t h).1 (copy t h).0 ≡ s.view h t

pub plain-IsDeepCopy : {A : Imported} (T : Type 0) → IsDeepCopy {A = A} (plain T) (λ t. pure t)
plain-IsDeepCopy T = record {
  grows = λ t h. omega arith;
  keeps = λ t h a p q. refl;
  within = λ t h w. tt;
  same_view = λ t h w. refl;
}

module _ {A : Imported} {T V : Type 0} {s : Shape A T V} {copy : T → Cmd A T}
    (k : IsDeepCopy s copy) where
  -- A value that is read at old addresses is not changed by another deep copy.
  pub Within-later :
      {U W : Type 0} (r : Shape A U W) (t : T) (u : U) (h : Memory A)
      → r.Within 0 h.next h u
      → r.Within 0 (copy t h).1.next (copy t h).1 u
  Within-later r t u h w =
      r.within_widen 0 h.next 0 (copy t h).1.next (copy t h).1 u (omega arith) (k.grows t h)
        (r.within_agree 0 h.next h (copy t h).1 u (k.keeps t h) w)

  -- Nor is one that is read at the addresses from `lo` on.
  pub fresh_later :
      {U W : Type 0} (r : Shape A U W) (t : T) (u : U) (lo : ℕ) (h : Memory A)
      → r.Within lo h.next h u
      → r.Within lo (copy t h).1.next (copy t h).1 u
  fresh_later r t u lo h w =
      let agree =
        Agree-narrow 0 h.next lo h.next h (copy t h).1 (omega arith) (omega arith) (k.keeps t h) in
      r.within_widen lo h.next lo (copy t h).1.next (copy t h).1 u (omega arith) (k.grows t h)
        (r.within_agree lo h.next h (copy t h).1 u agree w)

  pub view_later :
      {U W : Type 0} (r : Shape A U W) (t : T) (u : U) (lo : ℕ) (h : Memory A)
      → r.Within lo h.next h u
      → r.view (copy t h).1 u ≡ r.view h u
  view_later r t u lo h w =
      r.view_agree lo h.next h (copy t h).1 u
        (Agree-narrow 0 h.next lo h.next h (copy t h).1 (omega arith) (omega arith) (k.keeps t h)) w

  pub struct-IsDeepCopy :
      {S W : Type 0} (parts : S → T) (rebuild : S → T → S) (join : S → V → W)
      (copy_struct : S → Cmd A S)
      → ((x : S) (h : Memory A)
          → copy_struct x h ≡ (rebuild x (copy (parts x) h).0, (copy (parts x) h).1))
      → ((x : S) (t : T) → parts (rebuild x t) ≡ t)
      → ((x : S) (t : T) (v : V) → join (rebuild x t) v ≡ join x v)
      → IsDeepCopy (struct parts join s) copy_struct
  struct-IsDeepCopy parts rebuild join copy_struct e back keep = record {
    grows = λ x h. rw (e x h) (k.grows (parts x) h);
    keeps = λ x h. rw (e x h) (k.keeps (parts x) h);
    within = λ x h w. rw (e x h, back x (copy (parts x) h).0) (k.within (parts x) h w);
    same_view = λ x h w.
        rw (e x h, back x (copy (parts x) h).0, keep x (copy (parts x) h).0)
          (ap (join x) (k.same_view (parts x) h w));
  }

abbrev pub copy_both :
    {A : Imported} {T U : Type 0} → (T → Cmd A T) → (U → Cmd A U) → T × U → Cmd A (T × U)
copy_both f g t = do first ← f t.0; second ← g t.1; pure (first, second)

module _ {A : Imported} {T V U W : Type 0} {s : Shape A T V} {r : Shape A U W} where
  both-Within :
      (f : T → Cmd A T) (g : U → Cmd A U)
      → IsDeepCopy s f
      → IsDeepCopy r g
      → (t : T × U) (h : Memory A) → (s both r).Within 0 h.next h t
      → (s both r).Within h.next
          (copy_both f g t h).1.next
          (copy_both f g t h).1
          (copy_both f g t h).0
  both-Within f g kf kg (t, u) h (w, v) =
      let h' = (f t h).1 in
      let h'' = (g u h').1 in
      (
        fresh_later kg s u (f t h).0 h.next h' (kf.within t h w),
        r.within_widen h'.next h''.next h.next h''.next h'' (g u h').0 (kf.grows t h) (omega arith)
            (kg.within u h' (Within-later kf r t u h v)),
      )

  both-same_view :
      (f : T → Cmd A T) (g : U → Cmd A U)
      → IsDeepCopy s f
      → IsDeepCopy r g
      → (t : T × U) (h : Memory A) → (s both r).Within 0 h.next h t
      → (s both r).view (copy_both f g t h).1 (copy_both f g t h).0 ≡ (s both r).view h t
  both-same_view f g kf kg (t, u) h (w, v) =
      let h' = (f t h).1 in
      let left = view_later kg s u (f t h).0 h.next h' (kf.within t h w) ∙ kf.same_view t h w in
      let right = kg.same_view u h' (Within-later kf r t u h v) ∙ view_later kf r t u 0 h v in
      λ i. (left i, right i)

  pub both-IsDeepCopy :
      (f : T → Cmd A T) (g : U → Cmd A U)
      → IsDeepCopy s f
      → IsDeepCopy r g
      → IsDeepCopy (s both r) (copy_both f g)
  both-IsDeepCopy f g kf kg = record {
    grows = λ t h. omega (arith, kf.grows t.0 h, kg.grows t.1 (f t.0 h).1);
    keeps = λ t h.
        Agree-trans 0 h.next (f t.0 h).1.next h (f t.0 h).1 (g t.1 (f t.0 h).1).1 (kf.grows t.0 h)
          (kf.keeps t.0 h) (kg.keeps t.1 (f t.0 h).1);
    within = λ t h. both-Within f g kf kg t h;
    same_view = λ t h. both-same_view f g kf kg t h;
  }
