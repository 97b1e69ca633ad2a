-- ===== src/Copies/Shapes.antt =====
-- What is read at a type of Go, and which addresses this reading goes through.
use openshift_upgrade_accele.Prelude.{ℕ, ◌≤◌, ◌<◌, ◌≡◌, refl, ap, ◌∙◌, arith}
use openshift_upgrade_accele.Copies.Memory.{Imported, Memory}

module _ {A : Imported} where
  -- Two memories hold the same at the addresses from `lo` up to `hi`.
  abbrev pub Agree : ℕ → ℕ → Memory A → Memory A → Type 0
  Agree lo hi h h' = (a : ℕ) → lo ≤ a → a < hi → h'.cell a ≡ h.cell a

  pub Agree-narrow :
      (lo hi lo' hi' : ℕ) (h h' : Memory A)
      → lo ≤ lo'
      → hi' ≤ hi
      → Agree lo hi h h'
      → Agree lo' hi' h h'
  Agree-narrow lo hi lo' hi' h h' p q agree a r s = agree a (omega arith) (omega arith)

  pub Agree-trans :
      (lo hi hi' : ℕ) (h h' h'' : Memory A)
      → hi ≤ hi'
      → Agree lo hi h h'
      → Agree lo hi' h' h''
      → Agree lo hi h h''
  Agree-trans lo hi hi' h h' h'' q f g a r s = g a r (omega arith) ∙ f a r s

-- `Within lo hi h t`: reading `t` in `h` goes through addresses from `lo` up to `hi` only.
pub record Shape (A : Imported) (T V : Type 0) : Type 1 where
  pub view : Memory A → T → V
  pub Within : ℕ → ℕ → Memory A → T → Type 0
  pub view_agree :
      (lo hi : ℕ) (h h' : Memory A) (t : T)
      → Agree lo hi h h'
      → Within lo hi h t
      → view h' t ≡ view h t
  pub within_agree :
      (lo hi : ℕ) (h h' : Memory A) (t : T)
      → Agree lo hi h h'
      → Within lo hi h t
      → Within lo hi h' t
  pub within_widen :
      (lo hi lo' hi' : ℕ) (h : Memory A) (t : T)
      → lo' ≤ lo
      → hi ≤ hi'
      → Within lo hi h t
      → Within lo' hi' h t

module _ {A : Imported} where
  -- A type without pointers.
  abbrev pub plain : (T : Type 0) → Shape A T T
  plain T = record {
    view = λ h t. t;
    Within = λ lo hi h t. Unit {0};
    view_agree = λ lo hi h h' t agree w. refl;
    within_agree = λ lo hi h h' t agree w. tt;
    within_widen = λ lo hi lo' hi' h t p q w. tt;
  }

  infixr 6 ◌both◌
  abbrev pub ◌both◌ : {T V U W : Type 0} → Shape A T V → Shape A U W → Shape A (T × U) (V × W)
  s both r = record {
    view = λ h t. (s.view h t.0, r.view h t.1);
    Within = λ lo hi h t. s.Within lo hi h t.0 × r.Within lo hi h t.1;
    view_agree = λ lo hi h h' t agree w.
        λ i. (s.view_agree lo hi h h' t.0 agree w.0 i, r.view_agree lo hi h h' t.1 agree w.1 i);
    within_agree = λ lo hi h h' t agree w.
        (s.within_agree lo hi h h' t.0 agree w.0, r.within_agree lo hi h h' t.1 agree w.1);
    within_widen = λ lo hi lo' hi' h t p q w.
        (s.within_widen lo hi lo' hi' h t.0 p q w.0, r.within_widen lo hi lo' hi' h t.1 p q w.1);
  }

  -- A struct by its fields that may point elsewhere: `parts` takes them out, `join` puts their
  -- values in the place of the references.
  abbrev pub struct : {T V S W : Type 0} → (S → T) → (S → V → W) → Shape A T V → Shape A S W
  struct parts join s = record {
    view = λ h t. join t (s.view h (parts t));
    Within = λ lo hi h t. s.Within lo hi h (parts t);
    view_agree = λ lo hi h h' t agree w. ap (join t) (s.view_agree lo hi h h' (parts t) agree w);
    within_agree = λ lo hi h h' t. s.within_agree lo hi h h' (parts t);
    within_widen = λ lo hi lo' hi' h t. s.within_widen lo hi lo' hi' h (parts t);
  }
