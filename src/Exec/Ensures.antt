-- ===== src/Exec/Ensures.antt =====
-- What an action ensures from an invariant of the whole state: it holds again however the action
-- ends, and a value that the action ends with has a property.
use openshift_upgrade_accele.Api.{UpgradeAccelerator}
use openshift_upgrade_accele.Exec.{
  Outcome, done, fail, panic, State, Exec, and_then, ◌>>=◌, pure, throw, get, or_else,
}
use openshift_upgrade_accele.Exec.Preserves.{Preserves}

-- The invariant after the action, and the property of its value, if it ends with one.
abbrev pub Ended :
    {W E A : Type 0} → (State W → Type 0) → (A → Type 0) → Outcome E A → State W → Type 0
Ended I Post (done a) s = I s × Post a
Ended I Post (fail e) s = I s
Ended I Post panic s = I s

pub record Ensures {W E A : Type 0} (I : State W → Type 0) (Post : A → Type 0) (m : Exec W E A)
    : Type 0 where
  pub at : (s : State W) → I s → Ended I Post (m s).0 (m s).1

module _ {W E A : Type 0} (I : State W → Type 0) where
  kept_at : (o : Outcome E A) (s : State W) → I s → Ended I (λ _. Unit {0}) o s
  kept_at (done a) s p = (p, tt)
  kept_at (fail e) s p = p
  kept_at panic s p = p

  state_at : (Post : A → Type 0) (o : Outcome E A) (s : State W) → Ended I Post o s → I s
  state_at Post (done a) s p = p.0
  state_at Post (fail e) s p = p
  state_at Post panic s p = p

module _ {W E A : Type 0} {I : State W → Type 0} where
  pub Ensures-kept : (m : Exec W E A) → Preserves I m → Ensures I (λ _. Unit {0}) m
  Ensures-kept m k = record { at = λ s p. kept_at I (m s).0 (m s).1 (k.at s p) }

  pub Preserves-ensured : {Post : A → Type 0} (m : Exec W E A) → Ensures I Post m → Preserves I m
  Preserves-ensured {Post = Post} m k = record {
    at = λ s p. state_at I Post (m s).0 (m s).1 (k.at s p);
  }

  pub Ensures-pure : {Post : A → Type 0} (a : A) → Post a → Ensures I Post (pure {E = E} a)
  Ensures-pure a q = record { at = λ s p. (p, q) }

  pub Ensures-throw : {Post : A → Type 0} (e : E) → Ensures I Post (throw {A = A} e)
  Ensures-throw e = record { at = λ s p. p }

module _ {W E : Type 0} {I : State W → Type 0} where
  pub Ensures-get :
      {Post : UpgradeAccelerator → Type 0}
      → ((s : State W) → I s → Post s.ua)
      → Ensures I Post (get {E = E})
  Ensures-get q = record { at = λ s p. (p, q s p) }

module _ {W E A B : Type 0} {I : State W → Type 0} {Post : B → Type 0} where
  then_at :
      {Mid : A → Type 0} (o : Outcome E A) (f : A → Exec W E B) (s : State W)
      → Ended I Mid o s
      → ((a : A) → Mid a → Ensures I Post (f a))
      → Ended I Post (and_then o f s).0 (and_then o f s).1
  then_at (done a) f s (p, q) k = (k a q).at s p
  then_at (fail e) f s p k = p
  then_at panic f s p k = p

  pub Ensures-bind :
      {Mid : A → Type 0} (m : Exec W E A) (f : A → Exec W E B)
      → Ensures I Mid m
      → ((a : A) → Mid a → Ensures I Post (f a))
      → Ensures I Post (m >>= f)
  Ensures-bind m f km kf = record { at = λ s p. then_at (m s).0 f (m s).1 (km.at s p) kf }

module _ {W E F A : Type 0} {I : State W → Type 0} {Post : A → Type 0} where
  handled_at :
      (o : Outcome F A) (handler : F → Exec W E A) (s : State W)
      → Ended I Post o s
      → ((x : F) → Ensures I Post (handler x))
      → Ended I Post (or_else (λ _. (o, s)) handler s).0 (or_else (λ _. (o, s)) handler s).1
  handled_at (done a) handler s p k = p
  handled_at (fail x) handler s p k = (k x).at s p
  handled_at panic handler s p k = p

  pub Ensures-or_else :
      (m : Exec W F A) (handler : F → Exec W E A)
      → Ensures I Post m
      → ((x : F) → Ensures I Post (handler x))
      → Ensures I Post (or_else m handler)
  Ensures-or_else m handler km k = record {
    at = λ s p. handled_at (m s).0 handler (m s).1 (km.at s p) k;
  }
