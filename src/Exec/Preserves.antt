-- ===== src/Exec/Preserves.antt =====
-- What an action preserves of the whole state, however it ends, one rule for each way to build one.
use openshift_upgrade_accele.Prelude.{Bool, true, false, Option, none, some, if◌then◌else◌}
use openshift_upgrade_accele.Exec.{
  Outcome, done, fail, panic, State, Exec, and_then, ◌>>=◌, pure, throw, or_crash, get, when,
  or_else,
}

-- Where `I` holds before `m`, it holds after.
pub record Preserves {W E A : Type 0} (I : State W → Type 0) (m : Exec W E A) : Type 0 where
  pub at : (s : State W) → I s → I (m s).1

module _ {W E A : Type 0} {I : State W → Type 0} where
  pub Preserves-pure : (a : A) → Preserves I (pure {E = E} a)
  Preserves-pure a = record { at = λ s p. p }

  pub Preserves-throw : (e : E) → Preserves I (throw {A = A} e)
  Preserves-throw e = record { at = λ s p. p }

  pub Preserves-if :
      (b : Bool) (m n : Exec W E A)
      → Preserves I m
      → Preserves I n
      → Preserves I (if b then m else n)
  Preserves-if true m n p q = p
  Preserves-if false m n p q = q

module _ {W E : Type 0} {I : State W → Type 0} where
  pub Preserves-get : Preserves I (get {E = E})
  Preserves-get = record { at = λ s p. p }

  pub Preserves-when : (b : Bool) (m : Exec W E Unit) → Preserves I m → Preserves I (when b m)
  Preserves-when true m k = record { at = k.at }
  Preserves-when false m k = record { at = λ s p. p }

module _ {W E A B : Type 0} {I : State W → Type 0} where
  then_at :
      (o : Outcome E A) (f : A → Exec W E B) (s : State W)
      → ((a : A) → Preserves I (f a))
      → I s
      → I (and_then o f s).1
  then_at (done a) f s k p = (k a).at s p
  then_at (fail e) f s k p = p
  then_at panic f s k p = p

  pub Preserves-bind :
      (m : Exec W E A) (f : A → Exec W E B)
      → Preserves I m
      → ((a : A) → Preserves I (f a))
      → Preserves I (m >>= f)
  Preserves-bind m f km kf = record { at = λ s p. then_at (m s).0 f (m s).1 kf (km.at s p) }

  pub Preserves-or_crash :
      (o : Option A) (f : A → Exec W E B)
      → ((a : A) → Preserves I (f a))
      → Preserves I (or_crash o f)
  Preserves-or_crash none f k = record { at = λ s p. p }
  Preserves-or_crash (some a) f k = record { at = λ s p. (k a).at s p }

module _ {W E F A : Type 0} {I : State W → Type 0} where
  handled_at :
      (o : Outcome F A) (handler : F → Exec W E A) (s : State W)
      → ((x : F) → Preserves I (handler x))
      → I s
      → I (or_else (λ _. (o, s)) handler s).1
  handled_at (done a) handler s k p = p
  handled_at (fail x) handler s k p = (k x).at s p
  handled_at panic handler s k p = p

  pub Preserves-or_else :
      (m : Exec W F A) (handler : F → Exec W E A)
      → Preserves I m
      → ((x : F) → Preserves I (handler x))
      → Preserves I (or_else m handler)
  Preserves-or_else m handler km k = record {
    at = λ s p. handled_at (m s).0 handler (m s).1 k (km.at s p);
  }

pub ruleset preserves_rules = (
  Preserves-pure, Preserves-throw, Preserves-if, Preserves-get, Preserves-when, Preserves-bind,
  Preserves-or_crash, Preserves-or_else,
)
