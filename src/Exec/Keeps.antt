-- ===== src/Exec/Keeps.antt =====
-- What an action keeps of the object, however it ends, one rule for each way to build one.
use openshift_upgrade_accele.Prelude.{Bool, true, false, Option, none, some, if◌then◌else◌}
use openshift_upgrade_accele.Api.{UpgradeAccelerator}
use openshift_upgrade_accele.Exec.{
  Outcome, Result, ok, err, done, fail, panic, State, Exec, and_then, ◌>>=◌, pure, throw, or_crash,
  get, modify, when, or_else, call,
}

-- Where `P` holds of the object before `m`, it holds after.
pub record Keeps {W E A : Type 0} (P : UpgradeAccelerator → Type 0) (m : Exec W E A) : Type 0 where
  pub at : (s : State W) → P s.ua → P (m s).1.ua

module _ {W E A : Type 0} {P : UpgradeAccelerator → Type 0} where
  pub Keeps-pure : (a : A) → Keeps {W = W} P (pure {E = E} a)
  Keeps-pure a = record { at = λ s p. p }

  pub Keeps-throw : (e : E) → Keeps {W = W} P (throw {A = A} e)
  Keeps-throw e = record { at = λ s p. p }

  pub Keeps-if :
      (b : Bool) (m n : Exec W E A) → Keeps P m → Keeps P n → Keeps P (if b then m else n)
  Keeps-if true m n p q = p
  Keeps-if false m n p q = q

module _ {W E : Type 0} {P : UpgradeAccelerator → Type 0} where
  pub Keeps-get : Keeps {W = W} P (get {E = E})
  Keeps-get = record { at = λ s p. p }

  pub Keeps-modify :
      (f : UpgradeAccelerator → UpgradeAccelerator)
      → ((ua : UpgradeAccelerator) → P ua → P (f ua))
      → Keeps {W = W} P (modify {E = E} f)
  Keeps-modify f k = record { at = λ s p. k s.ua p }

  pub Keeps-when : (b : Bool) (m : Exec W E Unit) → Keeps P m → Keeps P (when b m)
  Keeps-when true m k = record { at = k.at }
  Keeps-when false m k = record { at = λ s p. p }

module _ {W A : Type 0} (P : UpgradeAccelerator → Type 0) where
  called_at : (r : Result A × W) (s : State W) → P s.ua → P (call {W = W} (λ _. r) s).1.ua
  called_at (ok a, w) s p = p
  called_at (err e, w) s p = p

module _ {W A : Type 0} {P : UpgradeAccelerator → Type 0} where
  -- A call of the client leaves the object alone.
  pub Keeps-call : (f : W → Result A × W) → Keeps P (call f)
  Keeps-call f = record { at = λ s p. called_at P (f s.world) s p }

module _ {W E A B : Type 0} {P : UpgradeAccelerator → Type 0} where
  pub then_at :
      (o : Outcome E A) (f : A → Exec W E B) (s : State W)
      → ((a : A) → Keeps P (f a))
      → P s.ua
      → P (and_then o f s).1.ua
  then_at (done a) f s k p = (k a).at s p
  then_at (fail e) f s k p = p
  then_at panic f s k p = p

  pub Keeps-bind :
      (m : Exec W E A) (f : A → Exec W E B)
      → Keeps P m
      → ((a : A) → Keeps P (f a))
      → Keeps P (m >>= f)
  Keeps-bind m f km kf = record { at = λ s p. then_at (m s).0 f (m s).1 kf (km.at s p) }

  pub Keeps-or_crash :
      (o : Option A) (f : A → Exec W E B) → ((a : A) → Keeps P (f a)) → Keeps P (or_crash o f)
  Keeps-or_crash none f k = record { at = λ s p. p }
  Keeps-or_crash (some a) f k = record { at = λ s p. (k a).at s p }

module _ {W E F A : Type 0} {P : UpgradeAccelerator → Type 0} where
  handled_at :
      (o : Outcome F A) (handler : F → Exec W E A) (s : State W)
      → ((x : F) → Keeps P (handler x))
      → P s.ua
      → P (or_else (λ _. (o, s)) handler s).1.ua
  handled_at (done a) handler s k p = p
  handled_at (fail x) handler s k p = (k x).at s p
  handled_at panic handler s k p = p

  pub Keeps-or_else :
      (m : Exec W F A) (handler : F → Exec W E A)
      → Keeps P m
      → ((x : F) → Keeps P (handler x))
      → Keeps P (or_else m handler)
  Keeps-or_else m handler km k = record {
    at = λ s p. handled_at (m s).0 handler (m s).1 k (km.at s p);
  }

pub ruleset keeps_rules = (
  Keeps-pure, Keeps-throw, Keeps-if, Keeps-get, Keeps-when, Keeps-call, Keeps-bind, Keeps-or_crash,
  Keeps-or_else,
)
