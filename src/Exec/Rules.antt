-- ===== src/Exec/Rules.antt =====
-- What is known of the early returns of an action, one rule for each way to build one.
use mathlib.Core.Path.{subst}
use openshift_upgrade_accele.Prelude.{◌≡◌, ap, Bool, true, false, Option, none, some, if◌then◌else◌}
use openshift_upgrade_accele.Api.{UpgradeAccelerator}
use openshift_upgrade_accele.Exec.{
  Outcome, done, fail, panic, State, Exec, and_then, ◌>>=◌, pure, throw, crash, or_crash, get,
  modify, when, or_else,
}

-- Every early return of `m` is in `Q`.
pub record Returns {W E A : Type 0} (Q : E → Type 0) (m : Exec W E A) : Type 0 where
  pub at : (s : State W) (e : E) → (m s).0 ≡ fail e → Q e

module _ {W E A : Type 0} {Q : E → Type 0} where
  pub Returns-pure : (a : A) → Returns {W = W} Q (pure {E = E} a)
  Returns-pure a = record { at = λ s e h. cc }

  pub Returns-throw : (e : E) → Q e → Returns {W = W} Q (throw {A = A} e)
  Returns-throw e q = record { at = λ s e' h. let p : e ≡ e' = cc in subst Q p q }

  pub Returns-crash : Returns {W = W} {A = A} Q (crash {E = E})
  Returns-crash = record { at = λ s e h. cc }

  pub Returns-if :
      (b : Bool) (m n : Exec W E A) → Returns Q m → Returns Q n → Returns Q (if b then m else n)
  Returns-if true m n p q = p
  Returns-if false m n p q = q

module _ {W E : Type 0} {Q : E → Type 0} where
  pub Returns-get : Returns {W = W} Q (get {E = E})
  Returns-get = record { at = λ s e h. cc }

  pub Returns-modify :
      (f : UpgradeAccelerator → UpgradeAccelerator) → Returns {W = W} Q (modify {E = E} f)
  Returns-modify f = record { at = λ s e h. cc }

  pub Returns-when : (b : Bool) (m : Exec W E Unit) → Returns Q m → Returns Q (when b m)
  Returns-when true m k = record { at = k.at }
  Returns-when false m k = record { at = λ s e h. cc }

module _ {W E A B : Type 0} {Q : E → Type 0} where
  bind_at :
      (o : Outcome E A) (f : A → Exec W E B) (s : State W) (e : E)
      → ((e' : E) → o ≡ fail e' → Q e')
      → ((a : A) → Returns Q (f a))
      → (and_then o f s).0 ≡ fail e
      → Q e
  bind_at (done a) f s e early rest h = (rest a).at s e h
  bind_at (fail x) f s e early rest h = let p : x ≡ e = cc in early e (ap fail p)
  bind_at panic f s e early rest h = cc

  pub Returns-bind :
      (m : Exec W E A) (f : A → Exec W E B)
      → Returns Q m
      → ((a : A) → Returns Q (f a))
      → Returns Q (m >>= f)
  Returns-bind m f km kf = record { at = λ s e h. bind_at (m s).0 f (m s).1 e (km.at s) kf h }

module _ {W E F A : Type 0} {Q : E → Type 0} where
  handle_at :
      (o : Outcome F A) (handler : F → Exec W E A) (s : State W) (e : E)
      → ((x : F) → Returns Q (handler x))
      → (or_else (λ _. (o, s)) handler s).0 ≡ fail e
      → Q e
  handle_at (done a) handler s e rest h = cc
  handle_at (fail x) handler s e rest h = (rest x).at s e h
  handle_at panic handler s e rest h = cc

  -- Only the handler of an error returns early.
  pub Returns-or_else :
      (m : Exec W F A) (handler : F → Exec W E A)
      → ((x : F) → Returns Q (handler x))
      → Returns Q (or_else m handler)
  Returns-or_else m handler k = record { at = λ s e h. handle_at (m s).0 handler (m s).1 e k h }

module _ {W E A B : Type 0} {Q : E → Type 0} where
  pub Returns-or_crash :
      (o : Option A) (f : A → Exec W E B) → ((a : A) → Returns Q (f a)) → Returns Q (or_crash o f)
  Returns-or_crash none f k = record { at = λ s e h. cc }
  Returns-or_crash (some a) f k = record { at = λ s e h. (k a).at s e h }

pub ruleset returns_rules = (
  Returns-pure, Returns-throw, Returns-crash, Returns-if, Returns-get, Returns-modify, Returns-when,
  Returns-bind, Returns-or_else, Returns-or_crash,
)

-- Every value with which `m` ends is in `Q`.
pub record Yields {W E A : Type 0} (Q : A → Type 0) (m : Exec W E A) : Type 0 where
  pub at : (s : State W) (a : A) → (m s).0 ≡ done a → Q a

module _ {W E A : Type 0} {Q : A → Type 0} where
  pub Yields-pure : (a : A) → Q a → Yields {W = W} {E = E} Q (pure a)
  Yields-pure a q = record { at = λ s b h. let p : a ≡ b = cc in subst Q p q }

  pub Yields-if :
      (b : Bool) (m n : Exec W E A) → Yields Q m → Yields Q n → Yields Q (if b then m else n)
  Yields-if true m n p q = p
  Yields-if false m n p q = q

module _ {W E A B : Type 0} {Q : B → Type 0} where
  ends_at :
      (o : Outcome E A) (f : A → Exec W E B) (s : State W) (b : B)
      → ((a : A) → Yields Q (f a))
      → (and_then o f s).0 ≡ done b
      → Q b
  ends_at (done a) f s b rest h = (rest a).at s b h
  ends_at (fail e) f s b rest h = cc
  ends_at panic f s b rest h = cc

  pub Yields-bind :
      (m : Exec W E A) (f : A → Exec W E B) → ((a : A) → Yields Q (f a)) → Yields Q (m >>= f)
  Yields-bind m f k = record { at = λ s b h. ends_at (m s).0 f (m s).1 b k h }

pub ruleset yields_rules = (Yields-pure, Yields-if, Yields-bind)
