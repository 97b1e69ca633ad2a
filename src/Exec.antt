-- ===== src/Exec.antt =====
-- Go statements that change the UpgradeAccelerator in memory and the world outside, and that may
-- return early or panic. Both states outlive an early return and a panic.
pub mod Rules
pub mod Keeps
pub mod Preserves
pub mod Ensures
use openshift_upgrade_accele.Prelude.{String, Bool, if◌then◌else◌, Option, none, some}
use openshift_upgrade_accele.Api.{UpgradeAccelerator}

-- A Go `error`: its text, and whether `kapierrors.IsNotFound` holds of it.
pub record Error : Type 0 where
  pub message : String
  pub not_found : Bool

-- What a call of a client or of a library returns.
pub data Result (A : Type 0) : Type 0 where
  ok : A → Result A
  err : Error → Result A

-- `fail` is an early return with a value of `E`.
pub data Outcome (E A : Type 0) : Type 0 where
  done : A → Outcome E A
  fail : E → Outcome E A
  panic : Outcome E A

-- `ua` is the object that `upgradeAccelerator` points to.
pub record State (W : Type 0) : Type 0 where
  pub ua : UpgradeAccelerator
  pub world : W

abbrev pub Exec : Type 0 → Type 0 → Type 0 → Type 0
Exec W E A = State W → Outcome E A × State W

module _ {W E : Type 0} where
  abbrev pub and_then : {A B : Type 0} → Outcome E A → (A → Exec W E B) → Exec W E B
  and_then (done a) f s = f a s
  and_then (fail e) f s = (fail e, s)
  and_then panic f s = (panic, s)

  infixl 5 ◌>>=◌ ◌>>◌
  abbrev pub ◌>>=◌ : {A B : Type 0} → Exec W E A → (A → Exec W E B) → Exec W E B
  m >>= f = λ s. let (o, s') = m s in and_then o f s'

  abbrev pub ◌>>◌ : {A B : Type 0} → Exec W E A → Exec W E B → Exec W E B
  m >> n = m >>= λ _. n

  abbrev pub pure : {A : Type 0} → A → Exec W E A
  pure a s = (done a, s)

  abbrev pub throw : {A : Type 0} → E → Exec W E A
  throw e s = (fail e, s)

  abbrev pub crash : {A : Type 0} → Exec W E A
  crash s = (panic, s)

  -- An expression that panics where it is `none`.
  abbrev pub or_crash : {A B : Type 0} → Option A → (A → Exec W E B) → Exec W E B
  or_crash none f s = (panic, s)
  or_crash (some a) f s = f a s

  abbrev pub get : Exec W E UpgradeAccelerator
  get s = (done s.ua, s)

  abbrev pub modify : (UpgradeAccelerator → UpgradeAccelerator) → Exec W E (Unit {0})
  modify f s = (done tt, record s { ua = f s.ua })

  abbrev pub when : Bool → Exec W E (Unit {0}) → Exec W E (Unit {0})
  when b m s = if b then m s else (done tt, s)

  -- `if err := m; err != nil { handler }`
  abbrev pub or_else : {F A : Type 0} → Exec W F A → (F → Exec W E A) → Exec W E A
  or_else m handler s =
      let (o, s') = m s in
      elim o [ done a ↦ (done a, s') | fail e ↦ handler e s' | panic ↦ (panic, s') ]

  -- `_ = m`
  abbrev pub ignore : {F : Type 0} → Exec W F (Unit {0}) → Exec W E (Unit {0})
  ignore m = or_else m (λ _. pure tt)

module _ {W A : Type 0} where
  -- A call of the client: it reads and changes the world only.
  abbrev pub call : (W → Result A × W) → Exec W Error A
  call f s =
      let (r, w) = f s.world in
      elim r [ ok a ↦ (done a, record s { world = w }) | err e ↦ (fail e, record s { world = w }) ]
