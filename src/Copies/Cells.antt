-- ===== src/Copies/Cells.antt =====
-- Commands on the memory, and the cells that hold one type of Go.
use openshift_upgrade_accele.Prelude.{ℕ, suc, String, List, [], ◌≡◌, refl, if◌then◌else◌, nat_eq}
use openshift_upgrade_accele.Api.{OverrideReleaseVersion, UpgradeAcceleratorConfigRandomWait}
use openshift_upgrade_accele.Copies.Memory.{
  Imported, Memory, Block, SelectorAt, SchedulingAt, ConfigAt, SpecAt, StatusAt, AcceleratorAt,
  ListAt, strings, tolerations, conditions, items, label_selector, override, random_wait, selector,
  scheduling, config, spec, status, accelerator, list,
}

abbrev pub Cmd : Imported → Type 0 → Type 0
Cmd A T = Memory A → T × Memory A

module _ {A : Imported} where
  abbrev pub pure : {T : Type 0} → T → Cmd A T
  pure t h = (t, h)

  infixl 5 ◌>>=◌ ◌>>◌
  abbrev pub ◌>>=◌ : {T U : Type 0} → Cmd A T → (T → Cmd A U) → Cmd A U
  m >>= f = λ h. let (t, h') = m h in f t h'

  abbrev pub ◌>>◌ : {T U : Type 0} → Cmd A T → Cmd A U → Cmd A U
  m >> n = m >>= λ _. n

-- How a type of Go lies in a cell. Memory of Go is typed, so a cell of another type is never read.
pub record Place (A : Imported) (T : Type 0) : Type 0 where
  pub wrap : T → Block A
  pub unwrap : Block A → T
  pub unwrap_wrap : (t : T) → unwrap (wrap t) ≡ t

module _ {A : Imported} {T : Type 0} where
  abbrev pub load : Place A T → ℕ → Cmd A T
  load place a h = (place.unwrap (h.cell a), h)

  abbrev pub store : Place A T → ℕ → T → Cmd A (Unit {0})
  store place a t h =
      (tt, record h { cell = λ (b : ℕ). if nat_eq a b then place.wrap t else h.cell b })

  -- `new` and `make`
  abbrev pub alloc : Place A T → T → Cmd A ℕ
  alloc place t h = (
    h.next,
    record {
      next = suc h.next;
      cell = λ (b : ℕ). if nat_eq h.next b then place.wrap t else h.cell b;
    },
  )

module _ {A : Imported} where
  abbrev pub strings_of : Block A → List String
  strings_of (strings xs) = xs
  strings_of other = []

  abbrev pub strings_place : Place A (List String)
  strings_place = record { wrap = strings; unwrap = strings_of; unwrap_wrap = λ xs. refl }

  abbrev pub tolerations_of : Block A → List A.Toleration
  tolerations_of (tolerations xs) = xs
  tolerations_of other = []

  abbrev pub tolerations_place : Place A (List A.Toleration)
  tolerations_place = record {
    wrap = tolerations;
    unwrap = tolerations_of;
    unwrap_wrap = λ xs. refl;
  }

  abbrev pub conditions_of : Block A → List A.Condition
  conditions_of (conditions xs) = xs
  conditions_of other = []

  abbrev pub conditions_place : Place A (List A.Condition)
  conditions_place = record { wrap = conditions; unwrap = conditions_of; unwrap_wrap = λ xs. refl }

  abbrev pub items_of : Block A → List (AcceleratorAt A)
  items_of (items xs) = xs
  items_of other = []

  abbrev pub items_place : Place A (List (AcceleratorAt A))
  items_place = record { wrap = items; unwrap = items_of; unwrap_wrap = λ xs. refl }

  abbrev pub label_selector_of : A.LabelSelector → Block A → A.LabelSelector
  label_selector_of zero_value (label_selector t) = t
  label_selector_of zero_value other = zero_value

  abbrev pub label_selector_place : A.LabelSelector → Place A A.LabelSelector
  label_selector_place z = record {
    wrap = label_selector;
    unwrap = label_selector_of z;
    unwrap_wrap = λ t. refl;
  }

  abbrev pub override_of : OverrideReleaseVersion → Block A → OverrideReleaseVersion
  override_of zero_value (override t) = t
  override_of zero_value other = zero_value

  abbrev pub override_place : OverrideReleaseVersion → Place A OverrideReleaseVersion
  override_place z = record { wrap = override; unwrap = override_of z; unwrap_wrap = λ t. refl }

  abbrev pub random_wait_of :
      UpgradeAcceleratorConfigRandomWait → Block A → UpgradeAcceleratorConfigRandomWait
  random_wait_of zero_value (random_wait t) = t
  random_wait_of zero_value other = zero_value

  abbrev pub random_wait_place :
      UpgradeAcceleratorConfigRandomWait → Place A UpgradeAcceleratorConfigRandomWait
  random_wait_place z = record {
    wrap = random_wait;
    unwrap = random_wait_of z;
    unwrap_wrap = λ t. refl;
  }

  abbrev pub selector_of : SelectorAt → Block A → SelectorAt
  selector_of zero_value (selector t) = t
  selector_of zero_value other = zero_value

  abbrev pub selector_place : SelectorAt → Place A SelectorAt
  selector_place z = record { wrap = selector; unwrap = selector_of z; unwrap_wrap = λ t. refl }

  abbrev pub scheduling_of : SchedulingAt → Block A → SchedulingAt
  scheduling_of zero_value (scheduling t) = t
  scheduling_of zero_value other = zero_value

  abbrev pub scheduling_place : SchedulingAt → Place A SchedulingAt
  scheduling_place z = record {
    wrap = scheduling;
    unwrap = scheduling_of z;
    unwrap_wrap = λ t. refl;
  }

  abbrev pub config_of : ConfigAt → Block A → ConfigAt
  config_of zero_value (config t) = t
  config_of zero_value other = zero_value

  abbrev pub config_place : ConfigAt → Place A ConfigAt
  config_place z = record { wrap = config; unwrap = config_of z; unwrap_wrap = λ t. refl }

  abbrev pub spec_of : SpecAt → Block A → SpecAt
  spec_of zero_value (spec t) = t
  spec_of zero_value other = zero_value

  abbrev pub spec_place : SpecAt → Place A SpecAt
  spec_place z = record { wrap = spec; unwrap = spec_of z; unwrap_wrap = λ t. refl }

  abbrev pub status_of : StatusAt → Block A → StatusAt
  status_of zero_value (status t) = t
  status_of zero_value other = zero_value

  abbrev pub status_place : StatusAt → Place A StatusAt
  status_place z = record { wrap = status; unwrap = status_of z; unwrap_wrap = λ t. refl }

  abbrev pub accelerator_of : (AcceleratorAt A) → Block A → AcceleratorAt A
  accelerator_of zero_value (accelerator t) = t
  accelerator_of zero_value other = zero_value

  abbrev pub accelerator_place : (AcceleratorAt A) → Place A (AcceleratorAt A)
  accelerator_place z = record {
    wrap = accelerator;
    unwrap = accelerator_of z;
    unwrap_wrap = λ t. refl;
  }

  abbrev pub list_of : (ListAt A) → Block A → ListAt A
  list_of zero_value (list t) = t
  list_of zero_value other = zero_value

  abbrev pub list_place : (ListAt A) → Place A (ListAt A)
  list_place z = record { wrap = list; unwrap = list_of z; unwrap_wrap = λ t. refl }
