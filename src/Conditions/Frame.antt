-- ===== src/Conditions/Frame.antt =====
-- What setting and deleting conditions leaves alone: all of the object but its conditions.
use openshift_upgrade_accele.Prelude.{String, ◌≡◌, ◌≢◌, refl, ap, List, [], ◌∷◌, arith}
use openshift_upgrade_accele.Api.{UpgradeAccelerator}
use openshift_upgrade_accele.Cluster.{Env}
use openshift_upgrade_accele.Exec.{State, Outcome, done, panic, Error, Exec, ignore, and_then, ◌>>◌}
use openshift_upgrade_accele.Conditions.{
  set_conditions, status_update, append_condition, delete_condition, delete_from, delete_conditions,
}

-- The object without its conditions.
abbrev pub core : UpgradeAccelerator → UpgradeAccelerator
core = set_conditions (λ _. [])

module _ {W : Type 0} (env : Env W) where
  pub ua-status_update : (s : State W) → (status_update env s).1.ua ≡ s.ua
  unfolding status_update
  ua-status_update s = ground arith

  pub core-append_condition :
      (type_name status reason message : String) (s : State W)
      → core (append_condition env type_name status reason message s).1.ua ≡ core s.ua
  unfolding append_condition
  core-append_condition type_name status reason message s = ground arith

  core-delete_from :
      (o : Outcome Error (Unit {0})) (types : List String) (s : State W)
      → core (delete_from env o types s).1.ua ≡ core s.ua
  unfolding delete_from
  core-delete_from o [] s = refl
  core-delete_from o (t ∷ types) s =
      ground
        (arith, core-delete_from (delete_condition env t s).0 types (delete_condition env t s).1)

  pub core-delete_conditions :
      (types : List String) (s : State W) → core (delete_conditions env types s).1.ua ≡ core s.ua
  unfolding delete_conditions
  core-delete_conditions = core-delete_from (done tt)

  delete_condition-ne_panic : (t : String) (s : State W) → (delete_condition env t s).0 ≢ panic
  unfolding delete_condition
  delete_condition-ne_panic t s = ground arith

module _ {W E : Type 0} (env : Env W) where
  -- Setting and deleting conditions never panics, so ignoring the error always goes on.
  pub ignore-append_condition :
      (type_name status reason message : String) (s : State W)
      → ignore {E = E} (append_condition env type_name status reason message) s
        ≡ (done tt, (append_condition env type_name status reason message s).1)
  unfolding append_condition
  ignore-append_condition type_name status reason message s = ground arith

  -- It ends, and changes no more than the conditions.
  pub ignored_core :
      (type_name status reason message : String) (s : State W)
      → let r = ignore {E = E} (append_condition env type_name status reason message) s in
        (r.0 ≡ done tt) × (core r.1.ua ≡ core s.ua)
  ignored_core type_name status reason message s =
      rw (ignore-append_condition type_name status reason message s)
        (refl, core-append_condition env type_name status reason message s)

  ignore-delete_from :
      (o : Outcome Error (Unit {0})) (types : List String) (s : State W)
      → o ≢ panic
      → ignore {E = E} (delete_from env o types) s ≡ (done tt, (delete_from env o types s).1)
  unfolding delete_from
  ignore-delete_from o [] s h = ground arith
  ignore-delete_from o (t ∷ types) s h =
      let (o', s') = delete_condition env t s in
      ignore-delete_from o' types s' (delete_condition-ne_panic env t s)

  pub ignore-delete_conditions :
      (types : List String) (s : State W)
      → ignore {E = E} (delete_conditions env types) s
        ≡ (done tt, (delete_conditions env types s).1)
  unfolding delete_conditions
  ignore-delete_conditions types s = ignore-delete_from (done tt) types s (λ e. cc)

module _ {W E A : Type 0} (env : Env W) where
  pub then-append_condition :
      (type_name status reason message : String) (m : Exec W E A) (s : State W)
      → (ignore (append_condition env type_name status reason message) >> m) s
        ≡ m (append_condition env type_name status reason message s).1
  then-append_condition type_name status reason message m s =
      ap (λ (r : Outcome E (Unit {0}) × State W). and_then r.0 (λ _. m) r.1)
        (ignore-append_condition env type_name status reason message s)

  pub then-delete_conditions :
      (types : List String) (m : Exec W E A) (s : State W)
      → (ignore (delete_conditions env types) >> m) s ≡ m (delete_conditions env types s).1
  then-delete_conditions types m s =
      ap (λ (r : Outcome E (Unit {0}) × State W). and_then r.0 (λ _. m) r.1)
        (ignore-delete_conditions env types s)
