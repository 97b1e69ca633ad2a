-- ===== src/Conditions/Laws.antt =====
-- internal/controller/upgradeaccelerator_conditions.go: what setting and deleting does to the list
-- of conditions.
use openshift_upgrade_accele.Prelude.{
  ℕ, String, ◌≡◌, refl, Bool, true, false, List, [], ◌∷◌, ◌==◌, if◌then◌else◌, any, contains, arith,
  eq_iff,
}
use openshift_upgrade_accele.Api.{Condition, UpgradeAccelerator}
use openshift_upgrade_accele.Cluster.{Env}
use openshift_upgrade_accele.Exec.{State, done, Outcome, Error}
use openshift_upgrade_accele.Conditions.{
  put_condition, remove_condition, reason_of, get_condition_reason, status_update, append_condition,
  delete_condition, delete_conditions, delete_from,
}

abbrev has_type : String → List Condition → Bool
has_type type_name = any (λ cond. cond.type_name == type_name)

abbrev status_of : List Condition → String → String
status_of [] type_name = ""
status_of (cond ∷ conds) type_name =
    if cond.type_name == type_name then cond.status else status_of conds type_name

-- The status of the condition of the type, "" if there is none.
abbrev pub get_condition_status : UpgradeAccelerator → String → String
get_condition_status ua type_name = status_of ua.status.conditions type_name

-- At most one condition of each type.
abbrev pub UniqueTypes : List Condition → Type 0
UniqueTypes [] = Unit {0}
UniqueTypes (cond ∷ conds) = (has_type cond.type_name conds ≡ false) × UniqueTypes conds

pub reason_of-put_condition :
    (c : Condition) (conds : List Condition) (t : String)
    → reason_of (put_condition c conds) t
      ≡ (if c.type_name == t then c.reason else reason_of conds t)
unfolding put_condition reason_of
reason_of-put_condition c [] t = refl
reason_of-put_condition c (d ∷ conds) t = ground (
  arith,
  reason_of-put_condition c conds t,
  eq_iff d.type_name c.type_name,
  eq_iff d.type_name t,
  eq_iff c.type_name t,
  eq_iff d.reason c.reason,
)

status_of-put_condition :
    (c : Condition) (conds : List Condition) (t : String)
    → status_of (put_condition c conds) t
      ≡ (if c.type_name == t then c.status else status_of conds t)
unfolding put_condition
status_of-put_condition c [] t = refl
status_of-put_condition c (d ∷ conds) t = ground (
  arith,
  status_of-put_condition c conds t,
  eq_iff d.type_name c.type_name,
  eq_iff d.type_name t,
  eq_iff c.type_name t,
  eq_iff d.status c.status,
)

status_of-remove_condition :
    (x : String) (conds : List Condition) (t : String)
    → status_of (remove_condition x conds) t ≡ (if x == t then "" else status_of conds t)
unfolding remove_condition
status_of-remove_condition x [] t = ground arith
status_of-remove_condition x (d ∷ conds) t = ground (
  arith,
  status_of-remove_condition x conds t,
  eq_iff d.type_name x,
  eq_iff d.type_name t,
  eq_iff x t,
)

pub reason_of-remove_condition :
    (x : String) (conds : List Condition) (t : String)
    → reason_of (remove_condition x conds) t ≡ (if x == t then "" else reason_of conds t)
unfolding remove_condition reason_of
reason_of-remove_condition x [] t = ground arith
reason_of-remove_condition x (d ∷ conds) t = ground (
  arith,
  reason_of-remove_condition x conds t,
  eq_iff d.type_name x,
  eq_iff d.type_name t,
  eq_iff x t,
)

has_type-put_condition :
    (c : Condition) (conds : List Condition) (t : String)
    → has_type t (put_condition c conds) ≡ (if c.type_name == t then true else has_type t conds)
unfolding put_condition
has_type-put_condition c [] t = refl
has_type-put_condition c (d ∷ conds) t = ground (
  arith,
  has_type-put_condition c conds t,
  eq_iff d.type_name c.type_name,
  eq_iff d.type_name t,
  eq_iff c.type_name t,
)

has_type-remove_condition :
    (x : String) (conds : List Condition) (t : String)
    → has_type t (remove_condition x conds) ≡ (if x == t then false else has_type t conds)
unfolding remove_condition
has_type-remove_condition x [] t = ground arith
has_type-remove_condition x (d ∷ conds) t = ground (
  arith,
  has_type-remove_condition x conds t,
  eq_iff d.type_name x,
  eq_iff d.type_name t,
  eq_iff x t,
)

pub put_condition-UniqueTypes :
    (c : Condition) (conds : List Condition)
    → UniqueTypes conds
    → UniqueTypes (put_condition c conds)
unfolding put_condition
put_condition-UniqueTypes c [] u = ground arith
put_condition-UniqueTypes c (d ∷ conds) u = ground (
  arith,
  put_condition-UniqueTypes c conds u.1,
  has_type-put_condition c conds d.type_name,
  eq_iff d.type_name c.type_name,
  eq_iff c.type_name d.type_name,
)

pub remove_condition-UniqueTypes :
    (x : String) (conds : List Condition)
    → UniqueTypes conds
    → UniqueTypes (remove_condition x conds)
unfolding remove_condition
remove_condition-UniqueTypes x [] u = tt
remove_condition-UniqueTypes x (d ∷ conds) u = ground (
  arith,
  remove_condition-UniqueTypes x conds u.1,
  has_type-remove_condition x conds d.type_name,
  eq_iff d.type_name x,
)

-- The same contents at a later time.
put_condition-again :
    (c : Condition) (time : ℕ) (conds : List Condition)
    → put_condition (record c { last_transition_time = time }) (put_condition c conds)
      ≡ put_condition c conds
unfolding put_condition
put_condition-again c time [] = ground (
  arith,
  eq_iff c.type_name c.type_name,
  eq_iff c.status c.status,
  eq_iff c.reason c.reason,
  eq_iff c.message c.message,
)
put_condition-again c time (d ∷ conds) = ground (
  arith,
  put_condition-again c time conds,
  eq_iff d.type_name c.type_name,
  eq_iff c.type_name c.type_name,
  eq_iff c.status c.status,
  eq_iff c.reason c.reason,
  eq_iff c.message c.message,
)

module _ {W : Type 0} (env : Env W) where
  ua-status_update : (s : State W) → (status_update env s).1.ua ≡ s.ua
  unfolding status_update
  ua-status_update s = ground arith

  -- After `appendCondition` the reason of its type is the new one, also where the condition is left
  -- as it is and where the status update fails; the reasons of all other types stay.
  pub get_condition_reason-append_condition :
      (type_name status reason message : String) (s : State W) (t : String)
      → get_condition_reason (append_condition env type_name status reason message s).1.ua t
        ≡ (if type_name == t then reason else get_condition_reason s.ua t)
  unfolding append_condition get_condition_reason
  get_condition_reason-append_condition type_name status reason message s t = ground (
    arith,
    reason_of-put_condition
        (record {
          type_name = type_name;
          status = status;
          reason = reason;
          message = message;
          last_transition_time = env.now s.world;
        })
        s.ua.status.conditions t,
  )

  -- The same holds of the status.
  pub get_condition_status-append_condition :
      (type_name status reason message : String) (s : State W) (t : String)
      → get_condition_status (append_condition env type_name status reason message s).1.ua t
        ≡ (if type_name == t then status else get_condition_status s.ua t)
  unfolding append_condition
  get_condition_status-append_condition type_name status reason message s t = ground (
    arith,
    status_of-put_condition
        (record {
          type_name = type_name;
          status = status;
          reason = reason;
          message = message;
          last_transition_time = env.now s.world;
        })
        s.ua.status.conditions t,
  )

  -- `appendCondition` keeps the types of the conditions unique where they are.
  pub append_condition-UniqueTypes :
      (type_name status reason message : String) (s : State W)
      → UniqueTypes s.ua.status.conditions
      → UniqueTypes (append_condition env type_name status reason message s).1.ua.status.conditions
  unfolding append_condition
  append_condition-UniqueTypes type_name status reason message s u = ground (
    arith,
    put_condition-UniqueTypes
        (record {
          type_name = type_name;
          status = status;
          reason = reason;
          message = message;
          last_transition_time = env.now s.world;
        })
        s.ua.status.conditions u,
  )

  reason-delete_from :
      (o : Outcome Error (Unit {0})) (types : List String) (s : State W) (t : String)
      → get_condition_reason (delete_from env o types s).1.ua t
        ≡ (if contains types t then "" else get_condition_reason s.ua t)
  unfolding delete_from get_condition_reason
  reason-delete_from o [] s t = refl
  reason-delete_from o (x ∷ types) s t = ground (
    arith,
    reason-delete_from (delete_condition env x s).0 types (delete_condition env x s).1 t,
    reason_of-remove_condition x s.ua.status.conditions t,
    eq_iff x t,
  )

  status-delete_from :
      (o : Outcome Error (Unit {0})) (types : List String) (s : State W) (t : String)
      → get_condition_status (delete_from env o types s).1.ua t
        ≡ (if contains types t then "" else get_condition_status s.ua t)
  unfolding delete_from
  status-delete_from o [] s t = refl
  status-delete_from o (x ∷ types) s t = ground (
    arith,
    status-delete_from (delete_condition env x s).0 types (delete_condition env x s).1 t,
    status_of-remove_condition x s.ua.status.conditions t,
    eq_iff x t,
  )

  pub get_condition_status-delete_conditions :
      (types : List String) (s : State W) (t : String)
      → get_condition_status (delete_conditions env types s).1.ua t
        ≡ (if contains types t then "" else get_condition_status s.ua t)
  unfolding delete_conditions
  get_condition_status-delete_conditions = status-delete_from (done tt)

  -- `deleteConditions` removes the conditions of all the given types, whether or not the status
  -- updates between the deletions fail, and leaves the reasons of the others.
  pub get_condition_reason-delete_conditions :
      (types : List String) (s : State W) (t : String)
      → get_condition_reason (delete_conditions env types s).1.ua t
        ≡ (if contains types t then "" else get_condition_reason s.ua t)
  unfolding delete_conditions
  get_condition_reason-delete_conditions = reason-delete_from (done tt)

  -- `appendCondition` with the contents that it was last given leaves the object as it is: the
  -- transition time of the condition does not move, however much later the call is.
  pub append_condition-again :
      (type_name status reason message : String) (s : State W)
      → (append_condition env type_name status reason message
          (append_condition env type_name status reason message s).1).1.ua
        ≡ (append_condition env type_name status reason message s).1.ua
  unfolding append_condition
  append_condition-again type_name status reason message s = ground (
    arith,
    put_condition-again
        (record {
          type_name = type_name;
          status = status;
          reason = reason;
          message = message;
          last_transition_time = env.now s.world;
        })
        (env.now (append_condition env type_name status reason message s).1.world)
        s.ua.status.conditions,
  )
