-- ===== src/Conditions.antt =====
-- internal/controller/upgradeaccelerator_conditions.go: how conditions are set, deleted and read.
mod Constants
pub mod Laws
pub mod Frame
pub use Constants.*
use Prim.Native.String
use openshift_upgrade_accele.Prelude.{
  ℕ, String, Bool, true, not, ◌||◌, List, [], ◌∷◌, ◌==◌, if◌then◌else◌, keep,
}
use openshift_upgrade_accele.Api.{Condition, UpgradeAccelerator}
use openshift_upgrade_accele.Cluster.{Env}
use openshift_upgrade_accele.Exec.{
  Error, Result, ok, err, Outcome, done, fail, State, Exec, ◌>>=◌, ◌>>◌, modify, pure,
}

-- The contents of a condition differ, apart from the time.
abbrev differs : Condition → Condition → Bool
differs cond condition =
    not (cond.status == condition.status)
    || not (cond.reason == condition.reason)
    || not (cond.message == condition.message)

-- The loop of `appendCondition`: the first condition of the type is replaced if its contents
-- changed, and a new one is appended if there is none.
unfoldable pub put_condition : Condition → List Condition → List Condition
put_condition condition [] = condition ∷ []
put_condition condition (cond ∷ conds) =
    let rest = put_condition condition conds in
    if cond.type_name == condition.type_name
    then (if differs cond condition then condition else cond) ∷ conds
    else cond ∷ rest

-- The loop of `deleteCondition`.
unfoldable pub remove_condition : String → List Condition → List Condition
remove_condition type_name = keep (λ cond. not (cond.type_name == type_name))

unfoldable pub reason_of : List Condition → String → String
reason_of [] type_name = ""
reason_of (cond ∷ conds) type_name =
    if cond.type_name == type_name then cond.reason else reason_of conds type_name

unfoldable pub get_condition_reason : UpgradeAccelerator → String → String
unfolding reason_of
get_condition_reason ua type_name = reason_of ua.status.conditions type_name

abbrev pub set_conditions :
    (List Condition → List Condition) → UpgradeAccelerator → UpgradeAccelerator
set_conditions f ua = record ua {
  status = record (ua.status) { conditions = f ua.status.conditions };
}

module _ {W : Type 0} (env : Env W) where
  -- r.Status().Update
  unfoldable pub status_update : Exec W Error (Unit {0})
  status_update s =
      let (r, w) = env.update_status s.ua s.world in
      elim r [ ok _ ↦ (done tt, record s { world = w }) | err e ↦ (fail e, record s { world = w }) ]

  unfoldable pub append_condition :
      (type_name status reason message : String) → Exec W Error (Unit {0})
  unfolding status_update
  append_condition type_name status reason message s =
      let condition : Condition = record {
        type_name = type_name;
        status = status;
        reason = reason;
        message = message;
        last_transition_time = env.now s.world;
      } in
      status_update (record s { ua = set_conditions (put_condition condition) s.ua })

  unfoldable pub delete_condition : String → Exec W Error (Unit {0})
  unfolding status_update
  delete_condition type_name = do
    modify (set_conditions (remove_condition type_name))
    status_update

  -- The error of the last deletion is the one that is returned.
  unfoldable pub delete_from : Outcome Error (Unit {0}) → List String → Exec W Error (Unit {0})
  unfolding delete_condition
  delete_from last [] s = (last, s)
  delete_from last (type_name ∷ type_names) s =
      let (o, s') = delete_condition type_name s in delete_from o type_names s'

  unfoldable pub delete_conditions : List String → Exec W Error (Unit {0})
  unfolding delete_from
  delete_conditions = delete_from (done tt)

  abbrev pub set_condition_failure : (reason message : String) → Exec W Error (Unit {0})
  set_condition_failure = append_condition condition_type_failure condition_status_true

  abbrev pub set_condition_infrastructure_found : String → Exec W Error (Unit {0})
  set_condition_infrastructure_found infrastructure_type =
      append_condition condition_type_infrastructure_found condition_status_true
        condition_reason_infrastructure_found
        (String.◌++◌ condition_message_infrastructure_found infrastructure_type)

  abbrev pub set_condition_infrastructure_not_found : Error → Exec W Error (Unit {0})
  set_condition_infrastructure_not_found in_err =
      append_condition condition_type_infrastructure_found condition_status_false
        condition_reason_infrastructure_not_found in_err.message

  abbrev pub set_condition_completed : String → Exec W Error (Unit {0})
  set_condition_completed =
      append_condition condition_type_completed condition_status_true
        condition_reason_running_reconciliation_completed

  abbrev pub set_condition_running : (reason message : String) → Exec W Error (Unit {0})
  set_condition_running = append_condition condition_type_running condition_status_true

  abbrev pub set_condition_not_running : (reason message : String) → Exec W Error (Unit {0})
  set_condition_not_running = append_condition condition_type_running condition_status_false

  abbrev pub set_condition_primer_completed : String → Exec W Error (Unit {0})
  set_condition_primer_completed =
      append_condition condition_type_primer condition_status_true condition_reason_primer_completed

  abbrev pub set_condition_primer_in_progress : String → Exec W Error (Unit {0})
  set_condition_primer_in_progress =
      append_condition condition_type_primer condition_status_true
        condition_reason_primer_in_progress

  abbrev pub set_condition_primer_skipped : String → Exec W Error (Unit {0})
  set_condition_primer_skipped =
      append_condition condition_type_primer condition_status_false condition_reason_primer_skipped

  abbrev pub set_condition_setup_complete : Exec W Error (Unit {0})
  set_condition_setup_complete =
      append_condition condition_type_setup_complete condition_status_true
        condition_reason_setup_completed "All setup tasks completed successfully"

  abbrev pub set_condition_setup_namespace_failure : String → Exec W Error (Unit {0})
  set_condition_setup_namespace_failure =
      append_condition condition_type_setup_complete condition_status_false
        condition_reason_setup_namespace_failure

  abbrev pub set_condition_setup_config_map_failure : String → Exec W Error (Unit {0})
  set_condition_setup_config_map_failure =
      append_condition condition_type_setup_complete condition_status_false
        condition_reason_setup_config_map_failure
