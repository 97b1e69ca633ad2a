-- ===== src/Setup/Handlers.antt =====
-- internal/controller/upgradeaccelerator_setup.go: what follows a step of the setup that succeeds, and
-- in which state the handlers of the errors end.
use openshift_upgrade_accele.Prelude.{String, Bool, ◌≡◌, refl, ap, ◌∙◌, true, List}
use openshift_upgrade_accele.Cluster.{Env, ReleaseImageTags}
use openshift_upgrade_accele.Exec.{
  Outcome, State, ok, err, done, fail, panic, Error, Exec, or_else, when, and_then, ◌>>=◌, call,
}
use openshift_upgrade_accele.Conditions.Frame.{then-append_condition, then-delete_conditions}
use openshift_upgrade_accele.Conditions.Laws.{
  get_condition_reason-append_condition, get_condition_reason-delete_conditions,
}
use openshift_upgrade_accele.Conditions.{
  get_condition_reason, append_condition, delete_conditions, condition_type_failure,
  condition_status_true, condition_status_false, condition_type_setup_complete,
  condition_reason_failure_setup, condition_reason_setup_config_map_failure,
  condition_reason_setup_namespace_failure,
}
use openshift_upgrade_accele.Setup.{
  cleared, setup_failed, namespace_failed, config_map_failed, script_failed,
}

module _ {W A B : Type 0} (m : Exec W Error A) (handler : Error → Exec W Error A)
    (k : A → Exec W Error B) where
  abbrev handled : Outcome Error A × State W → Outcome Error A × State W
  handled r = elim r.0 [ done a ↦ (done a, r.1) | fail e ↦ handler e r.1 | panic ↦ (panic, r.1) ]

  -- A step that succeeds, and one that fails.
  pub goes :
      {s : State W} {a : A} {s' : State W}
      → m s ≡ (done a, s')
      → (or_else m handler >>= k) s ≡ k a s'
  goes h = ap (λ r. and_then (handled r).0 k (handled r).1) h

  pub stops :
      {s : State W} {e : Error} {ended : State W}
      → (m s).0 ≡ fail e
      → handler e (m s).1 ≡ (fail e, ended)
      → (or_else m handler >>= k) s ≡ (fail e, ended)
  stops {s} h reported =
      ap (λ o. and_then (handled (o, (m s).1)).0 k (handled (o, (m s).1)).1) h
      ∙ ap (λ (r : Outcome Error A × State W). and_then r.0 k r.1) reported

pub when_stops :
    {W B : Type 0} (m : Exec W Error Unit) (handler : Error → Exec W Error Unit)
    (k : Unit → Exec W Error B) {b : Bool} {s : State W} {e : Error} {ended : State W}
    → b ≡ true
    → (m s).0 ≡ fail e
    → handler e (m s).1 ≡ (fail e, ended)
    → (when b (or_else m handler) >>= k) s ≡ (fail e, ended)
when_stops m handler k true_b h reported = rw true_b (stops m handler k h reported)

module _ {W : Type 0} (env : Env W) where
  -- The state in which `setup_failed` ends.
  abbrev reported : String → Error → State W → State W
  reported reason e s =
      (delete_conditions env cleared
        (append_condition env condition_type_failure condition_status_true reason e.message s).1).1

  pub setup_failed_at :
      {A : Type 0} (reason : String) (e : Error) (s : State W)
      → setup_failed env {A = A} reason e s ≡ (fail e, reported reason e s)
  setup_failed_at reason e s =
      then-append_condition env condition_type_failure condition_status_true reason e.message _ s
      ∙ then-delete_conditions env cleared _ _

  pub reported-setup_complete :
      (reason : String) (e : Error) (s : State W)
      → get_condition_reason (reported reason e s).ua condition_type_setup_complete ≡ ""
  reported-setup_complete reason e s = get_condition_reason-delete_conditions env cleared _ _

  pub reported-failure :
      (reason : String) (e : Error) (s : State W)
      → get_condition_reason (reported reason e s).ua condition_type_failure ≡ reason
  reported-failure reason e s =
      get_condition_reason-delete_conditions env cleared _ _
      ∙ get_condition_reason-append_condition env condition_type_failure condition_status_true
          reason e.message s _

  pub namespace_failed_at :
      {A : Type 0} (e : Error) (s : State W)
      → namespace_failed env {A = A} e s ≡ (
        fail e,
        reported condition_reason_failure_setup e
            (append_condition env condition_type_setup_complete condition_status_false
              condition_reason_setup_namespace_failure e.message s).1,
      )
  namespace_failed_at e s =
      then-append_condition env condition_type_setup_complete condition_status_false
        condition_reason_setup_namespace_failure e.message _ s
      ∙ setup_failed_at condition_reason_failure_setup e _

  pub config_map_failed_at :
      {A : Type 0} (e : Error) (s : State W)
      → config_map_failed env {A = A} e s ≡ (
        fail e,
        reported condition_reason_failure_setup e
            (append_condition env condition_type_setup_complete condition_status_false
              condition_reason_setup_config_map_failure e.message s).1,
      )
  config_map_failed_at e s =
      then-append_condition env condition_type_setup_complete condition_status_false
        condition_reason_setup_config_map_failure e.message _ s
      ∙ setup_failed_at condition_reason_failure_setup e _

  pub script_failed_at :
      {A : Type 0} (e : Error) (s : State W)
      → script_failed env {A = A} e s ≡ (
        fail e,
        (append_condition env condition_type_setup_complete condition_status_false
            condition_reason_setup_config_map_failure e.message
            (reported condition_reason_failure_setup e s)).1,
      )
  script_failed_at e s =
      then-append_condition env condition_type_failure condition_status_true
        condition_reason_failure_setup e.message _ s
      ∙ then-delete_conditions env cleared _ _
      ∙ then-append_condition env condition_type_setup_complete condition_status_false
          condition_reason_setup_config_map_failure e.message _ _

  pub marshaled :
      {images : List ReleaseImageTags} {text : String} (s : State W)
      → env.marshal_images images ≡ ok text
      → call (λ w. (env.marshal_images images, w)) s ≡ (done text, s)
  marshaled s h = rw h refl

  pub unmarshaled :
      {images : List ReleaseImageTags} {e : Error} (s : State W)
      → env.marshal_images images ≡ err e
      → (call (λ w. (env.marshal_images images, w)) s).0 ≡ fail e
  unmarshaled s h = rw h refl
