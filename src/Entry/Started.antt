-- ===== src/Entry/Started.antt =====
-- cmd/main.go: which calls precede the start of the manager.
use openshift_upgrade_accele.Prelude.{
  String, ◌≡◌, refl, true, false, ◌==◌, Option, none, some, List, [], ◌∷◌, Bool-cases, Option-cases,
  inl, inr, arith, if◌then◌else◌,
}
use openshift_upgrade_accele.Manager
use openshift_upgrade_accele.Entry.{
  Call, add_to_scheme, new_cert_watcher, get_config, new_manager, setup_with_manager, add_runnable,
  add_healthz_check, add_readyz_check, start, Machine, Ending, continues, exits, panics, ◌>>=◌,
  must, attempt, cert_watcher, init, make_manager, add_watcher, add_checks_and_start, main, program,
  Flags, ManagerOptions, client_go, openshift_v1alpha1, scheme_builder, machine_config_v1,
  config_v1, manager_options,
}
use openshift_upgrade_accele.Entry.Stages.{
  is_start, is_started, Early, Starts, Starts-bind, Early-bind,
}
use openshift_upgrade_accele.Entry.Failure.{is_ok, last_failed, IsOrderly, program-IsOrderly}

module _ {Watcher : Type 0} where
  abbrev added : Option Watcher → List (Call Watcher) → List (Call Watcher)
  added none h = h
  added (some w) h = add_runnable w ∷ h

  module _ (machine : Machine Watcher) where
    abbrev watched : (path name key : String) → List (Call Watcher) → List (Call Watcher)
    watched path name key h =
        if path == ""
        then h
        else new_cert_watcher (machine.join path name) (machine.join path key) ∷ h

    abbrev watcher_of : (path name key : String) → List (Call Watcher) → Option Watcher
    watcher_of path name key h =
        if path == ""
        then none
        else machine.new_watcher h (machine.join path name) (machine.join path key)

    -- The calls after those of the list, the latest first, up to the start of the manager.
    abbrev started_after : Flags → List (Call Watcher) → List (Call Watcher)
    started_after flags h =
        let registered =
          add_to_scheme config_v1
          ∷ add_to_scheme machine_config_v1
          ∷ add_to_scheme (openshift_v1alpha1 scheme_builder)
          ∷ add_to_scheme client_go
          ∷ h in
        let with_webhook =
          watched flags.webhook_cert_path flags.webhook_cert_name flags.webhook_cert_key
            registered in
        let with_metrics =
          watched flags.metrics_cert_path flags.metrics_cert_name flags.metrics_cert_key
            with_webhook in
        let webhook =
          watcher_of flags.webhook_cert_path flags.webhook_cert_name flags.webhook_cert_key
            registered in
        let metrics =
          watcher_of flags.metrics_cert_path flags.metrics_cert_name flags.metrics_cert_key
            with_webhook in
        start
        ∷ add_readyz_check "readyz"
        ∷ add_healthz_check "healthz"
        ∷ added webhook (
            added metrics (
              setup_with_manager Manager.setup_with_manager "upgrade-accelerator-controller"
              ∷ new_manager (manager_options machine flags webhook metrics)
              ∷ get_config
              ∷ with_metrics))

    -- All the calls of a program that starts its manager, the latest first.
    abbrev pub started_calls : Flags → List (Call Watcher)
    started_calls flags = started_after flags []

    must-Early :
        (c : Call Watcher) → is_start c ≡ false → Early (must machine c) (λ h. tt) (λ h. c ∷ h)
    must-Early c other = record {
      quiet = λ h p. elim (Bool-cases (machine.succeeds h c)) [
        | inl e ↦ rw e (ground (arith, other, p))
        | inr e ↦ rw e (ground (arith, other, p))
      ];
      reached = λ h a r. ground (arith, r);
    }

    attempt-Early :
        (c : Call Watcher) → is_start c ≡ false → Early (attempt machine c) (λ h. tt) (λ h. c ∷ h)
    attempt-Early c other = record {
      quiet = λ h p. elim (Bool-cases (machine.succeeds h c)) [
        | inl e ↦ rw e (ground (arith, other, p))
        | inr e ↦ rw e (ground (arith, other, p))
      ];
      reached = λ h a r. ground (arith, r);
    }

    cert_watcher-Early :
        (path name key : String)
        → Early
            (cert_watcher machine path name key)
            (watcher_of path name key)
            (watched path name key)
    unfolding cert_watcher
    cert_watcher-Early path name key = record {
      quiet = λ h p.
          let found = machine.new_watcher h (machine.join path name) (machine.join path key) in
          elim (Bool-cases (path == "")) [
            | inl e ↦ rw e p
            | inr e ↦ elim (Option-cases found) [ inl w ↦ rw (e, w) p | inr (a, w) ↦ rw (e, w) p ]
          ];
      reached = λ h a r.
          let found = machine.new_watcher h (machine.join path name) (machine.join path key) in
          elim (Bool-cases (path == "")) [
            | inl e ↦ ground (arith, r, e)
            | inr e ↦ elim (Option-cases found) [
              | inl w ↦ ground (arith, r, e, w)
              | inr (b, w) ↦ ground (arith, r, e, w)
            ]
          ];
    }

    add_watcher-Early :
        (watcher : Option Watcher) → Early (add_watcher machine watcher) (λ h. tt) (added watcher)
    unfolding add_watcher
    add_watcher-Early none = record { quiet = λ h p. p; reached = λ h a r. (refl, refl) }
    add_watcher-Early (some w) = attempt-Early (add_runnable w) refl

    init-Early :
        Early
          (init machine)
          (λ h. tt)
          (λ h.
            add_to_scheme config_v1
            ∷ add_to_scheme machine_config_v1
            ∷ add_to_scheme (openshift_v1alpha1 scheme_builder)
            ∷ add_to_scheme client_go
            ∷ h)
    unfolding init
    init-Early = Early-bind (must-Early (add_to_scheme client_go) refl) λ _.
        Early-bind (must-Early (add_to_scheme (openshift_v1alpha1 scheme_builder)) refl) λ _.
          Early-bind (must-Early (add_to_scheme machine_config_v1) refl)
            λ _. must-Early (add_to_scheme config_v1) refl

    make_manager-Early :
        (options : ManagerOptions Watcher)
        → Early
            (make_manager machine options)
            (λ h. tt)
            (λ h.
              setup_with_manager Manager.setup_with_manager "upgrade-accelerator-controller"
              ∷ new_manager options
              ∷ get_config
              ∷ h)
    unfolding make_manager
    make_manager-Early options = Early-bind (attempt-Early get_config refl) λ _.
        Early-bind (attempt-Early (new_manager options) refl) λ _.
          attempt-Early
            (setup_with_manager Manager.setup_with_manager "upgrade-accelerator-controller") refl

    start-Starts : Starts (attempt machine start) (λ h. start ∷ h)
    start-Starts = record { reached = λ h p q. ground arith; ends = λ h a r. ground (arith, r) }

    add_checks_and_start-Starts :
        Starts
          (add_checks_and_start machine)
          (λ h. start ∷ add_readyz_check "readyz" ∷ add_healthz_check "healthz" ∷ h)
    unfolding add_checks_and_start
    add_checks_and_start-Starts =
        Starts-bind (attempt-Early (add_healthz_check "healthz") refl)
          λ _. Starts-bind (attempt-Early (add_readyz_check "readyz") refl) λ _. start-Starts

    program-Starts :
        (flags : Flags) → Starts (init machine >>= λ _. main machine flags) (started_after flags)
    unfolding main
    program-Starts flags = Starts-bind init-Early λ _.
        Starts-bind (cert_watcher-Early _ _ _) λ webhook.
          Starts-bind (cert_watcher-Early _ _ _) λ metrics.
            Starts-bind (make_manager-Early (manager_options machine flags webhook metrics)) λ _.
              Starts-bind (add_watcher-Early metrics)
                λ _. Starts-bind (add_watcher-Early webhook) λ _. add_checks_and_start-Starts

    -- If the program calls the start of the manager, its calls are exactly those of
    -- `started_calls`: the registrations, the watchers of the certificates for which a path is
    -- given, the manager with its controller, the watchers' addition, both checks, and the start as
    -- the last.
    pub program-started :
        (flags : Flags)
        → is_started (program machine flags).1 ≡ true
        → (program machine flags).1 ≡ started_calls flags
    unfolding program
    program-started flags started = (program-Starts flags).reached [] refl started

    is_ok_at :
        ((h : List (Call Watcher)) (c : Call Watcher) → machine.succeeds h c ≡ true)
        → ((h : List (Call Watcher)) (cert key : String)
            → (w : Watcher) × (machine.new_watcher h cert key ≡ some w))
        → (h : List (Call Watcher)) (c : Call Watcher) → is_ok machine h c ≡ true
    is_ok_at p q h (new_cert_watcher cert key) = let (w, e) = q h cert key in rw e refl
    is_ok_at p q h (add_to_scheme part) = p h _
    is_ok_at p q h get_config = p h _
    is_ok_at p q h (new_manager options) = p h _
    is_ok_at p q h (setup_with_manager controller name) = p h _
    is_ok_at p q h (add_runnable w) = p h _
    is_ok_at p q h (add_healthz_check name) = p h _
    is_ok_at p q h (add_readyz_check name) = p h _
    is_ok_at p q h start = p h _

    none_failed :
        ((h : List (Call Watcher)) (c : Call Watcher) → is_ok machine h c ≡ true)
        → (h : List (Call Watcher)) → last_failed machine h ≡ false
    none_failed p [] = refl
    none_failed p (c ∷ h) = ground (arith, p h c)

    continues_at :
        (e : Ending (Unit {0})) (h : List (Call Watcher))
        → IsOrderly machine e h
        → last_failed machine h ≡ false
        → e ≡ continues tt
    continues_at (continues a) h p q = refl
    continues_at (exits code) h (same, failed, other) q = absurd (cc)
    continues_at panics h (failed, registers) q = absurd (cc)

    -- Where every call succeeds and every certificate watcher is made, the program starts the
    -- manager, after the calls of `started_calls`, and returns.
    pub program-succeeds :
        (flags : Flags)
        → ((h : List (Call Watcher)) (c : Call Watcher) → machine.succeeds h c ≡ true)
        → ((h : List (Call Watcher)) (cert key : String)
            → (w : Watcher) × (machine.new_watcher h cert key ≡ some w))
        → program machine flags ≡ (continues tt, started_calls flags)
    unfolding program
    program-succeeds flags p q =
        let e : (program machine flags).0 ≡ continues tt =
          continues_at (program machine flags).0 (program machine flags).1
            (program-IsOrderly machine flags)
            (none_failed (is_ok_at p q) (program machine flags).1) in
        let calls = program-started flags ((program-Starts flags).ends [] tt e) in
        λ i. (e i, calls i)
