-- ===== src/Entry/Failure.antt =====
-- cmd/main.go: what the program does where a call fails.
use openshift_upgrade_accele.Prelude.{
  String, ◌≡◌, refl, Bool, true, false, not, ◌&&◌, ◌==◌, Option, none, some, List, [], ◌∷◌,
  Bool-cases, Option-cases, inl, inr, arith,
}
use openshift_upgrade_accele.Entry.{
  Call, add_to_scheme, new_cert_watcher, get_config, new_manager, setup_with_manager, add_runnable,
  add_healthz_check, add_readyz_check, start, Machine, Ending, continues, exits, panics, Run,
  and_then, ◌>>=◌, must, attempt, cert_watcher, init, make_manager, add_watcher,
  add_checks_and_start, main, program, Flags, SchemePart, ManagerOptions, client_go,
  openshift_v1alpha1, scheme_builder, machine_config_v1, config_v1,
}

abbrev is_some : {A : Type 0} → Option A → Bool
is_some none = false
is_some (some a) = true

module _ {Watcher : Type 0} where
  -- A registration of types, which `init` makes.
  abbrev pub is_registration : Call Watcher → Bool
  is_registration (add_to_scheme part) = true
  is_registration _ = false

  module _ (machine : Machine Watcher) where
    -- Whether the call succeeds after those of the list.
    abbrev pub is_ok : List (Call Watcher) → Call Watcher → Bool
    is_ok h (new_cert_watcher cert key) = is_some (machine.new_watcher h cert key)
    is_ok h (add_to_scheme part) = machine.succeeds h (add_to_scheme part)
    is_ok h get_config = machine.succeeds h get_config
    is_ok h (new_manager options) = machine.succeeds h (new_manager options)
    is_ok h (setup_with_manager controller name) =
        machine.succeeds h (setup_with_manager controller name)
    is_ok h (add_runnable w) = machine.succeeds h (add_runnable w)
    is_ok h (add_healthz_check name) = machine.succeeds h (add_healthz_check name)
    is_ok h (add_readyz_check name) = machine.succeeds h (add_readyz_check name)
    is_ok h start = machine.succeeds h start

    abbrev pub all_ok : List (Call Watcher) → Bool
    all_ok [] = true
    all_ok (c ∷ h) = is_ok h c && all_ok h

    -- The latest call is the only one that failed.
    abbrev pub last_failed : List (Call Watcher) → Bool
    last_failed [] = false
    last_failed (c ∷ h) = not (is_ok h c) && all_ok h

    abbrev pub last_registers : List (Call Watcher) → Bool
    last_registers [] = false
    last_registers (c ∷ h) = is_registration c

    -- How a run ends after its calls: it goes on if all succeeded, and otherwise the last one
    -- failed and ended the program, by a panic where it registers types, with code 1 where not.
    abbrev pub IsOrderly : {A : Type 0} → Ending A → List (Call Watcher) → Type 0
    IsOrderly (continues a) h = all_ok h ≡ true
    IsOrderly (exits code) h = (code ≡ 1) × (last_failed h ≡ true) × (last_registers h ≡ false)
    IsOrderly panics h = (last_failed h ≡ true) × (last_registers h ≡ true)

    record Orderly {A : Type 0} (m : Run Watcher A) : Type 0 where
      at : (h : List (Call Watcher)) → all_ok h ≡ true → IsOrderly (m h).0 (m h).1

    then-IsOrderly :
        {A B : Type 0} (e : Ending A) (h : List (Call Watcher)) (f : A → Run Watcher B)
        → IsOrderly e h
        → ((a : A) → Orderly (f a))
        → IsOrderly (and_then e f h).0 (and_then e f h).1
    then-IsOrderly (continues a) h f p q = (q a).at h p
    then-IsOrderly (exits code) h f p q = p
    then-IsOrderly panics h f p q = p

    Orderly-bind :
        {A B : Type 0} (m : Run Watcher A) (f : A → Run Watcher B)
        → Orderly m
        → ((a : A) → Orderly (f a))
        → Orderly (m >>= f)
    Orderly-bind m f p q = record { at = λ h k. then-IsOrderly (m h).0 (m h).1 f (p.at h k) q }

    must-Orderly : (part : SchemePart) → Orderly (must machine (add_to_scheme part))
    must-Orderly part = record {
      at = λ h k. elim (Bool-cases (machine.succeeds h (add_to_scheme part))) [
        | inl e ↦ rw e (ground (arith, e, k))
        | inr e ↦ rw e (ground (arith, e, k), refl)
      ];
    }

    attempt-Orderly :
        (c : Call Watcher)
        → is_registration c ≡ false
        → ((h : List (Call Watcher)) → is_ok h c ≡ machine.succeeds h c)
        → Orderly (attempt machine c)
    attempt-Orderly c other same = record {
      at = λ h k. elim (Bool-cases (machine.succeeds h c)) [
        | inl e ↦ rw e (ground (arith, e, k, same h))
        | inr e ↦ rw e (refl, ground (arith, e, k, same h), other)
      ];
    }

    cert_watcher-Orderly : (path name key : String) → Orderly (cert_watcher machine path name key)
    unfolding cert_watcher
    cert_watcher-Orderly path name key = record {
      at = λ h k.
          let cert = machine.join path name in
          let secret = machine.join path key in
          elim (Bool-cases (path == "")) [
            | inl e ↦ rw e k
            | inr e ↦ elim (Option-cases (machine.new_watcher h cert secret)) [
              | inl w ↦ rw (e, w) (refl, ground (arith, w, k), refl)
              | inr (a, w) ↦ rw (e, w) (ground (arith, w, k))
            ]
          ];
    }

    init-Orderly : Orderly (init machine)
    unfolding init
    init-Orderly = Orderly-bind _ _ (must-Orderly client_go) λ _.
        Orderly-bind _ _ (must-Orderly (openshift_v1alpha1 scheme_builder))
          λ _. Orderly-bind _ _ (must-Orderly machine_config_v1) λ _. must-Orderly config_v1

    make_manager-Orderly :
        (options : ManagerOptions Watcher) → Orderly (make_manager machine options)
    unfolding make_manager
    make_manager-Orderly options = Orderly-bind _ _ (attempt-Orderly _ refl λ h. refl) λ _.
        Orderly-bind _ _ (attempt-Orderly _ refl λ h. refl) λ _. attempt-Orderly _ refl λ h. refl

    add_watcher-Orderly : (watcher : Option Watcher) → Orderly (add_watcher machine watcher)
    unfolding add_watcher
    add_watcher-Orderly none = record { at = λ h k. k }
    add_watcher-Orderly (some w) = attempt-Orderly (add_runnable w) refl λ h. refl

    add_checks_and_start-Orderly : Orderly (add_checks_and_start machine)
    unfolding add_checks_and_start
    add_checks_and_start-Orderly = Orderly-bind _ _ (attempt-Orderly _ refl λ h. refl) λ _.
        Orderly-bind _ _ (attempt-Orderly _ refl λ h. refl) λ _. attempt-Orderly _ refl λ h. refl

    main-Orderly : (flags : Flags) → Orderly (main machine flags)
    unfolding main
    main-Orderly flags = Orderly-bind _ _ (cert_watcher-Orderly _ _ _) λ webhook.
        Orderly-bind _ _ (cert_watcher-Orderly _ _ _) λ metrics.
          Orderly-bind _ _ (make_manager-Orderly _) λ _.
            Orderly-bind _ _ (add_watcher-Orderly metrics)
              λ _. Orderly-bind _ _ (add_watcher-Orderly webhook) λ _. add_checks_and_start-Orderly

    -- The program returns only if every call that it made succeeded. Otherwise only the last call
    -- that it made failed, and the program panics if that call registers types, and exits with code
    -- 1 if not.
    pub program-IsOrderly :
        (flags : Flags) → IsOrderly (program machine flags).0 (program machine flags).1
    unfolding program
    program-IsOrderly flags = (Orderly-bind _ _ init-Orderly λ _. main-Orderly flags).at [] refl
