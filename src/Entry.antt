-- ===== src/Entry.antt =====
-- cmd/main.go and api/v1alpha1/groupversion_info.go: the flags, the registration of the types, and
-- how the manager is put together and started. The calls of controller-runtime are recorded in
-- order, and what each of them answers may depend on the ones before it.
pub mod Slices
pub mod Failure
pub mod Tls
pub mod Stages
pub mod Started
use openshift_upgrade_accele.Prelude.{
  ℕ, String, Bool, true, false, not, Option, none, some, List, [], ◌∷◌, ◌==◌, if◌then◌else◌,
}
use openshift_upgrade_accele.Manager
use openshift_upgrade_accele.Manager.{Controller}
use openshift_upgrade_accele.Entry.Slices.{Memory, Slice, nil_slice, read, append}

pub record Flags : Type 0 where
  pub metrics_addr : String
  pub metrics_cert_path : String
  pub metrics_cert_name : String
  pub metrics_cert_key : String
  pub webhook_cert_path : String
  pub webhook_cert_name : String
  pub webhook_cert_key : String
  pub enable_leader_election : Bool
  pub probe_addr : String
  pub secure_metrics : Bool
  pub enable_http2 : Bool

-- The defaults that the flags are declared with.
abbrev pub default_flags : Flags
default_flags = record {
  metrics_addr = "0";
  metrics_cert_path = "";
  metrics_cert_name = "tls.crt";
  metrics_cert_key = "tls.key";
  webhook_cert_path = "";
  webhook_cert_name = "tls.crt";
  webhook_cert_key = "tls.key";
  enable_leader_election = false;
  probe_addr = ":8081";
  secure_metrics = true;
  enable_http2 = false;
}

pub record GroupVersion : Type 0 where
  pub group : String
  pub version : String

abbrev pub group_version : GroupVersion
group_version = record { group = "openshift.kemo.dev"; version = "v1alpha1" }

-- scheme.Builder of controller-runtime, with the types that were registered.
pub record SchemeBuilder : Type 0 where
  pub group_version : GroupVersion
  pub types : List String

-- The builder after `init` of the package of the types.
abbrev pub scheme_builder : SchemeBuilder
scheme_builder = record {
  group_version = group_version;
  types = "UpgradeAccelerator" ∷ "UpgradeAcceleratorList" ∷ [];
}

-- The four `AddToScheme` functions.
pub data SchemePart : Type 0 where
  client_go : SchemePart
  openshift_v1alpha1 : SchemeBuilder → SchemePart
  machine_config_v1 : SchemePart
  config_v1 : SchemePart

-- The functions on a TLS configuration: the one that disables HTTP/2, and those that take the
-- certificate of a watcher.
pub data TlsOption (Watcher : Type 0) : Type 0 where
  disable_http2 : TlsOption Watcher
  get_certificate : Watcher → TlsOption Watcher

-- tls.Config, as far as they change it.
pub record TlsConfig (Watcher : Type 0) : Type 0 where
  pub next_protos : List String
  pub certificate : Option Watcher

abbrev pub apply_option :
    {Watcher : Type 0} → TlsOption Watcher → TlsConfig Watcher → TlsConfig Watcher
apply_option disable_http2 c = record c { next_protos = "http/1.1" ∷ [] }
apply_option (get_certificate w) c = record c { certificate = some w }

-- metricsserver.Options
pub record MetricsOptions (Watcher : Type 0) : Type 0 where
  pub bind_address : String
  pub secure_serving : Bool
  pub tls_options : List (TlsOption Watcher)
  pub authenticated : Bool

-- ctrl.Options; the slices are read when the manager is made, and nothing is appended to them later.
pub record ManagerOptions (Watcher : Type 0) : Type 0 where
  pub metrics : MetricsOptions Watcher
  pub webhook_tls_options : List (TlsOption Watcher)
  pub health_probe_bind_address : String
  pub leader_election : Bool
  pub leader_election_id : String

-- The calls that can fail.
pub data Call (Watcher : Type 0) : Type 0 where
  add_to_scheme : SchemePart → Call Watcher
  new_cert_watcher : (cert key : String) → Call Watcher
  get_config : Call Watcher
  new_manager : ManagerOptions Watcher → Call Watcher
  setup_with_manager : (controller : Controller) (recorder : String) → Call Watcher
  add_runnable : Watcher → Call Watcher
  add_healthz_check : (name : String) → Call Watcher
  add_readyz_check : (name : String) → Call Watcher
  start : Call Watcher

-- What is not in the repository: filepath.Join, how the runtime grows a slice, and the answers of
-- the calls after those made before, the latest first.
pub record Machine (Watcher : Type 0) : Type 0 where
  pub join : String → String → String
  pub grow : ℕ → ℕ → ℕ
  pub new_watcher : List (Call Watcher) → String → String → Option Watcher
  pub succeeds : List (Call Watcher) → Call Watcher → Bool

pub data Ending (A : Type 0) : Type 0 where
  continues : A → Ending A
  exits : (code : ℕ) → Ending A
  panics : Ending A

abbrev pub Run : Type 0 → Type 0 → Type 0
Run Watcher A = List (Call Watcher) → Ending A × List (Call Watcher)

module _ {Watcher : Type 0} where
  abbrev pub and_then : {A B : Type 0} → Ending A → (A → Run Watcher B) → Run Watcher B
  and_then (continues a) f h = f a h
  and_then (exits code) f h = (exits code, h)
  and_then panics f h = (panics, h)

  infixl 5 ◌>>=◌ ◌>>◌
  abbrev pub ◌>>=◌ : {A B : Type 0} → Run Watcher A → (A → Run Watcher B) → Run Watcher B
  m >>= f = λ h. let (e, h') = m h in and_then e f h'

  abbrev pub ◌>>◌ : {A B : Type 0} → Run Watcher A → Run Watcher B → Run Watcher B
  m >> n = m >>= λ _. n

  abbrev pub pure : {A : Type 0} → A → Run Watcher A
  pure a h = (continues a, h)

  module _ (machine : Machine Watcher) where
    -- `utilruntime.Must(…)`
    abbrev pub must : Call Watcher → Run Watcher (Unit {0})
    must c h = if machine.succeeds h c then (continues tt, c ∷ h) else (panics, c ∷ h)

    -- `if err := …; err != nil { os.Exit(1) }`
    abbrev pub attempt : Call Watcher → Run Watcher (Unit {0})
    attempt c h = if machine.succeeds h c then (continues tt, c ∷ h) else (exits 1, c ∷ h)

    abbrev watcher_from : Option Watcher → Run Watcher (Option Watcher)
    watcher_from none h = (exits 1, h)
    watcher_from (some w) h = (continues (some w), h)

    -- A certificate watcher, where a path was given.
    unfoldable pub cert_watcher : (path name key : String) → Run Watcher (Option Watcher)
    cert_watcher path name key h =
        let cert = machine.join path name in
        let secret = machine.join path key in
        if path == ""
        then (continues none, h)
        else watcher_from (machine.new_watcher h cert secret) (new_cert_watcher cert secret ∷ h)

    unfoldable pub init : Run Watcher (Unit {0})
    init = do
      must (add_to_scheme client_go)
      must (add_to_scheme (openshift_v1alpha1 scheme_builder))
      must (add_to_scheme machine_config_v1)
      must (add_to_scheme config_v1)

    -- `tlsOpts`
    abbrev initial_options : Flags → Memory (TlsOption Watcher) × Slice
    initial_options flags =
        if flags.enable_http2
        then ([], nil_slice)
        else append machine.grow [] nil_slice disable_http2

    -- `tlsOpts` with the certificate of a watcher, where there is one.
    abbrev with_certificate :
        Option Watcher → Memory (TlsOption Watcher) → Slice → Memory (TlsOption Watcher) × Slice
    with_certificate none memory s = (memory, s)
    with_certificate (some w) memory s = append machine.grow memory s (get_certificate w)

    -- What the two servers are given: the options of the webhooks, and those of the metrics.
    unfoldable pub tls_options :
        Flags
        → (webhook metrics : Option Watcher) → List (TlsOption Watcher) × List (TlsOption Watcher)
    tls_options flags webhook metrics =
        let (memory, tls) = initial_options flags in
        let (memory', webhook_tls) = with_certificate webhook memory tls in
        let (memory'', metrics_tls) = with_certificate metrics memory' tls in
        (read memory'' webhook_tls, read memory'' metrics_tls)

    abbrev pub manager_options : Flags → (webhook metrics : Option Watcher) → ManagerOptions Watcher
    manager_options flags webhook metrics =
        let options = tls_options flags webhook metrics in
        record {
          metrics = record {
            bind_address = flags.metrics_addr;
            secure_serving = flags.secure_metrics;
            tls_options = options.1;
            authenticated = flags.secure_metrics;
          };
          webhook_tls_options = options.0;
          health_probe_bind_address = flags.probe_addr;
          leader_election = flags.enable_leader_election;
          leader_election_id = "203bc5ad.kemo.dev";
        }

    -- The manager and its controller.
    unfoldable pub make_manager : ManagerOptions Watcher → Run Watcher (Unit {0})
    make_manager options = do
      attempt get_config
      attempt (new_manager options)
      attempt (setup_with_manager Manager.setup_with_manager "upgrade-accelerator-controller")

    unfoldable pub add_watcher : Option Watcher → Run Watcher (Unit {0})
    add_watcher none h = (continues tt, h)
    add_watcher (some w) h = attempt (add_runnable w) h

    unfoldable pub add_checks_and_start : Run Watcher (Unit {0})
    add_checks_and_start = do
      attempt (add_healthz_check "healthz")
      attempt (add_readyz_check "readyz")
      attempt start

    unfoldable pub main : Flags → Run Watcher (Unit {0})
    main flags = do
      webhook ← cert_watcher flags.webhook_cert_path flags.webhook_cert_name flags.webhook_cert_key
      metrics ← cert_watcher flags.metrics_cert_path flags.metrics_cert_name flags.metrics_cert_key
      make_manager (manager_options flags webhook metrics)
      add_watcher metrics
      add_watcher webhook
      add_checks_and_start

    -- The program: Go runs `init` before `main`.
    unfoldable pub program : Flags → Ending (Unit {0}) × List (Call Watcher)
    program flags = (init >> main flags) []
