-- ===== src/Tests/Start.antt =====
-- The theorems on the start of the program at concrete machines.
use openshift_upgrade_accele.Prelude.{
  ℕ, ◌≤◌, ◌≡◌, ◌↔◌, refl, true, none, some, [], ◌∷◌, length, nat_eq, not, arith,
}
use openshift_upgrade_accele.Entry.{
  Call, Machine, Flags, default_flags, TlsConfig, continues, program, tls_options,
}
use openshift_upgrade_accele.Entry.Failure.{IsOrderly, program-IsOrderly}
use openshift_upgrade_accele.Entry.Tls.{configured, tls_options-next_protos, tls_options-shared_iff}
use openshift_upgrade_accele.Entry.Started.{started_calls, program-started, program-succeeds}
use Prim.Native.String

-- Certificate watchers are numbered by the calls before them, and the call of the given number fails.
abbrev machine_failing : ℕ → Machine ℕ
machine_failing n = record {
  join = λ dir name. String.◌++◌ dir (String.◌++◌ "/" name);
  grow = λ capacity needed. needed;
  new_watcher = λ h cert key. some (length h);
  succeeds = λ h c. not (nat_eq (length h) n);
}

abbrev sound : Machine ℕ
sound = record {
  join = λ dir name. String.◌++◌ dir (String.◌++◌ "/" name);
  grow = λ capacity needed. needed;
  new_watcher = λ h cert key. some (length h);
  succeeds = λ h c. true;
}

abbrev both_certificates : Flags
both_certificates = record default_flags {
  metrics_cert_path = "/metrics";
  webhook_cert_path = "/webhook";
}

program-IsOrderly_example :
    let run = program (machine_failing 7) both_certificates in
    IsOrderly (machine_failing 7) run.0 run.1
program-IsOrderly_example = program-IsOrderly (machine_failing 7) both_certificates

program-started_example :
    (program sound both_certificates).1 ≡ started_calls sound both_certificates
unfolding program openshift_upgrade_accele.Entry.init openshift_upgrade_accele.Entry.main
    openshift_upgrade_accele.Entry.cert_watcher openshift_upgrade_accele.Entry.make_manager
    openshift_upgrade_accele.Entry.add_watcher openshift_upgrade_accele.Entry.add_checks_and_start
program-started_example = program-started sound both_certificates refl

program-succeeds_example :
    program sound both_certificates ≡ (continues tt, started_calls sound both_certificates)
program-succeeds_example =
    program-succeeds sound both_certificates (λ h c. refl) (λ h cert key. (length h, refl))

abbrev h2 : TlsConfig ℕ
h2 = record { next_protos = "h2" ∷ []; certificate = none }

tls_options-next_protos_example :
    let options = tls_options sound default_flags (some 4) none in
    ((configured options.0 h2).next_protos ≡ "http/1.1" ∷ [])
    × ((configured options.1 h2).next_protos ≡ "http/1.1" ∷ [])
tls_options-next_protos_example = tls_options-next_protos sound default_flags (some 4) none h2

tls_options-shared_iff_example :
    let options = tls_options sound default_flags (some 4) (some 5) in
    ((configured options.0 h2).certificate ≡ some 4) ↔ (sound.grow 0 1 ≤ 1)
tls_options-shared_iff_example =
    tls_options-shared_iff sound default_flags 4 5 h2 refl (omega arith)
