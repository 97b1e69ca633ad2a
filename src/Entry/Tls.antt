-- ===== src/Entry/Tls.antt =====
-- cmd/main.go: what the TLS options do to the configurations of the two servers.
use openshift_upgrade_accele.Prelude.{
  ◌≤◌, ◌≡◌, ◌≢◌, ◌↔◌, false, Option, none, some, List, [], ◌∷◌, Bool-cases, inl, inr, arith,
  if◌then◌else◌, ltb,
}
use openshift_upgrade_accele.Entry.{Flags, TlsOption, TlsConfig, apply_option, Machine, tls_options}

module _ {Watcher : Type 0} where
  -- The configuration after the options in order.
  abbrev pub configured : List (TlsOption Watcher) → TlsConfig Watcher → TlsConfig Watcher
  configured [] c = c
  configured (o ∷ options) c = configured options (apply_option o c)

  abbrev pub or_same : Option Watcher → Option Watcher → Option Watcher
  or_same none w = w
  or_same (some w) v = some w

  module _ (machine : Machine Watcher) where
    -- Whatever certificates are given, and however the runtime grows slices, both servers offer
    -- HTTP/1.1 alone unless HTTP/2 is enabled, and what they offered before if it is.
    pub tls_options-next_protos :
        (flags : Flags) (webhook metrics : Option Watcher) (c : TlsConfig Watcher)
        → let options = tls_options machine flags webhook metrics in
          let protos = if flags.enable_http2 then c.next_protos else "http/1.1" ∷ [] in
          ((configured options.0 c).next_protos ≡ protos)
          × ((configured options.1 c).next_protos ≡ protos)
    unfolding tls_options
    tls_options-next_protos flags none none c = ground arith
    tls_options-next_protos flags (some w) none c = ground arith
    tls_options-next_protos flags none (some v) c = ground arith
    tls_options-next_protos flags (some w) (some v) c = ground arith

    -- If the array of a first appended element has room for no other, each server takes the
    -- certificate of its own watcher, where it has one.
    pub tls_options-certificate :
        (flags : Flags) (webhook metrics : Option Watcher) (c : TlsConfig Watcher)
        → machine.grow 0 1 ≤ 1
        → let options = tls_options machine flags webhook metrics in
          ((configured options.0 c).certificate ≡ or_same webhook c.certificate)
          × ((configured options.1 c).certificate ≡ or_same metrics c.certificate)
    unfolding tls_options
    tls_options-certificate flags none none c h = ground arith
    tls_options-certificate flags (some w) none c h = ground arith
    tls_options-certificate flags none (some v) c h = ground arith
    tls_options-certificate flags (some w) (some v) c h = ground arith

    -- With HTTP/2 disabled and two different watchers, the webhooks take the certificate of their
    -- own watcher exactly if the array of the first appended element has room for no other.
    pub tls_options-shared_iff :
        (flags : Flags) (webhook metrics : Watcher) (c : TlsConfig Watcher)
        → flags.enable_http2 ≡ false
        → webhook ≢ metrics
        → let options = tls_options machine flags (some webhook) (some metrics) in
          ((configured options.0 c).certificate ≡ some webhook) ↔ (machine.grow 0 1 ≤ 1)
    unfolding tls_options
    tls_options-shared_iff flags webhook metrics c disabled other =
        elim (Bool-cases (ltb 1 (machine.grow 0 1))) [
          | inl room ↦ (λ h. absurd (other (ground (arith, h, room, disabled))), λ h. ground arith)
          | inr full ↦ (λ h. ground arith, λ h. ground (arith, disabled))
        ]
