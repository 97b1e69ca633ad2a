-- ===== src/Reconcile/Names.antt =====
-- internal/controller/upgradeaccelerator_controller.go and upgradeaccelerator_func.go: the names of the
-- pull Jobs, which are also the values of a label.
use Prim.Native.String
use Prim.Native.String.{len}
use text.Mathlib.TextLemmas.{append_cancel_left}
use text.Mathlib.TextPositions.{len-append, slice-append_left}
use openshift_upgrade_accele.Prelude.{ℕ, ◌+◌, ◌≤◌, String, ◌≡◌, ◌↔◌, sym, ap, ◌∙◌, arith}
use openshift_upgrade_accele.Api.{UpgradeAccelerator}
use openshift_upgrade_accele.Cluster.{Env}
use openshift_upgrade_accele.Versions.{hash_string}
use openshift_upgrade_accele.Reconcile.Scheduling.{pull_job}

-- What crypto/sha256 documents of its digest in hexadecimal, as far as the first eight digits go.
pub record HexDigest (hex : String → String) : Type 0 where
  pub first : String → String
  pub rest : String → String
  pub split : (text : String) → hex text ≡ String.◌++◌ (first text) (rest text)
  pub digits : (text : String) → len (first text) ≡ 8

module _ {W : Type 0} (env : Env W) (digest : HexDigest env.sha256_hex) where
  len-hash_string : (text : String) → len (hash_string env text) ≡ 8
  unfolding hash_string
  len-hash_string text =
      let a = digest.first text in
      let b = digest.rest text in
      rw (digest.split text) (
        ap len (
          ap (λ (n : ℕ). String.slice (String.◌++◌ a b) 0 n) (sym (digest.digits text))
          ∙ slice-append_left a b)
        ∙ digest.digits text)

  -- Where a digest has at least eight hexadecimal digits, the name of a pull Job is nineteen bytes
  -- longer than that of its node. So it is a label value, of at most sixty-three bytes, exactly if
  -- the name of the node has at most forty-four.
  pub len-pull_job :
      (namespace : String) (ua : UpgradeAccelerator) (node : String)
      → (len (pull_job env namespace ua node).name ≡ len node + 19)
        × ((len (pull_job env namespace ua node).name ≤ 63) ↔ (len node ≤ 44))
  len-pull_job namespace ua node =
      let hash = hash_string env ua.status.desired_version in
      let e : len (pull_job env namespace ua node).name ≡ len node + 19 = omega (
        arith,
        len-append node (String.◌++◌ "-ua-puller-" hash),
        len-append "-ua-puller-" hash,
        len-hash_string ua.status.desired_version,
      ) in
      (e, (λ h. omega (arith, e, h), λ h. omega (arith, e, h)))

  front_of : (a x b y : String) → len a ≡ len b → String.◌++◌ a x ≡ String.◌++◌ b y → a ≡ b
  front_of a x b y same e =
      sym (slice-append_left a x)
      ∙ ap (λ (s : String). String.slice s 0 (len a)) e
      ∙ ap (λ (n : ℕ). String.slice (String.◌++◌ b y) 0 n) same
      ∙ slice-append_left b y

  -- Where a digest has at least eight hexadecimal digits, two pull Jobs in one namespace have one
  -- name exactly if they are for one node and the hashes of the desired versions are one, whichever
  -- objects they are made for.
  pub pull_job-name_iff :
      (namespace : String) (ua other : UpgradeAccelerator) (a b : String)
      → ((pull_job env namespace ua a).name ≡ (pull_job env namespace other b).name) ↔ (
          (a ≡ b)
          × (hash_string env ua.status.desired_version
              ≡ hash_string env other.status.desired_version))
  pull_job-name_iff namespace ua other a b =
      let h = hash_string env ua.status.desired_version in
      let k = hash_string env other.status.desired_version in
      let tail = λ (s : String). String.◌++◌ "-ua-puller-" s in
      (
        λ e.
            let same : len a ≡ len b = omega (
              arith,
              ap len e,
              (len-pull_job namespace ua a).0,
              (len-pull_job namespace other b).0,
            ) in
            let node = front_of a (tail h) b (tail k) same e in
            (
              node,
              append_cancel_left "-ua-puller-" h k (
                  append_cancel_left a (tail h) (tail k)
                    (e ∙ ap (λ (s : String). String.◌++◌ s (tail k)) (sym node))),
            ),
        λ (node, hash) i. String.◌++◌ (node i) (tail (hash i)),
      )
