-- ===== src/ConfigMaps.antt =====
-- internal/controller/upgradeaccelerator_configmap.go: the ConfigMaps of a release. The text of the
-- puller script is the constant `DefaultPullerScript`.
pub mod Laws
use Prim.Native.String
use openshift_upgrade_accele.Prelude.{
  String, Bool, true, false, ◌&&◌, List, [], ◌∷◌, ◌==◌, join, if◌then◌else◌,
}
use openshift_upgrade_accele.Api.{UpgradeAccelerator}
use openshift_upgrade_accele.Cluster.{Env, ConfigMap}
use openshift_upgrade_accele.Exec.{Error, Result, ok, err, done, Exec, get, call, ◌>>=◌}
use openshift_upgrade_accele.Versions.{hash_string}
use openshift_upgrade_accele.Jobs.{or_default}

abbrev pub default_namespace : String
default_namespace = "openshift-upgrade-accelerator"

-- The namespace of the spec, or the default one.
abbrev pub target_namespace : UpgradeAccelerator → String
target_namespace ua = or_default ua.spec.config.scheduling.namespace default_namespace

-- `DefaultPullerScript`, line by line; the pull binary is `crictl`.
abbrev script_lines : List String
script_lines =
    "#!/bin/bash\n" ∷ "set -euo pipefail\n"
    ∷ "export TOTAL_RELEASE_IMAGE_LIST=$(cat /etc/upgrade-accelerator/release/total_release_image_list.json)\n"
    ∷ "export FILTERED_RELEASE_IMAGE_LIST=$(cat /etc/upgrade-accelerator/release/filtered_release_image_list.json)\n"
    ∷ "\n" ∷ "chroot /host /bin/bash <<EOT\n" ∷ "export PULL_BINARY=crictl\n"
    ∷ "export KUBECONFIG=/etc/kubernetes/static-pod-resources/kube-apiserver-certs/secrets/node-kubeconfigs/localhost.kubeconfig;\n"
    ∷ "oc whoami;\n"
    ∷ "echo '${FILTERED_RELEASE_IMAGE_LIST}' | jq -r '.[] | [.name, .from] | @tsv' | \\\n"
    ∷ "  while IFS=\\$'\\t' read -r name from; do\n"
    ∷ "    echo \"Processing image \\$name: \\$from\"\n" ∷ "\t\t\\$PULL_BINARY pull \\$from\n"
    ∷ "  done\n" ∷ "EOT\n" ∷ "\n" ∷ "echo \"===== PULLER SCRIPT FINISHED =====\"\n" ∷ []

abbrev pub default_puller_script : String
default_puller_script = join script_lines

abbrev pub Entries : Type 0
Entries = List (String × String)

has_entry : Entries → String → String → Bool
has_entry [] k v = false
has_entry ((j, w) ∷ m) k v = if j == k then w == v else has_entry m k v

includes : Entries → Entries → Bool
unfolding has_entry
includes m [] = true
includes m ((k, v) ∷ rest) = has_entry m k v && includes m rest

-- reflect.DeepEqual on maps: each has the entries of the other.
unfoldable pub deep_equal : Entries → Entries → Bool
unfolding includes
deep_equal m n = includes m n && includes n m

abbrev pub entries_of : Result ConfigMap → Entries
entries_of (ok m) = m.entries
entries_of (err e) = []

abbrev pub is_not_found : Result ConfigMap → Bool
is_not_found (ok m) = false
is_not_found (err e) = e.not_found

module _ {W : Type 0} (env : Env W) where
  -- The end of both functions. After an error other than NotFound the ConfigMap that was read is
  -- empty, and the comparison goes on with it.
  unfoldable pub create_or_update : ConfigMap → Exec W Error (Unit {0})
  unfolding deep_equal
  create_or_update m s =
      let (found, w) =
        env.get_config_map (record { namespace = m.namespace; name = m.name }) s.world in
      if is_not_found found
      then call (env.create_config_map m) (record s { world = w })
      else if deep_equal (entries_of found) m.entries
      then (done tt, record s { world = w })
      else call (env.update_config_map m) (record s { world = w })

  unfoldable pub release_config_map : UpgradeAccelerator → (total filtered : String) → ConfigMap
  release_config_map ua total filtered = record {
    name = String.◌++◌ "release-" (hash_string env ua.status.desired_version);
    namespace = target_namespace ua;
    labels =
        ("app", "upgrade-accelerator")
        ∷ ("upgrade-accelerator/releaseVersion", ua.status.desired_version)
        ∷ ("upgrade-accelerator/name", ua.name)
        ∷ [];
    owner = ua.name;
    entries =
        ("total_release_image_list.json", total)
        ∷ ("filtered_release_image_list.json", filtered)
        ∷ [];
  }

  unfoldable pub create_release_config_map : (total filtered : String) → Exec W Error (Unit {0})
  unfolding create_or_update release_config_map
  create_release_config_map total filtered = do
    ua ← get
    create_or_update (release_config_map ua total filtered)

  unfoldable pub script_config_map : UpgradeAccelerator → ConfigMap
  script_config_map ua = record {
    name = String.◌++◌ "release-puller-script-" (hash_string env ua.status.desired_version);
    namespace = target_namespace ua;
    labels =
        ("app", "upgrade-accelerator")
        ∷ ("upgrade-accelerator/name", ua.name)
        ∷ ("upgrade-accelerator/util", "puller-script")
        ∷ ("upgrade-accelerator/release", ua.status.desired_version)
        ∷ [];
    owner = ua.name;
    entries = ("puller.sh", default_puller_script) ∷ [];
  }

  unfoldable pub create_puller_script_config_map : Exec W Error (Unit {0})
  unfolding create_or_update script_config_map
  create_puller_script_config_map = do ua ← get; create_or_update (script_config_map ua)
