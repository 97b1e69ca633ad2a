-- ===== src/Images.antt =====
-- internal/controller/oc_get_release_images.go: the `oc` command lines, and the filter that leaves
-- out the images of other platforms.
pub mod Filter
pub mod Commands
use Prim.Native.String
use openshift_upgrade_accele.Prelude.{
  ℕ, String, Bool, true, false, not, ◌&&◌, ◌||◌, Option, none, some, List, [], ◌∷◌, ◌==◌,
  if◌then◌else◌, keep, any, join, codes, nat_eq,
}
use openshift_upgrade_accele.Cluster.{Env, Process, ReleaseImageTags}
use openshift_upgrade_accele.Exec.{Error, Result, ok, err, Exec, ◌>>=◌, call}

-- The steps after `exec.Command`, up to `return`: the output and the error.
unfoldable pub read_process : Process → String × Option Error
read_process p = elim p.stdout_pipe [
  | some e ↦ ("", some e)
  | none ↦ elim p.start [
    | some e ↦ ("", some e)
    | none ↦ elim p.scan [
      | none ↦ (join p.lines, p.wait)
      | some scan ↦ elim p.kill [
        | some e ↦ ("", some e)
        | none ↦ elim p.wait [ some e ↦ ("", some e) | none ↦ ("", some scan) ]
      ]
    ]
  ]
]

abbrev command_line : String → String → String
command_line release_image rest =
    String.◌++◌ "oc adm release info " (String.◌++◌ release_image rest)

module _ {W : Type 0} (env : Env W) where
  -- `exec.Command("/bin/sh", "-c", cmdLine)` and the reading of its output.
  unfoldable pub run_command : String → W → Result String × W
  unfolding read_process
  run_command line w =
      let (process, w') = env.run_shell line w in
      let (output, error) = read_process process in
      elim error [ some e ↦ (err e, w') | none ↦ (ok output, w') ]

  unfoldable pub run_oc_command : String → Exec W Error String
  unfolding run_command
  run_oc_command release_image = call (
      run_command (
        command_line release_image
          " -o jsonpath='{.references.spec.tags}' | jq -r '[.[] | {name: .name, from: .from.name}]'"))

  unfoldable pub get_release_images : String → Exec W Error (List ReleaseImageTags)
  unfolding run_oc_command
  get_release_images release_image = do
    output ← run_oc_command release_image
    call (λ w. (env.unmarshal_images output, w))

  unfoldable pub get_release_image_from_version : String → Exec W Error String
  unfolding run_command
  get_release_image_from_version release_version =
      call (run_command (command_line release_version " -o jsonpath='{.image}'"))

  unfoldable pub get_release_version_from_image : String → Exec W Error String
  unfolding run_command
  get_release_version_from_image release_image =
      call (run_command (command_line release_image " -o jsonpath='{.metadata.version}'"))

-- A regular expression that is an alternative of literals, none of them with a special character,
-- matches a text in which one of them occurs.
abbrev is_prefix : List ℕ → List ℕ → Bool
is_prefix [] s = true
is_prefix (c ∷ p) [] = false
is_prefix (c ∷ p) (d ∷ s) = nat_eq c d && is_prefix p s

unfoldable pub is_infix : List ℕ → List ℕ → Bool
is_infix p [] = is_prefix p []
is_infix p (d ∷ s) = is_prefix p (d ∷ s) || is_infix p s

unfoldable pub match_string : List String → String → Bool
unfolding is_infix
match_string patterns name = any (λ p. is_infix (codes p) (codes name)) patterns

-- The `switch` over the infrastructure type; `none` is the nil filter.
unfoldable pub filter_match : String → Option (List String)
filter_match infrastructure_type =
    if infrastructure_type == "None" || infrastructure_type == "BareMetal"
    then some (
        "aws-" ∷ "azure-" ∷ "gcp-" ∷ "ibm-" ∷ "ibmcloud-" ∷ "libvirt-" ∷ "nutanix-" ∷ "openstack-"
        ∷ "ovirt-" ∷ "powervs-" ∷ "vsphere-" ∷ [])
    else if infrastructure_type == "AWS"
    then some (
        "azure-" ∷ "gcp-" ∷ "ibm-" ∷ "ibmcloud-" ∷ "libvirt-" ∷ "nutanix-" ∷ "openstack-" ∷ "ovirt-"
        ∷ "powervs-" ∷ "vsphere-" ∷ [])
    else if infrastructure_type == "Azure"
    then some (
        "aws-" ∷ "gcp-" ∷ "ibm-" ∷ "ibmcloud-" ∷ "libvirt-" ∷ "nutanix-" ∷ "openstack-" ∷ "ovirt-"
        ∷ "powervs-" ∷ "vsphere-" ∷ [])
    else if infrastructure_type == "GCP"
    then some (
        "aws-" ∷ "azure-" ∷ "ibm-" ∷ "ibmcloud-" ∷ "libvirt-" ∷ "nutanix-" ∷ "openstack-" ∷ "ovirt-"
        ∷ "powervs-" ∷ "vsphere-" ∷ [])
    else if infrastructure_type == "IBMCloud"
    then some (
        "aws-" ∷ "azure-" ∷ "gcp-" ∷ "ibm-" ∷ "libvirt-" ∷ "nutanix-" ∷ "openstack-" ∷ "ovirt-"
        ∷ "powervs-" ∷ "vsphere-" ∷ [])
    else if infrastructure_type == "Libvirt"
    then some (
        "aws-" ∷ "azure-" ∷ "gcp-" ∷ "ibm-" ∷ "ibmcloud-" ∷ "nutanix-" ∷ "openstack-" ∷ "ovirt-"
        ∷ "powervs-" ∷ "vsphere-" ∷ [])
    else if infrastructure_type == "Nutanix"
    then some (
        "aws-" ∷ "azure-" ∷ "gcp-" ∷ "ibm-" ∷ "ibmcloud-" ∷ "libvirt-" ∷ "openstack-" ∷ "ovirt-"
        ∷ "powervs-" ∷ "vsphere-" ∷ [])
    else if infrastructure_type == "OpenStack"
    then some (
        "aws-" ∷ "azure-" ∷ "gcp-" ∷ "ibm-" ∷ "ibmcloud-" ∷ "libvirt-" ∷ "nutanix-" ∷ "ovirt-"
        ∷ "powervs-" ∷ "vsphere-" ∷ [])
    else if infrastructure_type == "oVirt"
    then some (
        "aws-" ∷ "azure-" ∷ "gcp-" ∷ "ibm-" ∷ "ibmcloud-" ∷ "libvirt-" ∷ "nutanix-" ∷ "openstack-"
        ∷ "powervs-" ∷ "vsphere-" ∷ [])
    else if infrastructure_type == "PowerVS"
    then some (
        "aws-" ∷ "azure-" ∷ "gcp-" ∷ "ibm-" ∷ "ibmcloud-" ∷ "libvirt-" ∷ "nutanix-" ∷ "openstack-"
        ∷ "ovirt-" ∷ "vsphere-" ∷ [])
    else if infrastructure_type == "VSphere"
    then some (
        "aws-" ∷ "azure-" ∷ "gcp-" ∷ "ibm-" ∷ "ibmcloud-" ∷ "libvirt-" ∷ "nutanix-" ∷ "openstack-"
        ∷ "ovirt-" ∷ "powervs-" ∷ [])
    else none

unfoldable pub filter_release_images : List ReleaseImageTags → String → List ReleaseImageTags
unfolding filter_match match_string
filter_release_images release_images infrastructure_type = elim (filter_match infrastructure_type) [
  | none ↦ release_images
  | some patterns ↦ keep (λ item. not (match_string patterns item.name)) release_images
]
