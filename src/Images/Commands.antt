-- ===== src/Images/Commands.antt =====
-- internal/controller/oc_get_release_images.go: when a command line counts as successful.
use openshift_upgrade_accele.Prelude.{String, ◌≡◌, ◌↔◌, none, join, arith}
use openshift_upgrade_accele.Cluster.{Env, Process}
use openshift_upgrade_accele.Exec.{ok, State}
use openshift_upgrade_accele.Images.{
  read_process, run_command, get_release_images, get_release_image_from_version,
  get_release_version_from_image,
}

-- Every step of a process succeeds.
pub record Succeeds (p : Process) : Type 0 where
  pub piped : p.stdout_pipe ≡ none
  pub started : p.start ≡ none
  pub scanned : p.scan ≡ none
  pub waited : p.wait ≡ none

module _ {W : Type 0} (env : Env W) where
  -- A command line yields an output exactly if the pipe, the start, the reading and the waiting all
  -- succeed, and the output is then the lines that were read, joined.
  pub run_command_lem :
      (line : String) (w : W) (output : String)
      → ((run_command env line w).0 ≡ ok output)
        ↔ (Succeeds (env.run_shell line w).0 × (output ≡ join (env.run_shell line w).0.lines))
  unfolding run_command read_process
  run_command_lem line w output = (
    λ h. (
      record {
        piped = ground arith;
        started = ground arith;
        scanned = ground arith;
        waited = ground arith;
      },
      ground arith,
    ),
    λ h. ground arith,
  )

  -- The command lines leave the object alone.
  pub ua-get_release_images :
      (image : String) (s : State W) → (get_release_images env image s).1.ua ≡ s.ua
  unfolding get_release_images
  ua-get_release_images image s = ground arith

  pub ua-get_release_image_from_version :
      (version : String) (s : State W) → (get_release_image_from_version env version s).1.ua ≡ s.ua
  unfolding get_release_image_from_version
  ua-get_release_image_from_version version s = ground arith

  pub ua-get_release_version_from_image :
      (image : String) (s : State W) → (get_release_version_from_image env image s).1.ua ≡ s.ua
  unfolding get_release_version_from_image
  ua-get_release_version_from_image image s = ground arith
