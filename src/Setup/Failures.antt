-- ===== src/Setup/Failures.antt =====
-- internal/controller/upgradeaccelerator_setup.go: what a failed setup of the resources reports.
use openshift_upgrade_accele.Prelude.{String, ◌≡◌, refl, ap, ◌∙◌, ◌==◌, List}
use openshift_upgrade_accele.Cluster.{Env, ReleaseImageTags}
use openshift_upgrade_accele.Exec.{
  State, ok, err, done, fail, Error, Exec, or_else, when, ◌>>=◌, ◌>>◌, pure, get, call,
}
use openshift_upgrade_accele.Conditions.Laws.{get_condition_reason-append_condition}
use openshift_upgrade_accele.Conditions.{
  get_condition_reason, condition_reason_failure_get_release_images,
}
use openshift_upgrade_accele.Versions.{OpenShiftClusterVersionState}
use openshift_upgrade_accele.Images.{get_release_images, filter_release_images}
use openshift_upgrade_accele.ConfigMaps.{create_release_config_map, create_puller_script_config_map}
use openshift_upgrade_accele.Setup.Handlers.{
  goes, stops, when_stops, setup_failed_at, reported-setup_complete, reported-failure,
  namespace_failed_at, config_map_failed_at, script_failed_at, marshaled, unmarshaled,
}
use openshift_upgrade_accele.Setup.{
  setup_failed, namespace_failed, config_map_failed, script_failed, setup_resources,
  create_operator_namespace,
}

-- The steps of `setupResources`.
pub data Step : Type 0 where
  images_step : Step
  namespace_step : Step
  total_step : Step
  filtered_step : Step
  release_step : Step
  script_step : Step

-- The reason of the condition `Failure` after the step failed, and that of `SetupComplete`.
abbrev pub failure_reason : Step → String
failure_reason images_step = "GetReleaseImagesFailed"
failure_reason _ = "SetupFailed"

abbrev pub setup_reason : Step → String
setup_reason script_step = "ConfigMapFailure"
setup_reason _ = ""

module _ {W : Type 0} (env : Env W) (v : OpenShiftClusterVersionState) (s : State W) where
  abbrev filtered_of : List ReleaseImageTags → State W → List ReleaseImageTags
  filtered_of images listed = filter_release_images images listed.ua.status.cluster_infrastructure

  -- The steps up to the namespace succeed: the images, the state after they are listed, the
  -- namespace, and the state after it is found.
  pub record IsPrepared (images : List ReleaseImageTags) (listed : State W) (namespace : String)
      (ready : State W) : Type 0 where
    pub images_listed : get_release_images env v.desired_image s ≡ (done images, listed)
    pub namespace_found : create_operator_namespace env listed ≡ (done namespace, ready)

  -- The step is reached and fails with the error.
  pub data StepFails (e : Error) : Step → Type 0 where
    images_fail : (get_release_images env v.desired_image s).0 ≡ fail e → StepFails e images_step
    namespace_fails :
        {images : List ReleaseImageTags} {listed : State W}
        → get_release_images env v.desired_image s ≡ (done images, listed)
        → (create_operator_namespace env listed).0 ≡ fail e
        → StepFails e namespace_step
    total_fails :
        {images : List ReleaseImageTags} {listed : State W} {namespace : String} {ready : State W}
        → IsPrepared images listed namespace ready
        → env.marshal_images images ≡ err e
        → StepFails e total_step
    filtered_fails :
        {images : List ReleaseImageTags} {listed : State W} {namespace : String} {ready : State W}
        {total : String}
        → IsPrepared images listed namespace ready
        → env.marshal_images images ≡ ok total
        → env.marshal_images (filtered_of images listed) ≡ err e
        → StepFails e filtered_step
    release_fails :
        {images : List ReleaseImageTags} {listed : State W} {namespace : String} {ready : State W}
        {total filtered : String}
        → IsPrepared images listed namespace ready
        → env.marshal_images images ≡ ok total
        → env.marshal_images (filtered_of images listed) ≡ ok filtered
        → (create_release_config_map env total filtered ready).0 ≡ fail e
        → StepFails e release_step
    script_fails :
        {images : List ReleaseImageTags} {listed : State W} {namespace : String} {ready : State W}
        {total filtered : String} {stored : State W}
        → IsPrepared images listed namespace ready
        → env.marshal_images images ≡ ok total
        → env.marshal_images (filtered_of images listed) ≡ ok filtered
        → create_release_config_map env total filtered ready ≡ (done tt, stored)
        → stored.ua.spec.config.pull_script_config_map_name ≡ ""
        → (create_puller_script_config_map env stored).0 ≡ fail e
        → StepFails e script_step

module _ {W : Type 0} (env : Env W) where
  -- The rest of `setupResources` from each of its calls on.
  abbrev with_script : String → Unit {0} → Exec W Error String
  with_script namespace _ = do
    ua ← get
    when (ua.spec.config.pull_script_config_map_name == "")
        (or_else (create_puller_script_config_map env) (script_failed env))
    pure namespace

  abbrev with_filtered : (namespace total filtered : String) → Exec W Error String
  with_filtered namespace total filtered =
      or_else (create_release_config_map env total filtered) (config_map_failed env)
      >>= with_script namespace

  abbrev marshal : List ReleaseImageTags → Exec W Error String
  marshal images = call (λ w. (env.marshal_images images, w))

  abbrev with_total : List ReleaseImageTags → (namespace total : String) → Exec W Error String
  with_total filtered namespace total =
      or_else (marshal filtered) (config_map_failed env) >>= with_filtered namespace total

  abbrev with_namespace : (images filtered : List ReleaseImageTags) → String → Exec W Error String
  with_namespace images filtered namespace =
      or_else (marshal images) (config_map_failed env) >>= with_total filtered namespace

  abbrev with_images : List ReleaseImageTags → Exec W Error String
  with_images images = do
    ua ← get
    or_else (create_operator_namespace env) (namespace_failed env)
        >>= with_namespace images (filter_release_images images ua.status.cluster_infrastructure)

  setup_at :
      (v : OpenShiftClusterVersionState) (s : State W)
      → setup_resources env v s
        ≡ (or_else
                (get_release_images env v.desired_image)
                (setup_failed env condition_reason_failure_get_release_images)
              >>= with_images)
            s
  unfolding setup_resources
  setup_at v s = refl

  module _ (v : OpenShiftClusterVersionState) (s : State W) where
    listed_at :
        {images : List ReleaseImageTags} {listed : State W}
        → get_release_images env v.desired_image s ≡ (done images, listed)
        → setup_resources env v s ≡ with_images images listed
    listed_at {images} i =
        setup_at v s
        ∙ goes (get_release_images env v.desired_image)
            (setup_failed env condition_reason_failure_get_release_images) with_images i

    module _ {images : List ReleaseImageTags} {listed : State W} {namespace : String}
        {ready : State W} (p : IsPrepared env v s images listed namespace ready) where
      abbrev filtered_images : List ReleaseImageTags
      filtered_images = filtered_of env v s images listed

      ready_at : setup_resources env v s ≡ with_namespace images filtered_images namespace ready
      ready_at =
          listed_at p.images_listed
          ∙ goes (create_operator_namespace env) (namespace_failed env)
              (with_namespace images filtered_images) p.namespace_found

      total_at :
          {total : String}
          → env.marshal_images images ≡ ok total
          → setup_resources env v s ≡ with_total filtered_images namespace total ready
      total_at t =
          ready_at
          ∙ goes (marshal images) (config_map_failed env) (with_total filtered_images namespace)
              (marshaled env _ t)

      filtered_at :
          {total filtered : String}
          → env.marshal_images images ≡ ok total
          → env.marshal_images filtered_images ≡ ok filtered
          → setup_resources env v s ≡ with_filtered namespace total filtered ready
      filtered_at {total} t f =
          total_at t
          ∙ goes (marshal filtered_images) (config_map_failed env) (with_filtered namespace total)
              (marshaled env _ f)

  -- Whichever step of `setupResources` is the first to fail, the function returns the error of that
  -- step, and the condition `Failure` has the reason `GetReleaseImagesFailed` after the images and
  -- `SetupFailed` after every other step. The condition `SetupComplete` then says what failed only
  -- after the puller script; after each step before it there is none, although one has just been set
  -- where the namespace or the release ConfigMap failed.
  pub setup_resources-failed :
      (v : OpenShiftClusterVersionState) (s : State W) (e : Error) {step : Step}
      → StepFails env v s e step
      → let (o, ended) = setup_resources env v s in
        (o ≡ fail e)
        × (get_condition_reason ended.ua "Failure" ≡ failure_reason step)
        × (get_condition_reason ended.ua "SetupComplete" ≡ setup_reason step)
  setup_resources-failed v s e (images_fail h) =
      let at : setup_resources env v s ≡ (fail e, _) =
        setup_at v s
        ∙ stops (get_release_images env v.desired_image)
            (setup_failed env condition_reason_failure_get_release_images) with_images h
            (setup_failed_at env _ e _) in
      rw at (refl, reported-failure env _ e _, reported-setup_complete env _ e _)
  setup_resources-failed v s e (namespace_fails {images} {listed} i h) =
      let at : setup_resources env v s ≡ (fail e, _) =
        listed_at v s i
        ∙ stops (create_operator_namespace env) (namespace_failed env)
            (with_namespace images (filtered_of env v s images listed)) h
            (namespace_failed_at env e _) in
      rw at (refl, reported-failure env _ e _, reported-setup_complete env _ e _)
  setup_resources-failed v s e (total_fails {images} {listed} {namespace} p h) =
      let at : setup_resources env v s ≡ (fail e, _) =
        ready_at v s p
        ∙ stops (marshal images) (config_map_failed env)
            (with_total (filtered_of env v s images listed) namespace) (unmarshaled env _ h)
            (config_map_failed_at env e _) in
      rw at (refl, reported-failure env _ e _, reported-setup_complete env _ e _)
  setup_resources-failed v s e
        (filtered_fails {images} {listed} {namespace} {ready} {total} p t h) =
      let at : setup_resources env v s ≡ (fail e, _) =
        total_at v s p t
        ∙ stops (marshal (filtered_of env v s images listed)) (config_map_failed env)
            (with_filtered namespace total) (unmarshaled env _ h) (config_map_failed_at env e _) in
      rw at (refl, reported-failure env _ e _, reported-setup_complete env _ e _)
  setup_resources-failed v s e
        (release_fails {images} {listed} {namespace} {ready} {total} {filtered} p t f h) =
      let at : setup_resources env v s ≡ (fail e, _) =
        filtered_at v s p t f
        ∙ stops (create_release_config_map env total filtered) (config_map_failed env)
            (with_script namespace) h (config_map_failed_at env e _) in
      rw at (refl, reported-failure env _ e _, reported-setup_complete env _ e _)
  setup_resources-failed v s e
        (script_fails {images} {listed} {namespace} {ready} {total} {filtered} {stored} p t f r c
          h) =
      let at : setup_resources env v s ≡ (fail e, _) =
        filtered_at v s p t f
        ∙ goes (create_release_config_map env total filtered) (config_map_failed env)
            (with_script namespace) r
        ∙ when_stops (create_puller_script_config_map env) (script_failed env) (λ _. pure namespace)
            {b = stored.ua.spec.config.pull_script_config_map_name == ""}
            (ap (λ (name : String). name == "") c) h (script_failed_at env e _) in
      rw at (
        refl,
        get_condition_reason-append_condition env _ _ _ _ _ _ ∙ reported-failure env _ e _,
        get_condition_reason-append_condition env _ _ _ _ _ _,
      )
