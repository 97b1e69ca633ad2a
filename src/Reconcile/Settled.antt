-- ===== src/Reconcile/Settled.antt =====
-- internal/controller/upgradeaccelerator_controller.go: the scan of the Jobs, with its status updates.
use openshift_upgrade_accele.Prelude.{◌≡◌, refl, ap, ◌∙◌, Bool, true, false, List, [], ◌∷◌, arith}
use openshift_upgrade_accele.Cluster.{Env, Job}
use openshift_upgrade_accele.Exec.{Exec, Outcome, done, fail, panic, State, and_then, when}
use openshift_upgrade_accele.Conditions.{status_update}
use openshift_upgrade_accele.Schedule.{settle_job, settle_jobs}
use openshift_upgrade_accele.Reconcile.Reply.{Reply, update_nodes, save}
use openshift_upgrade_accele.Reconcile.Run.{scan_job, scan_jobs}

module _ {W : Type 0} (env : Env W) where
  ua-save : (b : Bool) (s : State W) → (when b (save env) s).1.ua ≡ s.ua
  unfolding save status_update
  ua-save true s = ground arith
  ua-save false s = refl

  ua-scan_job :
      (job : Job) (s : State W)
      → (scan_job env job s).1.ua ≡ update_nodes (λ status. (settle_job status job).0) s.ua
  unfolding scan_job
  ua-scan_job job s = ua-save (settle_job s.ua.status job).1 _

  -- The next action of a chain that ends has run.
  went_on :
      (o : Outcome Reply (Unit {0})) (m : Exec W Reply (Unit {0})) (s : State W)
      → (and_then o (λ _. m) s).0 ≡ done tt
      → ((m s).0 ≡ done tt) × ((and_then o (λ _. m) s).1 ≡ (m s).1)
  went_on (done a) m s h = (h, refl)
  went_on (fail e) m s h = cc
  went_on panic m s h = cc

  -- If no status update fails, the scan of the Jobs leaves the status as `settle_jobs` computes it
  -- without the calls of the client, and changes no more of the object.
  pub scan_jobs-settle_jobs :
      (jobs : List Job) (s : State W)
      → (scan_jobs env jobs s).0 ≡ done tt
      → (scan_jobs env jobs s).1.ua ≡ update_nodes (λ status. settle_jobs status jobs) s.ua
  unfolding scan_jobs settle_jobs
  scan_jobs-settle_jobs [] s h = refl
  scan_jobs-settle_jobs (job ∷ jobs) s h =
      let s' = (scan_job env job s).1 in
      let (rest, e) = went_on (scan_job env job s).0 (scan_jobs env jobs) s' h in
      ap (λ (x : State W). x.ua) e
      ∙ scan_jobs-settle_jobs jobs s' rest
      ∙ ap (update_nodes (λ status. settle_jobs status jobs)) (ua-scan_job job s)
