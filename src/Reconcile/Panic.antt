-- ===== src/Reconcile/Panic.antt =====
-- internal/controller/upgradeaccelerator_controller.go: what a positive `Parallelism` does.
use openshift_upgrade_accele.Prelude.{
  ℕ, zero, suc, pos, String, ◌≡◌, ◌∙◌, refl, true, false, List, [], ◌∷◌, contains, drop, take,
  is_empty, length, ltb, Distinct, arith, Bool-cases, inl, inr,
}
use openshift_upgrade_accele.Api.{UpgradeAccelerator}
use openshift_upgrade_accele.Cluster.{Env}
use openshift_upgrade_accele.Exec.{State, done, panic}
use openshift_upgrade_accele.Exec.Keeps.{Keeps, keeps_rules}
use openshift_upgrade_accele.Jobs.{PullJob, create_pull_job}
use openshift_upgrade_accele.Schedule.{rounds, is_zero}
use openshift_upgrade_accele.Schedule.Cut.{cut-panic, take_batch_lem}
use openshift_upgrade_accele.Reconcile.Reply.{update_nodes}
use openshift_upgrade_accele.Reconcile.Scheduling.{
  schedule_node, start_warming, visit_next, visit_batch, visit_nodes,
}

contains-drop :
    (n : ℕ) (xs : List String) (x : String) → contains xs x ≡ false → contains (drop n xs) x ≡ false
contains-drop zero xs x h = h
contains-drop (suc n) [] x h = h
contains-drop (suc n) (y ∷ xs) x h = contains-drop n xs x (ground arith)

module _ {W : Type 0} (env : Env W) (namespace : String) where
  ua-create_pull_job : (p : PullJob) (s : State W) → (create_pull_job env p s).1.ua ≡ s.ua
  unfolding create_pull_job
  ua-create_pull_job p s = ground arith

  create_pull_job-Keeps :
      (ua : UpgradeAccelerator) (p : PullJob) → Keeps (λ x. x ≡ ua) (create_pull_job env p)
  create_pull_job-Keeps ua p = record { at = λ s e. ua-create_pull_job p s ∙ e }

  kept :
      (node : String) (ua : UpgradeAccelerator)
      → Keeps (λ x. x ≡ ua) (schedule_node env namespace node)
  unfolding schedule_node
  kept node ua = search (keeps_rules, create_pull_job-Keeps ua) depth 12

  pub ua-schedule_node :
      (node : String) (s : State W) → (schedule_node env namespace node s).1.ua ≡ s.ua
  unfolding schedule_node
  ua-schedule_node node s = (kept node s.ua).at s refl

  -- A node that does not wait is a slice bound -1 once its Job was created.
  visit_next-panic :
      (node : String) (s : State W)
      → contains s.ua.status.nodes_waiting node ≡ false
      → (schedule_node env namespace node s).0 ≡ done true
      → (visit_next env namespace node s).0 ≡ panic
  unfolding visit_next start_warming
  visit_next-panic node s absent created =
      rw (created, ua-schedule_node node s, cut-panic s.ua.status.nodes_waiting node absent) refl

  abbrev pub left_waiting : ℕ → State W → State W
  left_waiting n s = record s {
    ua =
        update_nodes (λ status. record status { nodes_waiting = drop n status.nodes_waiting }) s.ua;
  }

  batch_at :
      (n : ℕ) (s : State W)
      → is_empty s.ua.status.nodes_waiting ≡ false
      → is_zero s.ua.spec.parallelism ≡ false
      → rounds s.ua.spec.parallelism ≡ n
      → ltb (length s.ua.status.nodes_waiting) n ≡ false
      → (visit_batch env namespace (take n s.ua.status.nodes_waiting) (left_waiting n s)).0 ≡ panic
      → (visit_nodes env namespace s).0 ≡ panic
  unfolding visit_nodes
  batch_at n s nonempty batched rounds_n long h =
      rw (nonempty, batched, rounds_n, take_batch_lem n s.ua.status.nodes_waiting, long, h) refl

  short_at :
      (n : ℕ) (s : State W)
      → is_empty s.ua.status.nodes_waiting ≡ false
      → is_zero s.ua.spec.parallelism ≡ false
      → rounds s.ua.spec.parallelism ≡ n
      → ltb (length s.ua.status.nodes_waiting) n ≡ true
      → (visit_nodes env namespace s).0 ≡ panic
  unfolding visit_nodes
  short_at n s nonempty batched rounds_n short =
      rw (nonempty, batched, rounds_n, take_batch_lem n s.ua.status.nodes_waiting, short) refl

  first_at :
      (w : String) (xs names : List String) (s : State W)
      → names ≡ w ∷ xs
      → (visit_next env namespace w s).0 ≡ panic
      → (visit_batch env namespace names s).0 ≡ panic
  unfolding visit_batch
  first_at w xs names s e h = rw (e, visit_batch, h) refl

  -- With a positive `Parallelism`, distinct waiting nodes, and a Job that is created for the first of
  -- them, the loop over the waiting nodes panics: it is either longer than the list, or its body cuts a
  -- node out of the waiting list that has just left it.
  pub visit_nodes-panic :
      (n : ℕ) (w : String) (ws : List String) (s : State W)
      → s.ua.spec.parallelism ≡ pos (suc n)
      → s.ua.status.nodes_waiting ≡ w ∷ ws
      → Distinct (w ∷ ws)
      → (schedule_node env namespace w (left_waiting (suc n) s)).0 ≡ done true
      → (visit_nodes env namespace s).0 ≡ panic
  visit_nodes-panic n w ws s batched waiting d created =
      let nonempty : is_empty s.ua.status.nodes_waiting ≡ false = rw waiting refl in
      let nonzero : is_zero s.ua.spec.parallelism ≡ false = rw batched (ground arith) in
      let suc_n : rounds s.ua.spec.parallelism ≡ suc n = rw batched refl in
      let absent : contains (drop (suc n) s.ua.status.nodes_waiting) w ≡ false =
        rw waiting (contains-drop n ws w d.0) in
      elim (Bool-cases (ltb (length s.ua.status.nodes_waiting) (suc n))) [
        | inl short ↦ short_at (suc n) s nonempty nonzero suc_n short
        | inr long ↦ batch_at (suc n) s nonempty nonzero suc_n long (
            first_at w (take n ws) _ _ (rw waiting refl)
              (visit_next-panic w (left_waiting (suc n) s) absent created))
      ]
