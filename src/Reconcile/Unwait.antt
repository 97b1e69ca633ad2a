-- ===== src/Reconcile/Unwait.antt =====
-- internal/controller/upgradeaccelerator_controller.go: when the body of the loop over the primer nodes
-- panics.
use openshift_upgrade_accele.Prelude.{
  String, ◌≡◌, ◌↔◌, ◌<◌, Bool, true, false, not, ◌&&◌, none, some, List, [], ◌∷◌, contains, length,
  ltb, Bool-cases, sym, ap, ◌∙◌, refl, ◌≢◌, ◌==◌, Option, arith, Option-cases, inl, inr,
}
use openshift_upgrade_accele.Api.{UpgradeAccelerator}
use openshift_upgrade_accele.Cluster.{Env}
use openshift_upgrade_accele.Exec.{State, Outcome, done, fail, panic, and_then, pure}
use openshift_upgrade_accele.Schedule.{unwait_primer}
use openshift_upgrade_accele.Schedule.Cut.{without, cut-panic, cut-without}
use openshift_upgrade_accele.Conditions.{status_update}
use openshift_upgrade_accele.Reconcile.Reply.{Reply, save}
use openshift_upgrade_accele.Reconcile.Scheduling.{schedule_node, start_warming, visit_primer}
use openshift_upgrade_accele.Reconcile.Panic.{ua-schedule_node}

-- `slices.Index` of an absent name is a slice bound where two nodes or more wait.
abbrev pub is_lost : List String → String → Bool
is_lost waiting node = ltb 1 (length waiting) && not (contains waiting node)

unwait_lost :
    (waiting : List String) (node : String)
    → is_lost waiting node ≡ true
    → unwait_primer waiting node ≡ none
unfolding unwait_primer
unwait_lost [] node h = cc
unwait_lost (w ∷ []) node h = cc
unwait_lost (w ∷ v ∷ ws) node h = ground (arith, cut-panic (w ∷ v ∷ ws) node)

unwait_kept :
    (waiting : List String) (node : String)
    → is_lost waiting node ≡ false
    → (rest : List String) × (unwait_primer waiting node ≡ some rest)
unfolding unwait_primer
unwait_kept [] node h = ([], ground arith)
unwait_kept (w ∷ []) node h = elim (Bool-cases (w == node)) [
  | inl same ↦ ([], ground arith)
  | inr other ↦ (w ∷ [], ground arith)
]
unwait_kept (w ∷ v ∷ ws) node h =
    (without node (w ∷ v ∷ ws), ground (arith, cut-without (w ∷ v ∷ ws) node))

ended_iff :
    {W : Type 0} (o : Outcome Reply (Unit {0})) (s : State W)
    → ((and_then o (λ _. pure true) s).0 ≡ panic) ↔ (o ≡ panic)
ended_iff (done a) s = (λ h. cc, λ h. cc)
ended_iff (fail e) s = (λ h. cc, λ h. cc)
ended_iff panic s = (λ h. refl, λ h. refl)

module _ {W : Type 0} (env : Env W) (namespace : String) where
  save-ne_panic : (s : State W) → (save env s).0 ≢ panic
  unfolding save status_update
  save-ne_panic s = ground arith

  start_at :
      (unwait : List String → Option (List String)) (node : String) (s : State W)
      → ((start_warming env namespace unwait node s).0 ≡ panic)
        ↔ (unwait s.ua.status.nodes_waiting ≡ none)
  unfolding start_warming
  start_at unwait node s = elim (Option-cases (unwait s.ua.status.nodes_waiting)) [
    | inl e ↦ rw e (λ h. refl, λ h. refl)
    | inr (rest, e) ↦ rw e (λ h. absurd (save-ne_panic _ h), λ h. cc)
  ]

  -- Where the Job of a primer node is created, the body of the loop over the primer nodes panics
  -- exactly if two nodes or more wait and the primer node is none of them.
  pub visit_primer-panic_iff :
      (node : String) (s : State W)
      → (schedule_node env namespace node s).0 ≡ done true
      → ((visit_primer env namespace node s).0 ≡ panic) ↔ (
          (1 < length s.ua.status.nodes_waiting)
          × (contains s.ua.status.nodes_waiting node ≡ false))
  unfolding visit_primer
  visit_primer-panic_iff node s created =
      let waiting = s.ua.status.nodes_waiting in
      let unwait = λ (names : List String). unwait_primer names node in
      let s' = (schedule_node env namespace node s).1 in
      let same : unwait s'.ua.status.nodes_waiting ≡ unwait waiting =
        ap (λ (ua : UpgradeAccelerator). unwait ua.status.nodes_waiting)
          (ua-schedule_node env namespace node s) in
      elim (Bool-cases (is_lost waiting node)) [
        | inl lost ↦ (
          λ h. ground arith,
          λ h. rw created (
              (ended_iff _ _).1
                ((start_at unwait node s').1 (same ∙ unwait_lost waiting node lost))),
        )
        | inr kept ↦
            let (rest, e) = unwait_kept waiting node kept in
            (
              λ h.
                  let here = rw created at h in
                  let lost = (start_at unwait node s').0 ((ended_iff _ _).0 here) in
                  let wrong : none ≡ some rest = sym lost ∙ same ∙ e in absurd (cc),
              λ h. ground arith,
            )
      ]
