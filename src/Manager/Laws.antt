-- ===== src/Manager/Laws.antt =====
-- internal/controller/upgradeaccelerator_manager.go: which updates reach the controller.
use openshift_upgrade_accele.Prelude.{
  ◌≡◌, ◌≢◌, ◌↔◌, sym, ◌∙◌, Bool, not, ◌&&◌, some, none, true, arith, eq_iff, nat_eq,
}
use openshift_upgrade_accele.Versions.{
  operator_version, has_cluster_version_changed, has_machine_config_cluster_operator_changed,
}
use openshift_upgrade_accele.Manager.{
  cluster_version, cluster_operator, other, Object, ObjectKind, update, passes,
}

-- What is news in an update of an object of the same kind.
abbrev pub IsNews : (old new : ObjectKind) → Type 0
IsNews (cluster_version o) (cluster_version n) = o.desired_version ≢ n.desired_version
IsNews (cluster_operator o) (cluster_operator n) =
    (o.name ≡ "machine-config")
    × (operator_version o.versions ≢ "")
    × (operator_version n.versions ≢ "")
    × (operator_version o.versions ≢ operator_version n.versions)
IsNews _ other = Unit
IsNews _ _ = ⊥

-- What the two filters on versions say of kinds.
abbrev relevant : (old new : ObjectKind) → Bool
relevant old new = elim new [
  | cluster_version v ↦
      has_cluster_version_changed (elim old [ cluster_version v' ↦ some v' | _ ↦ none ]) (some v)
  | cluster_operator c ↦
      has_machine_config_cluster_operator_changed
        (elim old [ cluster_operator c' ↦ some c' | _ ↦ none ]) (some c)
  | other ↦ true
]

relevant_iff : (old new : ObjectKind) → (relevant old new ≡ true) ↔ IsNews old new
unfolding has_cluster_version_changed has_machine_config_cluster_operator_changed
relevant_iff (cluster_version o) (cluster_version n) =
    ground (arith, eq_iff o.desired_version n.desired_version)
relevant_iff (cluster_operator o) (cluster_operator n) = ground (
  arith,
  eq_iff o.name "machine-config",
  eq_iff (operator_version o.versions) "",
  eq_iff (operator_version n.versions) "",
  eq_iff (operator_version o.versions) (operator_version n.versions),
)
relevant_iff (cluster_version o) other = ground arith
relevant_iff (cluster_operator o) other = ground arith
relevant_iff other other = ground arith
relevant_iff (cluster_operator o) (cluster_version n) = ground arith
relevant_iff other (cluster_version n) = ground arith
relevant_iff (cluster_version o) (cluster_operator n) = ground arith
relevant_iff other (cluster_operator n) = ground arith

passes_at :
    (old new : Object)
    → passes (update old new)
      ≡ (relevant old.kind new.kind && not (nat_eq old.generation new.generation))
unfolding passes
passes_at old new = ground arith

-- Of the updates, exactly those reach the controller that change the generation and bring news of
-- their kind: another desired version of a ClusterVersion; a change from one version to another of
-- the ClusterOperator machine-config; of any other kind, whatever they bring. What only the status
-- of a ClusterVersion or a ClusterOperator says is therefore not enough, although the versions are
-- part of the status.
pub passes-update_iff :
    (old new : Object)
    → (passes (update old new) ≡ true)
      ↔ (IsNews old.kind new.kind × (old.generation ≢ new.generation))
passes-update_iff old new =
    let news = relevant_iff old.kind new.kind in
    (
      λ h.
          let both = sym (passes_at old new) ∙ h in
          (news.0 (ground (arith, both)), ground (arith, both)),
      λ h. passes_at old new ∙ ground (arith, news.1 h.0, h.1),
    )
