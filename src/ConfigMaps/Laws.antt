-- ===== src/ConfigMaps/Laws.antt =====
-- internal/controller/upgradeaccelerator_configmap.go: that the ConfigMaps are stored.
use openshift_upgrade_accele.Prelude.{
  String, ◌≡◌, refl, true, false, List, [], arith, eq_refl, Bool-cases, inl, inr,
}
use openshift_upgrade_accele.Cluster.{Env, ConfigMap, NamespacedName}
use openshift_upgrade_accele.Exec.{Result, State, ok, err, done}
use openshift_upgrade_accele.ConfigMaps.{
  deep_equal, create_or_update, script_config_map, default_puller_script,
  create_puller_script_config_map, entries_of, is_not_found,
}

abbrev pub key_of : ConfigMap → NamespacedName
key_of m = record { namespace = m.namespace; name = m.name }

-- What the client documents of ConfigMaps: a read changes nothing, and one that was created or
-- updated is found.
pub record ConfigMapClient {W : Type 0} (env : Env W) : Type 0 where
  pub reads : (req : NamespacedName) (w : W) → (env.get_config_map req w).1 ≡ w
  pub created :
      (m : ConfigMap) (w : W)
      → (env.create_config_map m w).0 ≡ ok tt
      → (env.get_config_map (key_of m) (env.create_config_map m w).1).0 ≡ ok m
  pub updated :
      (m : ConfigMap) (w : W)
      → (env.update_config_map m w).0 ≡ ok tt
      → (env.get_config_map (key_of m) (env.update_config_map m w).1).0 ≡ ok m

-- A ConfigMap of that name is there, with the same data.
abbrev pub IsStored : {W : Type 0} → Env W → ConfigMap → W → Type 0
IsStored env m w =
    (found : ConfigMap) × ((env.get_config_map (key_of m) w).0 ≡ ok found)
    × (deep_equal found.entries m.entries ≡ true)

found_of :
    (r : Result ConfigMap) (entries : List (String × String))
    → is_not_found r ≡ false
    → deep_equal (entries_of r) entries ≡ true
    → deep_equal [] entries ≡ false
    → (m : ConfigMap) × (r ≡ ok m)
found_of (ok m) entries there equal some_entries = (m, refl)
found_of (err e) entries there equal some_entries = cc

module _ {W : Type 0} (env : Env W) (client : ConfigMapClient env) where
  create_or_update-IsStored :
      (m : ConfigMap) (s : State W)
      → deep_equal m.entries m.entries ≡ true
      → deep_equal [] m.entries ≡ false
      → (create_or_update env m s).0 ≡ done tt
      → IsStored env m (create_or_update env m s).1.world
  unfolding create_or_update
  create_or_update-IsStored m s same some_entries h =
      let key = key_of m in
      let (found, w) = env.get_config_map key s.world in
      elim (Bool-cases (is_not_found found)) [
        | inl absent ↦ (m, ground (arith, client.created m w), same)
        | inr there ↦ elim (Bool-cases (deep_equal (entries_of found) m.entries)) [
          | inl equal ↦
              let (m', e) = found_of found m.entries there equal some_entries in
              (m', ground (arith, client.reads key s.world, e), ground (arith, e))
          | inr differs ↦ (m, ground (arith, client.updated m w), same)
        ]
      ]

  -- Where the client finds what it stored: if the ConfigMap of the puller script is created or
  -- updated without an error, then it is there, with the script.
  pub create_puller_script_config_map-IsStored :
      (s : State W)
      → (create_puller_script_config_map env s).0 ≡ done tt
      → IsStored env (script_config_map env s.ua) (create_puller_script_config_map env s).1.world
  unfolding create_puller_script_config_map script_config_map deep_equal
  create_puller_script_config_map-IsStored s =
      create_or_update-IsStored (script_config_map env s.ua) s
        (ground (arith, eq_refl default_puller_script)) (ground arith)
