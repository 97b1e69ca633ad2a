-- ===== src/Sorting.antt =====
-- internal/controller/upgradeaccelerator_func.go: the order of names that ignores case.
use openshift_upgrade_accele.Prelude.{
  ℕ, String, Bool, true, false, List, [], ◌∷◌, map, codes, ltb, if◌then◌else◌,
}
use openshift_upgrade_accele.Cluster.{Env}

-- Go's `<` on texts: the order of UTF-8 is that of the code points.
unfoldable pub codes_lt : List ℕ → List ℕ → Bool
codes_lt [] [] = false
codes_lt [] (b ∷ ys) = true
codes_lt (a ∷ xs) [] = false
codes_lt (a ∷ xs) (b ∷ ys) = if ltb a b then true else if ltb b a then false else codes_lt xs ys

module _ (to_upper : ℕ → ℕ) where
  unfoldable pub less : String → String → Bool
  unfolding codes_lt
  less d e = codes_lt (map to_upper (codes d)) (map to_upper (codes e))

abbrev pub sort_slice_of_strings : {W : Type 0} → Env W → List String → List String
sort_slice_of_strings env = env.sort (less env.to_upper)
