-- ===== src/Schedule/Waiting.antt =====
-- internal/controller/upgradeaccelerator_controller.go: the loop that fills the waiting list.
use openshift_upgrade_accele.Prelude.{
  String, ◌≡◌, refl, Bool, false, not, ◌&&◌, ◌||◌, List, [], ◌∷◌, ◌++◌, contains, contains-append,
  Distinct, arith, eq_iff,
}
use openshift_upgrade_accele.Schedule.{fill_waiting}

-- A name that the warming and the preheated nodes lack.
abbrev pub is_new : (warming preheated : List String) → String → Bool
is_new warming preheated x = not (contains warming x) && not (contains preheated x)

Distinct-snoc :
    (xs : List String) (x : String)
    → Distinct xs
    → contains xs x ≡ false
    → Distinct (xs ++ (x ∷ []))
Distinct-snoc [] x d h = ground arith
Distinct-snoc (y ∷ xs) x d h =
    ground (arith, Distinct-snoc xs x d.1, contains-append xs (x ∷ []) y, eq_iff x y, eq_iff y x)

module _ (warming preheated : List String) where
  -- After the waiting list is filled, it has exactly the nodes that waited and the targeted nodes
  -- that neither warm nor are preheated.
  pub contains-fill_waiting :
      (waiting targeted : List String) (x : String)
      → contains (fill_waiting warming preheated waiting targeted).0 x
        ≡ (contains waiting x || (contains targeted x && is_new warming preheated x))
  unfolding fill_waiting
  contains-fill_waiting waiting [] x = ground arith
  contains-fill_waiting waiting (t ∷ ts) x = ground (
    arith,
    contains-fill_waiting waiting ts x,
    contains-fill_waiting (waiting ++ (t ∷ [])) ts x,
    contains-append waiting (t ∷ []) x,
    eq_iff t x,
  )

  -- The flag says whether the list was changed.
  pub fill_waiting-unchanged :
      (waiting targeted : List String)
      → (fill_waiting warming preheated waiting targeted).1 ≡ false
      → (fill_waiting warming preheated waiting targeted).0 ≡ waiting
  unfolding fill_waiting
  fill_waiting-unchanged waiting [] h = refl
  fill_waiting-unchanged waiting (t ∷ ts) h =
      ground
        (arith, fill_waiting-unchanged waiting ts, fill_waiting-unchanged (waiting ++ (t ∷ [])) ts)

  -- Filling a waiting list whose names are distinct leaves them distinct.
  pub fill_waiting-Distinct :
      (waiting targeted : List String)
      → Distinct waiting
      → Distinct (fill_waiting warming preheated waiting targeted).0
  unfolding fill_waiting
  fill_waiting-Distinct waiting [] d = d
  fill_waiting-Distinct waiting (t ∷ ts) d = ground (
    arith,
    fill_waiting-Distinct waiting ts d,
    Distinct-snoc waiting t d,
    fill_waiting-Distinct (waiting ++ (t ∷ [])) ts,
  )
