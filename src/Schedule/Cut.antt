-- ===== src/Schedule/Cut.antt =====
-- internal/controller/upgradeaccelerator_controller.go: how a node leaves a list, and the batches.
use openshift_upgrade_accele.Prelude.{
  ℕ, zero, suc, String, ◌≡◌, refl, true, false, not, ◌&&◌, none, some, List, [], ◌∷◌, ◌==◌,
  if◌then◌else◌, contains, index, ltb, length, take, drop, Distinct, arith, eq_iff, Bool-cases, inl,
  inr,
}
use openshift_upgrade_accele.Schedule.{cut, take_batch, unwait_primer}

index-none : (xs : List String) (x : String) → contains xs x ≡ false → index xs x ≡ none
index-none [] x h = refl
index-none (y ∷ xs) x h = ground (arith, index-none xs x)

-- Cutting an absent name is the slice bound -1.
pub cut-panic : (xs : List String) (x : String) → contains xs x ≡ false → cut xs x ≡ none
unfolding cut
cut-panic xs x h = rw (index-none xs x h, cut)

-- The list without the first occurrence of a name.
abbrev pub without : String → List String → List String
without x [] = []
without x (y ∷ ys) = if y == x then ys else y ∷ without x ys

-- Cutting a name that is there takes out its first occurrence.
pub cut-without :
    (xs : List String) (x : String) → contains xs x ≡ true → cut xs x ≡ some (without x xs)
unfolding cut
cut-without [] x h = ground arith
cut-without (y ∷ xs) x h = ground (arith, cut-without xs x)

pub contains-without :
    (x : String) (xs : List String) (y : String)
    → Distinct xs
    → contains (without x xs) y ≡ (contains xs y && not (x == y))
contains-without x [] y d = refl
contains-without x (z ∷ zs) y d =
    ground (arith, contains-without x zs y d.1, eq_iff z x, eq_iff z y, eq_iff x y)

pub without-Distinct : (x : String) (xs : List String) → Distinct xs → Distinct (without x xs)
without-Distinct x [] d = tt
without-Distinct x (z ∷ zs) d =
    ground (arith, without-Distinct x zs d.1, contains-without x zs z d.1)

-- Whatever the list, no other name is lost.
pub contains-without_ne :
    (x : String) (xs : List String) (y : String)
    → x == y ≡ false
    → contains (without x xs) y ≡ contains xs y
contains-without_ne x [] y h = refl
contains-without_ne x (z ∷ zs) y h =
    ground (arith, contains-without_ne x zs y h, eq_iff z x, eq_iff z y, eq_iff x y)

-- If a primer node leaves the waiting list without a panic, then all other nodes stay in it.
pub contains-unwait_primer :
    (waiting : List String) (node : String) {rest : List String} (y : String)
    → unwait_primer waiting node ≡ some rest
    → node == y ≡ false
    → contains rest y ≡ contains waiting y
unfolding unwait_primer
contains-unwait_primer [] node y e h = ground arith
contains-unwait_primer (w ∷ []) node y e h =
    ground (arith, eq_iff w node, eq_iff w y, eq_iff node y)
contains-unwait_primer (w ∷ v ∷ ws) node y e h = elim (Bool-cases (contains (w ∷ v ∷ ws) node)) [
  | inl there ↦
      ground (arith, cut-without (w ∷ v ∷ ws) node there, contains-without_ne node (w ∷ v ∷ ws) y h)
  | inr absent ↦ ground (arith, cut-panic (w ∷ v ∷ ws) node absent)
]

-- The batch is the front of the waiting list if that is long enough, and the code panics if not.
pub take_batch_lem :
    (n : ℕ) (waiting : List String)
    → take_batch n waiting
      ≡ (if ltb (length waiting) n then none else some (take n waiting, drop n waiting))
unfolding take_batch
take_batch_lem zero waiting = ground arith
take_batch_lem (suc n) [] = ground arith
take_batch_lem (suc n) (w ∷ ws) = ground (arith, take_batch_lem n ws)
