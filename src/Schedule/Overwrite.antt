-- ===== src/Schedule/Overwrite.antt =====
-- internal/controller/upgradeaccelerator_controller.go: an array whose front was overwritten.
use openshift_upgrade_accele.Prelude.{
  ℕ, zero, suc, ◌+◌, ◌≤◌, String, ◌≡◌, refl, true, ◌||◌, some, List, [], ◌∷◌, contains, length,
  length-append, contains-append, drop, get_elem?, arith, eq_iff,
}
use openshift_upgrade_accele.Schedule.{overwrite}
use openshift_upgrade_accele.Schedule.Cut.{without}

pub contains-drop-suc :
    (n : ℕ) (xs : List String) (y : String)
    → contains (drop (suc n) xs) y ≡ true
    → contains (drop n xs) y ≡ true
contains-drop-suc zero [] y h = h
contains-drop-suc zero (x ∷ xs) y h = ground arith
contains-drop-suc (suc n) [] y h = h
contains-drop-suc (suc n) (x ∷ xs) y h = contains-drop-suc n xs y h

pub contains-drop :
    (n : ℕ) (xs : List String) (y : String) → contains (drop n xs) y ≡ true → contains xs y ≡ true
contains-drop zero xs y h = h
contains-drop (suc n) [] y h = h
contains-drop (suc n) (x ∷ xs) y h = ground (arith, contains-drop n xs y h)

drop-nil : (n : ℕ) → drop {A = String} n [] ≡ []
drop-nil zero = refl
drop-nil (suc n) = refl

-- A name at a later position of the overwritten array is in its front or was there before.
pub contains-drop-overwrite :
    (n : ℕ) (front backing : List String) (y : String)
    → contains (drop n (overwrite front backing)) y ≡ true
    → (contains front y || contains (drop n backing) y) ≡ true
unfolding overwrite
contains-drop-overwrite zero front backing y h = ground (
  arith,
  contains-append front (drop (length front) backing) y,
  contains-drop (length front) backing y,
)
contains-drop-overwrite (suc n) [] backing y h = h
contains-drop-overwrite (suc n) (x ∷ front) [] y h =
    ground (arith, contains-drop-overwrite n front [] y, drop-nil n, drop-nil (length front))
contains-drop-overwrite (suc n) (x ∷ front) (z ∷ backing) y h =
    ground (arith, contains-drop-overwrite n front backing y h)

length-drop-le : (n : ℕ) (xs : List String) → n ≤ length xs → length (drop n xs) + n ≡ length xs
length-drop-le zero xs h = omega arith
length-drop-le (suc n) [] h = absurd (omega arith)
length-drop-le (suc n) (x ∷ xs) h = omega (arith, length-drop-le n xs (omega arith))

pub length-overwrite :
    (front backing : List String)
    → length front ≤ length backing
    → length (overwrite front backing) ≡ length backing
unfolding overwrite
length-overwrite front backing h = omega (
  arith,
  length-append front (drop (length front) backing),
  length-drop-le (length front) backing h,
)

pub get_at :
    (n : ℕ) (xs : List String) (left : ℕ)
    → length xs ≡ n + suc left
    → (x : String) × (get_elem? xs n ≡ some x) × (contains (drop n xs) x ≡ true)
get_at n [] left h = absurd (omega arith)
get_at zero (x ∷ xs) left h = (x, refl, ground (arith, eq_iff x x))
get_at (suc n) (x ∷ xs) left h = get_at n xs left (omega arith)

pub length-without-le : (x : String) (xs : List String) → length (without x xs) ≤ length xs
length-without-le x [] = omega arith
length-without-le x (y ∷ ys) = ground (arith, length-without-le x ys)
