-- ===== src/Schedule/Alternate.antt =====
-- internal/controller/upgradeaccelerator_controller.go: the names at every other position, which
-- the loop over the waiting nodes visits when it takes each visited name out of the array that it
-- ranges over.
use openshift_upgrade_accele.Prelude.{
  ℕ, zero, suc, String, ◌≡◌, refl, ap, false, some, List, [], ◌∷◌, ◌++◌, contains, length,
  contains-append, drop, get_elem?, Distinct, arith, eq_iff, eq_refl,
}
use Prim.Native.Nat.{◌-◌, ◌/◌}
use openshift_upgrade_accele.Schedule.{overwrite}
use openshift_upgrade_accele.Schedule.Cut.{without}

-- The names that are visited: those at even positions, and the last one.
abbrev pub visited : List String → List String
visited [] = []
visited (x ∷ []) = x ∷ []
visited (x ∷ y ∷ []) = x ∷ y ∷ []
visited (x ∷ y ∷ z ∷ names) = x ∷ visited (z ∷ names)

-- The others.
abbrev pub passed_over : List String → List String
passed_over [] = []
passed_over (x ∷ []) = []
passed_over (x ∷ y ∷ []) = []
passed_over (x ∷ y ∷ z ∷ names) = y ∷ passed_over (z ∷ names)

abbrev pub last : String → List String → String
last x [] = x
last x (y ∷ ys) = last y ys

abbrev pub copies : ℕ → String → List String
copies zero x = []
copies (suc n) x = x ∷ copies n x

pub get_elem?-append :
    (behind : List String) (x : String) (names : List String)
    → get_elem? (behind ++ (x ∷ names)) (length behind) ≡ some x
get_elem?-append [] x names = refl
get_elem?-append (b ∷ behind) x names = get_elem?-append behind x names

pub without-append :
    (behind : List String) (x : String) (names : List String)
    → contains behind x ≡ false
    → without x (behind ++ (x ∷ names)) ≡ behind ++ names
without-append [] x names h = ground (arith, eq_refl x)
without-append (b ∷ behind) x names h = ground (arith, without-append behind x names)

pub overwrite-append :
    (behind front names : List String)
    → overwrite (behind ++ front) (behind ++ names) ≡ behind ++ overwrite front names
unfolding overwrite
overwrite-append [] front names = refl
overwrite-append (b ∷ behind) front names =
    ap (λ (xs : List String). b ∷ xs) (overwrite-append behind front names)

pub drop-length :
    (x : String) (names rest : List String)
    → drop (length names) (x ∷ (names ++ rest)) ≡ last x names ∷ rest
drop-length x [] rest = refl
drop-length x (y ∷ names) rest = drop-length y names rest

pub Distinct-middle :
    (behind : List String) (x : String) (names : List String)
    → Distinct (behind ++ (x ∷ names))
    → (contains behind x ≡ false) × (contains names x ≡ false) × Distinct (behind ++ names)
Distinct-middle [] x names (h, d) = (refl, h, d)
Distinct-middle (b ∷ behind) x names (h, d) =
    let (p, q, r) = Distinct-middle behind x names d in
    (
      ground (arith, contains-append behind (x ∷ names) b, eq_iff b x, eq_iff x b, p),
      q,
      (ground (arith, contains-append behind (x ∷ names) b, contains-append behind names b), r),
    )

-- Of n names, (n - 1) / 2 are passed over.
pub length-passed_over : (names : List String) → length (passed_over names) ≡ (length names - 1) / 2
length-passed_over [] = omega arith
length-passed_over (x ∷ []) = omega arith
length-passed_over (x ∷ y ∷ []) = omega arith
length-passed_over (x ∷ y ∷ z ∷ names) = omega (arith, length-passed_over (z ∷ names))
