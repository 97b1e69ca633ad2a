-- ===== src/Prelude/Names.antt =====
-- Lists of names: Go's `slices.Contains` and `slices.Index`, and their laws.
use Prim.Native.Nat.{ℕ, zero, suc}
use Prim.Native.String.{String}
use mathlib.Core.Path.{◌≡◌, refl}
use mathlib.Core.Bool.{Bool, false, ◌||◌}
use mathlib.Core.Option.{Option, none, some}
use mathlib.Core.Option
use mathlib.Core.List.{List, [], ◌∷◌, ◌++◌}
use native.Mathlib.Omega.{arith}
use text.Mathlib.Text.{◌==◌}
use text.Mathlib.TextEquality.{eq_iff}
use openshift_upgrade_accele.Prelude.Tests.{if◌then◌else◌}
use openshift_upgrade_accele.Prelude.Lists.{keep}

abbrev pub contains : List String → String → Bool
contains [] x = false
contains (y ∷ ys) x = y == x || contains ys x

-- `none` is Go's -1.
abbrev pub index : List String → String → Option ℕ
index [] x = none
index (y ∷ ys) x = if y == x then some zero else Option.map suc (index ys x)

-- No name occurs twice.
abbrev pub Distinct : List String → Type 0
Distinct [] = Unit {0}
Distinct (x ∷ xs) = (contains xs x ≡ false) × Distinct xs

pub contains-append :
    (xs ys : List String) (x : String) → contains (xs ++ ys) x ≡ (contains xs x || contains ys x)
contains-append [] ys x = refl
contains-append (y ∷ xs) ys x = ground (arith, contains-append xs ys x)

pub contains-keep :
    (p : String → Bool) (xs : List String) (x : String)
    → contains (keep p xs) x ≡ (if p x then contains xs x else false)
contains-keep p [] x = ground arith
contains-keep p (y ∷ xs) x = ground (arith, contains-keep p xs x, eq_iff y x)
