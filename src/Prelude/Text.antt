-- ===== src/Prelude/Text.antt =====
-- Go's `strings.ToLower`, as far as a comparison with an ASCII literal can tell.
use Prim.Native.Nat.{ℕ, ◌+◌}
use Prim.Native.Char.{code}
use Prim.Native.String
use Prim.Native.String.{String}
use mathlib.Core.Bool.{Bool, true, false, ◌&&◌}
use mathlib.Core.List.{List, [], ◌∷◌, map}
use openshift_upgrade_accele.Prelude.Tests.{ltb, nat_eq, if◌then◌else◌}

abbrev pub codes : String → List ℕ
codes String.[] = []
codes (String.◌∷◌ c s) = code c ∷ codes s

-- `unicode.ToLower`. Beside A to Z, the code points 0x130 and 0x212a alone have an ASCII letter
-- for their lower case, `i` and `k`. All others are left as they are, here: what they become is
-- not ASCII.
lower_code : ℕ → ℕ
lower_code c =
    if ltb 64 c && ltb c 91
    then c + 32
    else if nat_eq c 0x130
    then 0x69
    else if nat_eq c 0x212a
    then 0x6b
    else c

unfoldable pub lower_codes : String → List ℕ
unfolding lower_code
lower_codes s = map lower_code (codes s)

abbrev pub codes_eq : List ℕ → List ℕ → Bool
codes_eq [] [] = true
codes_eq (a ∷ xs) (b ∷ ys) = nat_eq a b && codes_eq xs ys
codes_eq _ _ = false

-- `strings.ToLower(s) == literal`
unfoldable pub is_lower_case_of : String → String → Bool
unfolding lower_codes
is_lower_case_of literal s = codes_eq (lower_codes s) (codes literal)

-- strings.Join(texts, "")
abbrev pub join : List String → String
join [] = ""
join (text ∷ texts) = String.◌++◌ text (join texts)

-- strings.Join(texts, ", ")
abbrev pub join_commas : List String → String
join_commas [] = ""
join_commas (text ∷ []) = text
join_commas (text ∷ next ∷ texts) = String.◌++◌ text (String.◌++◌ ", " (join_commas (next ∷ texts)))
