-- ===== src/Entry/Slices.antt =====
-- cmd/main.go: the slices of TLS options as Go has them, which share an array until an `append`
-- finds it full.
use openshift_upgrade_accele.Prelude.{
  ℕ, zero, suc, List, [], ◌∷◌, ◌++◌, if◌then◌else◌, take, drop, length, ltb,
}

-- The arrays that were allocated, each with the elements that were written to it.
abbrev pub Memory : Type 0 → Type 0
Memory A = List (List A)

pub record Slice : Type 0 where
  pub array : ℕ
  pub len : ℕ
  pub capacity : ℕ

-- `var s []T`
abbrev pub nil_slice : Slice
nil_slice = record { array = 0; len = 0; capacity = 0 }

module _ {A : Type 0} where
  abbrev array_at : Memory A → ℕ → List A
  array_at [] n = []
  array_at (xs ∷ memory) zero = xs
  array_at (xs ∷ memory) (suc n) = array_at memory n

  abbrev set_array : Memory A → ℕ → List A → Memory A
  set_array [] n xs = []
  set_array (ys ∷ memory) zero xs = xs ∷ memory
  set_array (ys ∷ memory) (suc n) xs = ys ∷ set_array memory n xs

  abbrev pub read : Memory A → Slice → List A
  read memory s = take s.len (array_at memory s.array)

  -- `append(s, x)`: `grow` is the capacity that the runtime picks, from the old one and the new length.
  abbrev pub append : (ℕ → ℕ → ℕ) → Memory A → Slice → A → Memory A × Slice
  append grow memory s x =
      let old = array_at memory s.array in
      if ltb s.len s.capacity
      then (
        set_array memory s.array (take s.len old ++ (x ∷ drop (suc s.len) old)),
        record s { len = suc s.len },
      )
      else (
        memory ++ ((take s.len old ++ (x ∷ [])) ∷ []),
        record { array = length memory; len = suc s.len; capacity = grow s.capacity (suc s.len) },
      )
