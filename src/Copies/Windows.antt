-- ===== src/Copies/Windows.antt =====
-- The elements of slices as the copying loops write and read them.
use openshift_upgrade_accele.Prelude.{
  ℕ, zero, suc, ◌+◌, ◌≡◌, refl, ap, ◌∙◌, List, [], ◌∷◌, ◌++◌, length, arith,
}
use openshift_upgrade_accele.Copies.Copying.{replicate, get_or, set_elem, window, copy_over}

module _ {T : Type 0} where
  pub length-window : (z : T) (xs : List T) (offset i n : ℕ) → length (window z xs offset i n) ≡ n
  length-window z xs offset i zero = refl
  length-window z xs offset i (suc n) = ap suc (length-window z xs offset (suc i) n)

  pub length-replicate : (n : ℕ) (z : T) → length (replicate n z) ≡ n
  length-replicate zero z = refl
  length-replicate (suc n) z = ap suc (length-replicate n z)

  pub copy_over-replicate : (xs : List T) (z : T) → copy_over xs (replicate (length xs) z) ≡ xs
  copy_over-replicate [] z = refl
  copy_over-replicate (x ∷ xs) z = ap (λ (ys : List T). x ∷ ys) (copy_over-replicate xs z)

  window-suc : (z x : T) (xs : List T) (i n : ℕ) → window z (x ∷ xs) 0 (suc i) n ≡ window z xs 0 i n
  window-suc z x xs i zero = refl
  window-suc z x xs i (suc n) =
      let e : 0 + suc i ≡ suc (0 + i) = omega arith in
      rw e (ap (λ (ys : List T). get_or z xs (0 + i) ∷ ys) (window-suc z x xs (suc i) n))

  pub window-whole : (z : T) (xs : List T) → window z xs 0 0 (length xs) ≡ xs
  window-whole z [] = refl
  window-whole z (x ∷ xs) =
      ap (λ (ys : List T). x ∷ ys) (window-suc z x xs 0 (length xs) ∙ window-whole z xs)

  pub set_elem-append :
      (done : List T) (x y : T) (rest : List T)
      → set_elem (done ++ (x ∷ rest)) (length done) y ≡ (done ++ (y ∷ [])) ++ rest
  set_elem-append [] x y rest = refl
  set_elem-append (z ∷ done) x y rest = ap (λ (ys : List T). z ∷ ys) (set_elem-append done x y rest)
