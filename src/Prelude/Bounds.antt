-- ===== src/Prelude/Bounds.antt =====
-- Running minima and maxima of a loop: their universal properties.
use kheadless_krdp.Prelude.{◌↔◌, List, [], ◌∷◌, All, arith}
use kheadless_krdp.Prelude.Int.{ℤ, ◌≤ℤ◌, min_ℤ, max_ℤ}

module _ {ℓ} {A : Type ℓ} (key : A → ℤ) where
  abbrev pub fold_max : ℤ → List A → ℤ
  fold_max m [] = m
  fold_max m (x ∷ xs) = fold_max (max_ℤ m (key x)) xs

  abbrev pub fold_min : ℤ → List A → ℤ
  fold_min m [] = m
  fold_min m (x ∷ xs) = fold_min (min_ℤ m (key x)) xs

  pub fold_max-≤ :
      (b m : ℤ) (xs : List A) → (fold_max m xs ≤ℤ b) ↔ ((m ≤ℤ b) × All (λ x. key x ≤ℤ b) xs)
  unfolding max_ℤ
  fold_max-≤ b m [] = (λ h. (h, tt), λ h. h.0)
  fold_max-≤ b m (x ∷ xs) = ground (arith, fold_max-≤ b (max_ℤ m (key x)) xs)

  pub ≤-fold_min :
      (b m : ℤ) (xs : List A) → (b ≤ℤ fold_min m xs) ↔ ((b ≤ℤ m) × All (λ x. b ≤ℤ key x) xs)
  unfolding min_ℤ
  ≤-fold_min b m [] = (λ h. (h, tt), λ h. h.0)
  ≤-fold_min b m (x ∷ xs) = ground (arith, ≤-fold_min b (min_ℤ m (key x)) xs)
