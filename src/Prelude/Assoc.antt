-- ===== src/Prelude/Assoc.antt =====
-- QHash<uint32_t, V> as an association list with one entry for each key.
use kheadless_krdp.Prelude.{
  ℕ, ◌≡◌, Bool, false, ◌||◌, Option, none, some, List, [], ◌∷◌, ◌==◌, arith, if◌then◌else◌,
}

module _ {ℓ} {V : Type ℓ} where
  abbrev pub contains : ℕ → List (ℕ × V) → Bool
  contains k [] = false
  contains k ((j, v) ∷ m) = j == k || contains k m

  abbrev pub lookup : ℕ → List (ℕ × V) → Option V
  lookup k [] = none
  lookup k ((j, v) ∷ m) = if j == k then some v else lookup k m

  abbrev pub remove : ℕ → List (ℕ × V) → List (ℕ × V)
  remove k [] = []
  remove k ((j, v) ∷ m) = let rest = remove k m in if j == k then rest else (j, v) ∷ rest

  -- A key that is there has its value replaced.
  abbrev pub insert : ℕ → V → List (ℕ × V) → List (ℕ × V)
  insert k v m = (k, v) ∷ remove k m

  pub lookup-remove :
      (k j : ℕ) (m : List (ℕ × V)) → lookup j (remove k m) ≡ (if k == j then none else lookup j m)
  lookup-remove k j [] = ground arith
  lookup-remove k j ((i, v) ∷ m) = ground (arith, lookup-remove k j m)
