-- ===== src/DisplayControl/Variables.antt =====
-- The variables of the decoding loop in closed form, and what its tests say of the wire monitors.
use kheadless_krdp.Prelude.{
  ℕ, suc, ◌+◌, ◌≡◌, ◌↔◌, refl, Bool, true, false, inl, inr, some, List, [], ◌∷◌, ◌++◌, map, arith,
  All, All-map, get_elem?, Bool-cases, if◌then◌else◌,
}
use mathlib.Core.List.{append-nil, append_assoc}
use kheadless_krdp.Prelude.Int.{ℤ, pos, ◌+ℤ◌, ◌-ℤ◌, ◌≤ℤ◌, ltb_ℤ, +ℤ_parts, -ℤ_parts, int_laws}
use kheadless_krdp.Prelude.Bounds.{fold_min, fold_max, fold_max-≤, ≤-fold_min}
use kheadless_krdp.DisplayControl.{
  DispConstants, WireMonitor, Decoding, maximum_desktop_extent, is_primary, decoded_monitor, extend,
}
use kheadless_krdp.DisplayControl.Spec.{primaries}
use kheadless_krdp.DisplayControl.Loop.{extend_all}

module _ (c : DispConstants) where
  pub decoded-extend_all :
      (a : Decoding) (ws : List WireMonitor)
      → (extend_all c a ws).decoded ≡ a.decoded ++ map (decoded_monitor c) ws
  unfolding extend
  decoded-extend_all a [] = rw append-nil
  decoded-extend_all a (w ∷ ws) = rw (decoded-extend_all (extend c a w) ws, append_assoc)

  pub primary_count-extend_all :
      (a : Decoding) (ws : List WireMonitor)
      → (extend_all c a ws).primary_count ≡ a.primary_count + primaries c ws
  unfolding extend
  primary_count-extend_all a [] = omega arith
  primary_count-extend_all a (w ∷ ws) = omega (arith, primary_count-extend_all (extend c a w) ws)

  pub maximum_x-extend_all :
      (a : Decoding) (ws : List WireMonitor)
      → (extend_all c a ws).maximum_x ≡ fold_max (λ w. w.left +ℤ pos w.width) a.maximum_x ws
  unfolding extend
  maximum_x-extend_all a [] = refl
  maximum_x-extend_all a (w ∷ ws) = maximum_x-extend_all (extend c a w) ws

  pub maximum_y-extend_all :
      (a : Decoding) (ws : List WireMonitor)
      → (extend_all c a ws).maximum_y ≡ fold_max (λ w. w.top +ℤ pos w.height) a.maximum_y ws
  unfolding extend
  maximum_y-extend_all a [] = refl
  maximum_y-extend_all a (w ∷ ws) = maximum_y-extend_all (extend c a w) ws

  pub minimum_x-extend_all :
      (a : Decoding) (ws : List WireMonitor)
      → (extend_all c a ws).minimum_x ≡ fold_min (λ w. w.left) a.minimum_x ws
  unfolding extend
  minimum_x-extend_all a [] = refl
  minimum_x-extend_all a (w ∷ ws) = minimum_x-extend_all (extend c a w) ws

  pub minimum_y-extend_all :
      (a : Decoding) (ws : List WireMonitor)
      → (extend_all c a ws).minimum_y ≡ fold_min (λ w. w.top) a.minimum_y ws
  unfolding extend
  minimum_y-extend_all a [] = refl
  minimum_y-extend_all a (w ∷ ws) = minimum_y-extend_all (extend c a w) ws

  rest : (b : Bool) {n : ℕ} → b ≡ false → (if b then 1 else 0) + n ≡ 1 → n ≡ 1
  rest b e h = ground arith

  -- A layout with a primary monitor has one at the origin.
  pub primary_member :
      (ws : List WireMonitor)
      → primaries c ws ≡ 1
      → (i : ℕ) × (p : WireMonitor) × (get_elem? ws i ≡ some p) × (is_primary c p ≡ true)
  primary_member [] h = absurd (omega arith)
  primary_member (w ∷ ws) h = elim (Bool-cases (is_primary c w)) [
    | inl e ↦ (0, w, refl, e)
    | inr e ↦
        let (i, p, at, prim) = primary_member ws (omega (arith, rest (is_primary c w) e h)) in
        (suc i, p, at, prim)
  ]

within_iff :
    (m n : ℤ)
    → (ltb_ℤ (pos maximum_desktop_extent) (n -ℤ m) ≡ false) ↔ (n ≤ℤ m +ℤ pos maximum_desktop_extent)
within_iff m n = ground (arith, -ℤ_parts n m, +ℤ_parts m (pos maximum_desktop_extent))

-- The spread of one coordinate is within the limit exactly when every two edges are.
module _ (low high : WireMonitor → ℤ) (ws : List WireMonitor) (least greatest : ℤ) where
  abbrev pub spread_test : Bool
  spread_test =
      ltb_ℤ (pos maximum_desktop_extent) (fold_max high greatest ws -ℤ fold_min low least ws)

  pub spread→near :
      spread_test ≡ false
      → All (λ v. All (λ w. high v ≤ℤ low w +ℤ pos maximum_desktop_extent) ws) ws
  spread→near h =
      All-map (λ v below. from_all v below) ws ((fold_max-≤ high _ greatest ws).0 bound).1
    where
      bound : fold_max high greatest ws ≤ℤ fold_min low least ws +ℤ pos maximum_desktop_extent
      bound = (within_iff (fold_min low least ws) (fold_max high greatest ws)).0 h

      from_all :
          (v : WireMonitor)
          → high v ≤ℤ fold_min low least ws +ℤ pos maximum_desktop_extent
          → All (λ w. high v ≤ℤ low w +ℤ pos maximum_desktop_extent) ws
      from_all v below =
          All-map (λ w k. omega int_laws) ws
            ((≤-fold_min low (high v -ℤ pos maximum_desktop_extent) least ws).0 (omega int_laws)).1

  pub near→spread :
      pos 0 ≤ℤ least
      → greatest ≤ℤ pos 0
      → All (λ v. high v ≤ℤ pos maximum_desktop_extent) ws
      → All (λ w. pos 0 ≤ℤ low w +ℤ pos maximum_desktop_extent) ws
      → All (λ v. All (λ w. high v ≤ℤ low w +ℤ pos maximum_desktop_extent) ws) ws
      → spread_test ≡ false
  near→spread hl hg highs lows near =
      (within_iff (fold_min low least ws) (fold_max high greatest ws)).1
        ((fold_max-≤ high _ greatest ws).1 (base, above ws highs near))
    where
      base : greatest ≤ℤ fold_min low least ws +ℤ pos maximum_desktop_extent
      base =
          let fact =
            (≤-fold_min low (greatest -ℤ pos maximum_desktop_extent) least ws).1
              (omega int_laws, All-map (λ w k. omega int_laws) ws lows) in
          omega int_laws

      above :
          (vs : List WireMonitor)
          → All (λ v. high v ≤ℤ pos maximum_desktop_extent) vs
          → All (λ v. All (λ w. high v ≤ℤ low w +ℤ pos maximum_desktop_extent) ws) vs
          → All (λ v. high v ≤ℤ fold_min low least ws +ℤ pos maximum_desktop_extent) vs
      above [] a b = tt
      above (v ∷ vs) a b =
          let fact =
            (≤-fold_min low (high v -ℤ pos maximum_desktop_extent) least ws).1
              (omega (int_laws, a.0), All-map (λ w k. omega int_laws) ws b.0) in
          (omega int_laws, above vs a.1 b.1)
