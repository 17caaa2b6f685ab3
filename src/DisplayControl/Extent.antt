-- ===== src/DisplayControl/Extent.antt =====
-- The test of the combined desktop, against the distances between any two edges.
use kheadless_krdp.Prelude.{
  ℕ, ◌≡◌, ◌↔◌, ap, Bool, false, ◌||◌, List, [], ◌∷◌, arith, All, All-map, All-get,
}
use kheadless_krdp.Prelude.Int.{ℤ, pos, ◌+ℤ◌, ◌≤ℤ◌, pos_part, neg_part, int_laws}
use kheadless_krdp.DisplayControl.{
  DispConstants, WireMonitor, maximum_desktop_extent, start, desktop_too_large_test,
}
use kheadless_krdp.DisplayControl.Spec.{Fits, IsNear, IsAtOrigin, primaries}
use kheadless_krdp.DisplayControl.Loop.{extend_all}
use kheadless_krdp.DisplayControl.Variables.{
  maximum_x-extend_all, maximum_y-extend_all, minimum_x-extend_all, minimum_y-extend_all,
  primary_member, spread→near, near→spread, spread_test,
}

All-zip :
    {A : Type 0} (P Q : A → Type 0) (xs : List A) → All P xs → All Q xs → All (λ x. P x × Q x) xs
All-zip P Q [] p q = tt
All-zip P Q (x ∷ xs) p q = ((p.0, q.0), All-zip P Q xs p.1 q.1)

right_of_origin :
    (a l : ℤ) → l ≡ pos 0 → a ≤ℤ l +ℤ pos maximum_desktop_extent → a ≤ℤ pos maximum_desktop_extent
right_of_origin a l e h = omega (int_laws, ap pos_part e, ap neg_part e)

left_of_origin : (l m : ℤ) (w : ℕ) → l ≡ pos 0 → l +ℤ pos w ≤ℤ m → pos 0 ≤ℤ m
left_of_origin l m w e h = omega (int_laws, ap pos_part e, ap neg_part e)

module _ (c : DispConstants) (ws : List WireMonitor) where
  abbrev spread_x : Bool
  spread_x =
      spread_test (λ w. w.left) (λ w. w.left +ℤ pos w.width) ws start.minimum_x start.maximum_x

  abbrev spread_y : Bool
  spread_y =
      spread_test (λ w. w.top) (λ w. w.top +ℤ pos w.height) ws start.minimum_y start.maximum_y

  test-spreads : desktop_too_large_test (extend_all c start ws) ≡ (spread_x || spread_y)
  unfolding desktop_too_large_test
  test-spreads = rw (
    maximum_x-extend_all c start ws,
    maximum_y-extend_all c start ws,
    minimum_x-extend_all c start ws,
    minimum_y-extend_all c start ws,
  )

  test→Fits : desktop_too_large_test (extend_all c start ws) ≡ false → Fits ws
  test→Fits h =
      All-map (λ v near. All-zip _ _ ws near.0 near.1) ws
        (All-zip _ _ ws (spread→near _ _ ws _ _ (in_x h)) (spread→near _ _ ws _ _ (in_y h)))
    where
      in_x : desktop_too_large_test (extend_all c start ws) ≡ false → spread_x ≡ false
      in_x t = ground (arith, test-spreads)

      in_y : desktop_too_large_test (extend_all c start ws) ≡ false → spread_y ≡ false
      in_y t = ground (arith, test-spreads)

  Fits→test :
      All (IsAtOrigin c) ws
      → primaries c ws ≡ 1
      → Fits ws
      → desktop_too_large_test (extend_all c start ws) ≡ false
  unfolding start
  Fits→test origins one fits =
      let (i, p, at, prim) = primary_member c ws one in
      let (left0, top0) = All-get (IsAtOrigin c) ws i origins at prim in
      let from_p = All-get (λ v. All (λ w. IsNear v w) ws) ws i fits at in
      let to_p =
        All-map {Q = λ v. IsNear v p} (λ v near. All-get (λ w. IsNear v w) ws i near at) ws fits in
      let x : spread_x ≡ false =
        near→spread _ _ ws _ _ (omega arith) (omega arith)
          (All-map (λ v k. right_of_origin _ p.left left0 k.0) ws to_p)
          (All-map (λ w k. left_of_origin p.left _ p.width left0 k.0) ws from_p)
          (All-map (λ v near. All-map (λ w k. k.0) ws near) ws fits) in
      let y : spread_y ≡ false =
        near→spread _ _ ws _ _ (omega arith) (omega arith)
          (All-map (λ v k. right_of_origin _ p.top top0 k.1) ws to_p)
          (All-map (λ w k. left_of_origin p.top _ p.height top0 k.1) ws from_p)
          (All-map (λ v near. All-map (λ w k. k.1) ws near) ws fits) in
      ground (arith, test-spreads)

  -- With a primary monitor at the origin the running bounds decide the limit on all pairs.
  pub extent_iff :
      All (IsAtOrigin c) ws
      → primaries c ws ≡ 1
      → (desktop_too_large_test (extend_all c start ws) ≡ false) ↔ Fits ws
  extent_iff origins one = (test→Fits, Fits→test origins one)
