-- ===== src/DisplayControl/Disjoint.antt =====
-- An accepted layout has no pixel in two monitors. QRect::intersects is a parameter; what Qt
-- documents of it holds for rectangles whose edges are values of `int`.
use kheadless_krdp.Prelude.{
  ℕ, zero, suc, ◌<◌, ◌≡◌, ◌≢◌, ◌↔◌, ap, Bool, true, false, ◌⊎◌, inl, inr, none, some, List, [], ◌∷◌,
  arith, All, All-get, get_elem?, subst,
}
use kheadless_krdp.Prelude.Int.{ℤ, pos, negsuc, ◌+ℤ◌, ◌≤ℤ◌, pos_part, neg_part, int_laws}
use kheadless_krdp.Geometry.{Point, Rect, Covers}
use kheadless_krdp.Monitor.{DisplayMonitor}
use kheadless_krdp.DisplayControl.{
  DispConstants, WireMonitor, LayoutPdu, wire_rect, decoded_monitor, decode_monitor_layout,
}
use kheadless_krdp.DisplayControl.Spec.{AreSeparate, IsNear, IsAtOrigin, IsValidLayout}
use kheadless_krdp.DisplayControl.Variables.{primary_member}
use kheadless_krdp.DisplayControl.Neighbours.{get_elem?-map}
use kheadless_krdp.DisplayControl.Decoder.{decode_monitor_layout_iff}
use kheadless_krdp.DisplayControl.Regions.{IsCommon}

abbrev pub IsInt : Rect → Type 0
IsInt r =
    (negsuc 2147483647 ≤ℤ r.position.x)
    × (r.position.x +ℤ r.size.width ≤ℤ pos 2147483648)
    × (negsuc 2147483647 ≤ℤ r.position.y)
    × (r.position.y +ℤ r.size.height ≤ℤ pos 2147483648)

-- "There is at least one pixel that is within both rectangles."
abbrev pub Intersects : (Rect → Rect → Bool) → Type 0
Intersects intersects =
    (r s : Rect)
    → IsInt r
    → IsInt s
    → (intersects r s ≡ true) ↔ ((p : Point) × Covers r p × Covers s p)

separate_at :
    (intersects : Rect → Rect → Bool) (ws : List WireMonitor) (i j : ℕ) {v w : WireMonitor}
    → AreSeparate intersects ws
    → get_elem? ws i ≡ some v
    → get_elem? ws j ≡ some w
    → i < j
    → intersects (wire_rect w) (wire_rect v) ≡ false
separate_at intersects [] i j h a b lt = cc
separate_at intersects (x ∷ ws) i zero h a b lt = absurd (omega arith)
separate_at intersects (x ∷ ws) zero (suc j) {v} {w} h a b lt =
    let e : x ≡ v = cc in
    subst (λ y. intersects (wire_rect w) (wire_rect y) ≡ false) e
      (All-get (λ y. intersects (wire_rect y) (wire_rect x) ≡ false) ws j h.0 b)
separate_at intersects (x ∷ ws) (suc i) (suc j) h a b lt =
    separate_at intersects ws i j h.1 a b (omega arith)

axis_bounds :
    (l right m other : ℤ) (w : ℕ)
    → m ≡ pos 0
    → right ≤ℤ m +ℤ pos 32766
    → m +ℤ pos w ≤ℤ l +ℤ pos 32766
    → (negsuc 2147483647 ≤ℤ l) × (right ≤ℤ pos 2147483648)
axis_bounds l right m other w e h k = omega (int_laws, ap pos_part e, ap neg_part e)

module _ (c : DispConstants) (intersects : Rect → Rect → Bool) where
  valid-IsInt :
      (ws : List WireMonitor) (i : ℕ) {w : WireMonitor}
      → IsValidLayout c intersects ws
      → get_elem? ws i ≡ some w
      → IsInt (wire_rect w)
  valid-IsInt ws i {w} valid at =
      let (k, p, at', prim) = primary_member c ws valid.one_primary in
      let (left0, top0) = All-get (IsAtOrigin c) ws k valid.at_origin at' prim in
      let near = All-get (λ v. All (λ u. IsNear v u) ws) ws i valid.fits at in
      let from_p = All-get (λ v. All (λ u. IsNear v u) ws) ws k valid.fits at' in
      let w→p = All-get (λ u. IsNear w u) ws k near at' in
      let p→w = All-get (λ u. IsNear p u) ws i from_p at in
      let x = axis_bounds w.left _ p.left p.left p.width left0 w→p.0 p→w.0 in
      let y = axis_bounds w.top _ p.top p.top p.height top0 w→p.1 p→w.1 in (x.0, x.1, y.0, y.1)

  -- Two rectangles that the decoder took for separate have no common pixel.
  no_pixel :
      (r s : Rect)
      → Intersects intersects
      → IsInt r
      → IsInt s
      → intersects r s ≡ false
      → ¬ ((p : Point) × Covers r p × Covers s p)
  no_pixel r s law ir is h common = let t : intersects r s ≡ true = (law r s ir is).1 common in cc

  valid_disjoint :
      (ws : List WireMonitor) (i j : ℕ) {v w : WireMonitor}
      → Intersects intersects
      → IsValidLayout c intersects ws
      → get_elem? ws i ≡ some v
      → get_elem? ws j ≡ some w
      → i < j
      → ¬ ((p : Point) × Covers (wire_rect w) p × Covers (wire_rect v) p)
  valid_disjoint ws i j law valid a b lt =
      no_pixel _ _ law (valid-IsInt ws j valid b) (valid-IsInt ws i valid a)
        (separate_at intersects ws i j valid.separate a b lt)

  -- If QRect::intersects does what Qt documents, no pixel lies in two monitors of a layout that the
  -- decoder accepts.
  pub accepted_disjoint :
      (law : Intersects intersects) (pdu : LayoutPdu) (old ms : List DisplayMonitor) (i j : ℕ)
      (a b : DisplayMonitor)
      → decode_monitor_layout c intersects pdu (some old) ≡ (some ms, none)
      → get_elem? ms i ≡ some a
      → get_elem? ms j ≡ some b
      → i ≢ j
      → ¬ IsCommon Covers a b
  unfolding decoded_monitor
  accepted_disjoint law pdu old ms i j a b h at at' ne (p, in_a, in_b) =
      let (ws, _, valid, e) = (decode_monitor_layout_iff c intersects pdu old ms).0 h in
      let (v, at_v, ev) = get_elem?-map (decoded_monitor c) ws i (rw e at at) in
      let (w, at_w, ew) = get_elem?-map (decoded_monitor c) ws j (rw e at at') in
      let in_v : Covers (wire_rect v) p = rw ev at in_a in
      let in_w : Covers (wire_rect w) p = rw ew at in_b in
      elim (apart) [
        | inl lt ↦ valid_disjoint ws i j law valid at_v at_w lt (p, in_w, in_v)
        | inr gt ↦ valid_disjoint ws j i law valid at_w at_v gt (p, in_v, in_w)
      ]
    where
      apart : (i < j) ⊎ (j < i)
      apart = omega arith
