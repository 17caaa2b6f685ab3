-- ===== src/DisplayControl/Spec.antt =====
-- When a wire layout is valid: the policy of decodeMonitorLayout, stated of the wire monitors as a
-- whole and without its loops and running bounds.
use kheadless_krdp.Prelude.{
  ℕ, ◌+◌, ◌%◌, ◌≤◌, ◌<◌, ◌≡◌, ◌≢◌, Bool, true, false, some, List, [], ◌∷◌, All, length, get_elem?,
  if◌then◌else◌,
}
use kheadless_krdp.Prelude.Int.{pos, ◌+ℤ◌, ◌≤ℤ◌}
use kheadless_krdp.Geometry.{Rect}
use kheadless_krdp.DisplayControl.{
  DispConstants, WireMonitor, maximum_desktop_extent, adjacent, wire_rect, is_primary,
  decoded_monitor,
}

-- No two of the rectangles intersect.
abbrev pub AreSeparate : (Rect → Rect → Bool) → List WireMonitor → Type 0
AreSeparate intersects [] = Unit
AreSeparate intersects (w ∷ ws) =
    All (λ v. intersects (wire_rect v) (wire_rect w) ≡ false) ws × AreSeparate intersects ws

-- The distance between any two edges stays within the limit.
abbrev pub IsNear : WireMonitor → WireMonitor → Type 0
IsNear v w =
    (v.left +ℤ pos v.width ≤ℤ w.left +ℤ pos maximum_desktop_extent)
    × (v.top +ℤ pos v.height ≤ℤ w.top +ℤ pos maximum_desktop_extent)

abbrev pub Fits : List WireMonitor → Type 0
Fits ws = All (λ v. All (λ w. IsNear v w) ws) ws

module _ (c : DispConstants) where
  pub record IsSupported (w : WireMonitor) : Type 0 where
    pub min_width : c.min_width ≤ w.width
    pub max_width : w.width ≤ c.max_width
    pub even_width : w.width % 2 ≡ 0
    pub min_height : c.min_height ≤ w.height
    pub max_height : w.height ≤ c.max_height

  abbrev pub IsAtOrigin : WireMonitor → Type 0
  IsAtOrigin w = is_primary c w ≡ true → (w.left ≡ pos 0) × (w.top ≡ pos 0)

  abbrev pub primaries : List WireMonitor → ℕ
  primaries [] = 0
  primaries (w ∷ ws) = (if is_primary c w then 1 else 0) + primaries ws

  -- Every monitor has another one beside it.
  abbrev pub IsConnected : List WireMonitor → Type 0
  IsConnected ws =
      (i : ℕ) (v : WireMonitor)
      → get_elem? ws i ≡ some v
      → (j : ℕ) × (w : WireMonitor) × (get_elem? ws j ≡ some w)
        × (i ≢ j)
        × (adjacent (decoded_monitor c v) (decoded_monitor c w) ≡ true)

  pub record IsValidLayout (intersects : Rect → Rect → Bool) (ws : List WireMonitor) : Type 0 where
    pub supported : All IsSupported ws
    pub at_origin : All IsAtOrigin ws
    pub separate : AreSeparate intersects ws
    pub one_primary : primaries ws ≡ 1
    pub fits : Fits ws
    pub connected : 1 < length ws → IsConnected ws
