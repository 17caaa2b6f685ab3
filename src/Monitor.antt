-- ===== src/Monitor.antt =====
-- DisplayMonitor and DisplayMonitorList of src/DisplayControl.h.
use kheadless_krdp.Prelude.{
  ℕ, ◌≡◌, ◌↔◌, refl, Bool, true, false, ◌&&◌, List, [], ◌∷◌, arith, ◌==◌, &&_true,
}
use kheadless_krdp.Geometry.{Point, Size, Rect, eq_point, eq_size, eq_point_iff, eq_size_iff}

pub record DisplayMonitor : Type 0 where
  pub position : Point
  pub size : Size
  pub physical_size : Size
  pub orientation : ℕ
  pub desktop_scale_factor : ℕ
  pub device_scale_factor : ℕ
  pub primary : Bool

abbrev eq_bool : Bool → Bool → Bool
eq_bool true true = true
eq_bool false false = true
eq_bool _ _ = false

-- The defaulted `operator==` of DisplayMonitor: member by member.
pub eq_monitor : DisplayMonitor → DisplayMonitor → Bool
eq_monitor a b =
    eq_point a.position b.position
    && eq_size a.size b.size
    && eq_size a.physical_size b.physical_size
    && a.orientation == b.orientation
    && a.desktop_scale_factor == b.desktop_scale_factor
    && a.device_scale_factor == b.device_scale_factor
    && eq_bool a.primary b.primary

-- QList's `operator==`: the same length, and equal element by element.
unfoldable pub eq_layout : List DisplayMonitor → List DisplayMonitor → Bool
unfolding eq_monitor
eq_layout [] [] = true
eq_layout (a ∷ as') (b ∷ bs) = eq_monitor a b && eq_layout as' bs
eq_layout _ _ = false

pub eq_monitor_iff : (a b : DisplayMonitor) → (eq_monitor a b ≡ true) ↔ (a ≡ b)
unfolding eq_monitor
eq_monitor_iff a b = ground (
  arith,
  eq_point_iff a.position b.position,
  eq_size_iff a.size b.size,
  eq_size_iff a.physical_size b.physical_size,
)

pub eq_layout→eq : (xs ys : List DisplayMonitor) → eq_layout xs ys ≡ true → xs ≡ ys
unfolding eq_layout
eq_layout→eq [] [] h = refl
eq_layout→eq [] (b ∷ bs) h = cc
eq_layout→eq (a ∷ as') [] h = cc
eq_layout→eq (a ∷ as') (b ∷ bs) h =
    let (p, q) = &&_true (eq_monitor a b) _ h in
    cc ((eq_monitor_iff a b).0 p, eq_layout→eq as' bs q)

pub eq_layout_refl : (xs : List DisplayMonitor) → eq_layout xs xs ≡ true
unfolding eq_layout
eq_layout_refl [] = refl
eq_layout_refl (a ∷ as') = rw ((eq_monitor_iff a a).1 refl, eq_layout_refl as')

-- QRect(monitor.position, monitor.size).
abbrev pub monitor_rect : DisplayMonitor → Rect
monitor_rect m = record { position = m.position; size = m.size }
