-- ===== src/DisplayControl/Examples.antt =====
-- src/DisplayControl.cpp run on the layouts of autotests/DisplayControlTest.cpp.
use kheadless_krdp.Prelude.{
  ℕ, zero, suc, ◌≡◌, ◌≢◌, ◌↔◌, refl, Bool, true, ◌&&◌, none, some, List, [], ◌∷◌, map, arith,
  &&_true,
}
use kheadless_krdp.Prelude.Int.{ℤ, pos, negsuc, ◌+ℤ◌, ◌-ℤ◌, ◌≤ℤ◌, ◌<ℤ◌, ltb_ℤ, min_ℤ, max_ℤ}
use kheadless_krdp.Geometry.{Point, Rect, Covers}
use kheadless_krdp.Monitor.{DisplayMonitor}
use kheadless_krdp.DisplayControl.{
  DispConstants, WireMonitor, LayoutPdu, not_adjacent, adjacent, decoded_monitor,
  decode_monitor_layout, decode, stored, decode_array, read_monitors, records, read_monitor,
  unsupported_size, off_origin, overlaps, start, extend, check_layout, desktop_too_large_test,
  check_adjacent, has_adjacent_monitor,
}
use kheadless_krdp.DisplayControl.Spec.{IsValidLayout}
use kheadless_krdp.DisplayControl.Decoder.{Announces, decode_monitor_layout_iff}
use kheadless_krdp.DisplayControl.Regions.{Borders, IsCommon, adjacent_iff}
use kheadless_krdp.DisplayControl.Disjoint.{Intersects, accepted_disjoint}

abbrev pub constants : DispConstants
constants = record {
  layout_size = 40;
  monitor_primary = 1;
  min_width = 200;
  max_width = 8192;
  min_height = 200;
  max_height = 8192;
  min_physical_width = 10;
  max_physical_width = 10000;
  min_physical_height = 10;
  max_physical_height = 10000;
}

abbrev pub overlap : Rect → Rect → Bool
overlap r s =
    ltb_ℤ (max_ℤ r.position.x s.position.x)
      (min_ℤ (r.position.x +ℤ r.size.width) (s.position.x +ℤ s.size.width))
    && ltb_ℤ (max_ℤ r.position.y s.position.y)
        (min_ℤ (r.position.y +ℤ r.size.height) (s.position.y +ℤ s.size.height))

overlap_axis :
    (a b c d : ℤ)
    → (ltb_ℤ (max_ℤ a c) (min_ℤ b d) ≡ true) ↔ ((x : ℤ) × (a ≤ℤ x) × (x <ℤ b) × (c ≤ℤ x) × (x <ℤ d))
unfolding max_ℤ min_ℤ
overlap_axis a b c d = (
  λ h. (max_ℤ a c, ground arith, ground arith, ground arith, ground arith),
  λ (x, ax, xb, cx, xd). ground arith,
)

overlap-Intersects : Intersects overlap
overlap-Intersects r s ir is = (forth, back)
  where
    xs :
        (ltb_ℤ
            (max_ℤ r.position.x s.position.x)
            (min_ℤ (r.position.x +ℤ r.size.width) (s.position.x +ℤ s.size.width))
          ≡ true)
        ↔ ((x : ℤ) × (r.position.x ≤ℤ x)
            × (x <ℤ r.position.x +ℤ r.size.width)
            × (s.position.x ≤ℤ x)
            × (x <ℤ s.position.x +ℤ s.size.width))
    xs = overlap_axis _ _ _ _

    ys :
        (ltb_ℤ
            (max_ℤ r.position.y s.position.y)
            (min_ℤ (r.position.y +ℤ r.size.height) (s.position.y +ℤ s.size.height))
          ≡ true)
        ↔ ((y : ℤ) × (r.position.y ≤ℤ y)
            × (y <ℤ r.position.y +ℤ r.size.height)
            × (s.position.y ≤ℤ y)
            × (y <ℤ s.position.y +ℤ s.size.height))
    ys = overlap_axis _ _ _ _

    forth : overlap r s ≡ true → (p : Point) × Covers r p × Covers s p
    forth h =
        let (hx, hy) = &&_true _ _ h in
        let (x, ax, xb, cx, xd) = xs.0 hx in
        let (y, ay, yb, cy, yd) = ys.0 hy in
        (record { x = x; y = y }, (ax, xb, ay, yb), (cx, xd, cy, yd))

    back : (p : Point) × Covers r p × Covers s p → overlap r s ≡ true
    back (p, (ax, xb, ay, yb), (cx, xd, cy, yd)) =
        rw (xs.1 (p.x, ax, xb, cx, xd), ys.1 (p.y, ay, yb, cy, yd)) refl

abbrev wire : ℤ → ℕ → ℕ → ℕ → WireMonitor
wire left width height flags = record {
  flags = flags;
  left = left;
  top = pos 0;
  width = width;
  height = height;
  physical_width = 0;
  physical_height = 0;
  orientation = 0;
  desktop_scale_factor = 100;
  device_scale_factor = 100;
}

abbrev middle : WireMonitor
middle = wire (pos 0) 2560 1440 1

abbrev at_left : WireMonitor
at_left = wire (negsuc 1919) 1920 1080 0

abbrev far : WireMonitor
far = wire (pos 3000) 1920 1080 0

abbrev pdu_of : WireMonitor → LayoutPdu
pdu_of second = record {
  monitor_layout_size = 40;
  num_monitors = 2;
  monitors = some (elim [ zero ↦ middle | suc i ↦ second ]);
}

abbrev result : List DisplayMonitor
result = decoded_monitor constants middle ∷ decoded_monitor constants at_left ∷ []

accepts_test :
    decode_monitor_layout constants overlap (pdu_of at_left) (some []) ≡ (some result, none)
unfolding decode_monitor_layout decode_array read_monitors records read_monitor unsupported_size
    off_origin overlaps start extend max_ℤ decoded_monitor min_ℤ ◌+ℤ◌ ◌-ℤ◌ check_layout
    desktop_too_large_test check_adjacent adjacent decode has_adjacent_monitor stored
accepts_test = refl

decode_monitor_layout_iff_example :
    (ws : List WireMonitor) × Announces constants overlap (pdu_of at_left) ws
    × IsValidLayout constants overlap ws
    × (result ≡ map (decoded_monitor constants) ws)
decode_monitor_layout_iff_example =
    (decode_monitor_layout_iff constants overlap (pdu_of at_left) [] result).0 accepts_test

zero_ne_one : ◌≢◌ {A = ℕ} 0 1
zero_ne_one e = absurd (omega arith)

accepted_disjoint_example :
    ¬ IsCommon Covers (decoded_monitor constants middle) (decoded_monitor constants at_left)
accepted_disjoint_example =
    accepted_disjoint constants overlap overlap-Intersects (pdu_of at_left) [] result 0 1
      (decoded_monitor constants middle) (decoded_monitor constants at_left) accepts_test refl refl
      zero_ne_one

adjacent_iff_example :
    (adjacent (decoded_monitor constants middle) (decoded_monitor constants at_left) ≡ true)
    ↔ IsCommon Borders (decoded_monitor constants middle) (decoded_monitor constants at_left)
unfolding decoded_monitor
adjacent_iff_example =
    adjacent_iff (decoded_monitor constants middle) (decoded_monitor constants at_left)
      (omega arith, omega arith) (omega arith, omega arith) accepted_disjoint_example

refuses_test :
    decode_monitor_layout constants overlap (pdu_of far) (some result)
    ≡ (some [], some (not_adjacent 0))
unfolding decode_monitor_layout decode_array read_monitors records read_monitor unsupported_size
    off_origin overlaps start extend max_ℤ decoded_monitor min_ℤ ◌+ℤ◌ ◌-ℤ◌ check_layout
    desktop_too_large_test check_adjacent adjacent decode has_adjacent_monitor stored
refuses_test = refl
