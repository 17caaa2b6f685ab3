-- ===== src/DisplayControl.antt =====
-- decodeMonitorLayout of src/DisplayControl.cpp, with the wire records that it reads.
-- The fields of DispConstants stand for FreeRDP's header constants, and `intersects` for
-- QRect::intersects.
pub mod Spec
pub mod Loop
pub mod Variables
pub mod Neighbours
pub mod Extent
pub mod Regions
pub mod Disjoint
pub mod Examples
mod Autotest
pub mod Requests
pub mod Accepts
pub mod Decoder
use kheadless_krdp.Prelude.{
  ℕ, zero, suc, ◌+◌, ◌%◌, bit_and, Bool, true, false, ◌&&◌, ◌||◌, not, Option, none, some, List, [],
  ◌∷◌, ◌++◌, ltb, leb, ◌==◌, if◌then◌else◌, any, length, Result, ok, err, fail_if, ◌>>=◌, ◌>>◌,
}
use kheadless_krdp.Prelude.Int.{ℤ, pos, negsuc, ◌+ℤ◌, ◌-ℤ◌, ltb_ℤ, leb_ℤ, eqb_ℤ, min_ℤ, max_ℤ}
use kheadless_krdp.Geometry.{Point, Size, Rect}
use kheadless_krdp.Monitor.{DisplayMonitor, monitor_rect}

pub record DispConstants : Type 0 where
  pub layout_size : ℕ
  pub monitor_primary : ℕ
  pub min_width : ℕ
  pub max_width : ℕ
  pub min_height : ℕ
  pub max_height : ℕ
  pub min_physical_width : ℕ
  pub max_physical_width : ℕ
  pub min_physical_height : ℕ
  pub max_physical_height : ℕ

abbrev pub maximum_monitor_count : ℕ
maximum_monitor_count = 16

abbrev pub maximum_desktop_extent : ℕ
maximum_desktop_extent = 32766

-- DISPLAY_CONTROL_MONITOR_LAYOUT: Left and Top are INT32, the other fields UINT32.
pub record WireMonitor : Type 0 where
  pub flags : ℕ
  pub left : ℤ
  pub top : ℤ
  pub width : ℕ
  pub height : ℕ
  pub physical_width : ℕ
  pub physical_height : ℕ
  pub orientation : ℕ
  pub desktop_scale_factor : ℕ
  pub device_scale_factor : ℕ

-- DISPLAY_CONTROL_MONITOR_LAYOUT_PDU; `monitors` is a pointer, and so may be null.
pub record LayoutPdu : Type 0 where
  pub monitor_layout_size : ℕ
  pub num_monitors : ℕ
  pub monitors : Option (ℕ → WireMonitor)

-- The messages, with the index or the limit that they print.
pub data Error : Type 0 where
  no_destination unsupported_record_size monitor_count primary_not_at_origin : Error
  exactly_one_primary desktop_too_large nothing_pending not_the_request : Error
  unsupported_pixel_size overlaps_another not_adjacent : ℕ → Error

-- pdu.Monitors[index] for the indices from `i` on.
pub records : ℕ → ℕ → (ℕ → WireMonitor) → List WireMonitor
records zero i monitors = []
records (suc n) i monitors = monitors i ∷ records n (suc i) monitors

pub adjacent : DisplayMonitor → DisplayMonitor → Bool
adjacent first second =
    ((eqb_ℤ first_right second_left || eqb_ℤ second_right first_left)
      && leb_ℤ (max_ℤ first_top second_top) (min_ℤ first_bottom second_bottom))
    || ((eqb_ℤ first_bottom second_top || eqb_ℤ second_bottom first_top)
        && leb_ℤ (max_ℤ first_left second_left) (min_ℤ first_right second_right))
  where
    first_left : ℤ
    first_left = first.position.x

    first_top : ℤ
    first_top = first.position.y

    first_right : ℤ
    first_right = first_left +ℤ first.size.width

    first_bottom : ℤ
    first_bottom = first_top +ℤ first.size.height

    second_left : ℤ
    second_left = second.position.x

    second_top : ℤ
    second_top = second.position.y

    second_right : ℤ
    second_right = second_left +ℤ second.size.width

    second_bottom : ℤ
    second_bottom = second_top +ℤ second.size.height

-- The inner loop over `other`, from index `j` on.
pub has_adjacent_monitor : ℕ → DisplayMonitor → ℕ → List DisplayMonitor → Bool
has_adjacent_monitor index m j [] = false
has_adjacent_monitor index m j (other ∷ others) =
    (not (index == j) && adjacent m other) || has_adjacent_monitor index m (suc j) others

-- The outer loop over `index`.
pub check_adjacent : List DisplayMonitor → ℕ → List DisplayMonitor → Result Error (Unit {0})
check_adjacent decoded index [] = ok tt
check_adjacent decoded index (m ∷ ms) =
    fail_if (not (has_adjacent_monitor index m 0 decoded)) (not_adjacent index)
    >> check_adjacent decoded (suc index) ms

-- The local variables of the loop over the wire monitors.
pub record Decoding : Type 0 where
  pub decoded : List DisplayMonitor
  pub primary_count : ℕ
  pub minimum_x : ℤ
  pub minimum_y : ℤ
  pub maximum_x : ℤ
  pub maximum_y : ℤ

pub start : Decoding
start = record {
  decoded = [];
  primary_count = 0;
  minimum_x = pos 9223372036854775807;
  minimum_y = pos 9223372036854775807;
  maximum_x = negsuc 9223372036854775807;
  maximum_y = negsuc 9223372036854775807;
}

pub desktop_too_large_test : Decoding → Bool
desktop_too_large_test a =
    ltb_ℤ (pos maximum_desktop_extent) (a.maximum_x -ℤ a.minimum_x)
    || ltb_ℤ (pos maximum_desktop_extent) (a.maximum_y -ℤ a.minimum_y)

-- Everything behind the loop over the wire monitors.
pub check_layout : Decoding → Result Error (List DisplayMonitor)
check_layout a = do
  fail_if (not (a.primary_count == 1)) exactly_one_primary
  fail_if (desktop_too_large_test a) desktop_too_large
  if ltb 1 (length a.decoded) then check_adjacent a.decoded 0 a.decoded else ok tt
  ok a.decoded

abbrev pub wire_rect : WireMonitor → Rect
wire_rect w = record {
  position = record { x = w.left; y = w.top };
  size = record { width = pos w.width; height = pos w.height };
}

module _ (c : DispConstants) where
  pub unsupported_size : WireMonitor → Bool
  unsupported_size w =
      ltb w.width c.min_width
      || ltb c.max_width w.width
      || not (w.width % 2 == 0)
      || ltb w.height c.min_height
      || ltb c.max_height w.height

  abbrev pub is_primary : WireMonitor → Bool
  is_primary w = not (bit_and w.flags c.monitor_primary == 0)

  pub off_origin : WireMonitor → Bool
  off_origin w = is_primary w && (not (eqb_ℤ w.left (pos 0)) || not (eqb_ℤ w.top (pos 0)))

  abbrev pub valid_physical_size : WireMonitor → Bool
  valid_physical_size w =
      leb c.min_physical_width w.physical_width
      && leb w.physical_width c.max_physical_width
      && leb c.min_physical_height w.physical_height
      && leb w.physical_height c.max_physical_height

  abbrev pub valid_orientation : WireMonitor → Bool
  valid_orientation w =
      w.orientation == 0 || w.orientation == 90 || w.orientation == 180 || w.orientation == 270

  abbrev pub valid_scale : WireMonitor → Bool
  valid_scale w =
      leb 100 w.desktop_scale_factor
      && leb w.desktop_scale_factor 500
      && (w.device_scale_factor == 100
          || w.device_scale_factor == 140
          || w.device_scale_factor == 180)

  -- The monitor that one pass of the loop appends. QSize() is -1 x -1.
  pub decoded_monitor : WireMonitor → DisplayMonitor
  decoded_monitor w = record {
    position = record { x = w.left; y = w.top };
    size = record { width = pos w.width; height = pos w.height };
    physical_size =
        if valid_physical_size w
        then record { width = pos w.physical_width; height = pos w.physical_height }
        else record { width = negsuc 0; height = negsuc 0 };
    orientation = if valid_orientation w then w.orientation else 0;
    desktop_scale_factor = if valid_scale w then w.desktop_scale_factor else 100;
    device_scale_factor = if valid_scale w then w.device_scale_factor else 100;
    primary = is_primary w;
  }

  pub extend : Decoding → WireMonitor → Decoding
  extend a w = record {
    decoded = a.decoded ++ decoded_monitor w ∷ [];
    primary_count = a.primary_count + (if is_primary w then 1 else 0);
    minimum_x = min_ℤ a.minimum_x w.left;
    minimum_y = min_ℤ a.minimum_y w.top;
    maximum_x = max_ℤ a.maximum_x (w.left +ℤ pos w.width);
    maximum_y = max_ℤ a.maximum_y (w.top +ℤ pos w.height);
  }

-- The destination was cleared, and is written at the end only.
pub stored : Result Error (List DisplayMonitor) → Option (List DisplayMonitor) × Option Error
stored (ok monitors) = (some monitors, none)
stored (err e) = (some [], some e)

module _ (c : DispConstants) (intersects : Rect → Rect → Bool) where
  pub overlaps : WireMonitor → List DisplayMonitor → Bool
  overlaps w = any (λ other. intersects (wire_rect w) (monitor_rect other))

  -- One pass of the loop over the wire monitors.
  pub read_monitor : ℕ → WireMonitor → Decoding → Result Error Decoding
  read_monitor index w a = do
    fail_if (unsupported_size c w) (unsupported_pixel_size index)
    fail_if (off_origin c w) primary_not_at_origin
    fail_if (overlaps w a.decoded) (overlaps_another index)
    ok (extend c a w)

  pub read_monitors : ℕ → List WireMonitor → Decoding → Result Error Decoding
  read_monitors index [] a = ok a
  read_monitors index (w ∷ ws) a = read_monitor index w a >>= read_monitors (suc index) ws

  pub decode_array : LayoutPdu → Option (ℕ → WireMonitor) → Result Error (List DisplayMonitor)
  decode_array pdu none = err monitor_count
  decode_array pdu (some monitors) = do
    fail_if (pdu.num_monitors == 0 || ltb maximum_monitor_count pdu.num_monitors) monitor_count
    a ← read_monitors 0 (records pdu.num_monitors 0 monitors) start
    check_layout a

  -- Everything behind the clearing of the destination.
  pub decode : LayoutPdu → Result Error (List DisplayMonitor)
  decode pdu =
      fail_if (not (pdu.monitor_layout_size == c.layout_size)) unsupported_record_size
      >> decode_array pdu pdu.monitors

  -- `destination` is what the pointer `monitors` points to before the call, if it is not null; the
  -- first part of the result is what it points to afterwards, the second is the error, if any.
  unfoldable pub decode_monitor_layout :
      LayoutPdu → Option (List DisplayMonitor) → Option (List DisplayMonitor) × Option Error
  unfolding stored decode
  decode_monitor_layout pdu none = (none, some no_destination)
  decode_monitor_layout pdu (some old) = stored (decode pdu)
