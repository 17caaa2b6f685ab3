-- ===== src/DisplayControl/Autotest.antt =====
-- autotests/DisplayControlTest.cpp: the tests of decodeMonitorLayout, each as whether its verifications hold of the model.
-- The limits that the header of FreeRDP sets, and QRect::intersects, are those of Examples.
use kheadless_krdp.Prelude.{
  ℕ, zero, suc, ◌+◌, ◌-◌, ◌*◌, ◌≡◌, refl, Bool, true, false, ◌&&◌, Option, none, some, List, [],
  ◌∷◌, ◌==◌, if◌then◌else◌, length, get_elem?,
}
use kheadless_krdp.Prelude.Int.{ℤ, pos, negsuc, ◌+ℤ◌, ◌-ℤ◌, max_ℤ, min_ℤ}
use kheadless_krdp.Geometry.{Point, Size, eq_point, eq_size}
use kheadless_krdp.Monitor.{DisplayMonitor}
use kheadless_krdp.VideoStream.Submission.{is_empty}
use kheadless_krdp.DisplayControl.{
  WireMonitor, LayoutPdu, Error, maximum_monitor_count, adjacent, decoded_monitor,
  decode_monitor_layout, decode, stored, decode_array, read_monitors, records, read_monitor,
  unsupported_size, off_origin, overlaps, start, extend, check_layout, desktop_too_large_test,
  check_adjacent, has_adjacent_monitor,
}
use kheadless_krdp.DisplayControl.Examples.{constants, overlap}

abbrev monitor : ℤ → ℤ → ℕ → ℕ → Bool → WireMonitor
monitor x y width height primary = record {
  flags = if primary then constants.monitor_primary else 0;
  left = x;
  top = y;
  width = width;
  height = height;
  physical_width = 0;
  physical_height = 0;
  orientation = 0;
  desktop_scale_factor = 100;
  device_scale_factor = 100;
}

abbrev monitor_at : Option WireMonitor → WireMonitor
monitor_at none = monitor (pos 0) (pos 0) 0 0 false
monitor_at (some m) = m

-- The array of a vector, which is not read past its end.
abbrev pdu : List WireMonitor → LayoutPdu
pdu monitors = record {
  monitor_layout_size = constants.layout_size;
  num_monitors = length monitors;
  monitors = some (λ i. monitor_at (get_elem? monitors i));
}

-- What is decoded into an empty list, with the message if the call returns false.
decoded : List WireMonitor → Option (List DisplayMonitor) × Option Error
unfolding decode_monitor_layout decode_array read_monitors records read_monitor unsupported_size
    off_origin overlaps start extend max_ℤ decoded_monitor min_ℤ ◌+ℤ◌ ◌-ℤ◌ check_layout
    desktop_too_large_test check_adjacent adjacent decode has_adjacent_monitor stored
decoded monitors = decode_monitor_layout constants overlap (pdu monitors) (some [])

abbrev fails : Option (List DisplayMonitor) × Option Error → Bool
fails (layout, none) = false
fails (layout, some error) = true

-- Whether the call returns true with a list of which a test holds.
abbrev gives : (List DisplayMonitor → Bool) → Option (List DisplayMonitor) × Option Error → Bool
gives test (some layout, none) = test layout
gives test _ = false

abbrev at_ : (ℕ) → (DisplayMonitor → Bool) → List DisplayMonitor → Bool
at_ i test layout = elim (get_elem? layout i) [ none ↦ false | some m ↦ test m ]

abbrev point : ℤ → ℤ → Point
point x y = record { x = x; y = y }

abbrev size : ℤ → ℤ → Size
size width height = record { width = width; height = height }

-- Monitors side by side, from the one of an index on, the first of all being primary.
row : (step height left index : ℕ) → List WireMonitor
row step height zero index = []
row step height (suc left) index =
    monitor (pos (index * step)) (pos 0) step height (index == 0) ∷ row step height left (suc index)

accepts_supported_monitor_count : ℕ → Bool
unfolding decoded row
accepts_supported_monitor_count count =
    gives
      (λ layout.
        length layout == count
        && at_ 0 (λ m. eq_point m.position (point (pos 0) (pos 0))) layout
        && at_ (length layout - 1)
            (λ m. eq_point m.position (point (pos ((count - 1) * 1920)) (pos 0))) layout)
      (decoded (row 1920 1080 count 0))

all_up_to : ℕ → (ℕ → Bool) → Bool
all_up_to zero test = true
all_up_to (suc count) test = test (suc count) && all_up_to count test

accepts_supported_monitor_counts : Bool
unfolding accepts_supported_monitor_count all_up_to
accepts_supported_monitor_counts = all_up_to maximum_monitor_count accepts_supported_monitor_count

accepts_multiple_monitors : Bool
unfolding decoded
accepts_multiple_monitors =
    gives
      (λ layout.
        length layout == 3
        && at_ 0 (λ m. eq_point m.position (point (pos 0) (pos 0))) layout
        && at_ 1 (λ m. eq_point m.position (point (negsuc 1919) (pos 0))) layout
        && at_ 2 (λ m. eq_size m.size (size (pos 1280) (pos 720))) layout
        && at_ 0 (λ m. m.primary) layout)
      (decoded (
        monitor (pos 0) (pos 0) 2560 1440 true
        ∷ monitor (negsuc 1919) (pos 0) 1920 1080 false
        ∷ monitor (pos 2560) (pos 0) 1280 720 false
        ∷ []))

rejects_overlapping_monitors : Bool
unfolding decoded
rejects_overlapping_monitors = fails (
    decoded
      (monitor (pos 0) (pos 0) 1920 1080 true ∷ monitor (pos 1000) (pos 0) 1920 1080 false ∷ []))

rejects_missing_primary : Bool
unfolding decoded
rejects_missing_primary = fails (decoded (monitor (pos 0) (pos 0) 1920 1080 false ∷ []))

rejects_disconnected_monitor : Bool
unfolding decoded
rejects_disconnected_monitor = fails (
    decoded
      (monitor (pos 0) (pos 0) 1920 1080 true ∷ monitor (pos 3000) (pos 0) 1920 1080 false ∷ []))

ignores_invalid_optional_attributes : Bool
unfolding decoded
ignores_invalid_optional_attributes =
    let invalid = record (monitor (pos 0) (pos 0) 1920 1080 true) {
      orientation = 45;
      desktop_scale_factor = 700;
      device_scale_factor = 125;
      physical_width = 1;
      physical_height = 1;
    } in
    gives
      (at_ 0 (λ m.
        m.orientation == 0
        && m.desktop_scale_factor == 100
        && m.device_scale_factor == 100
        && is_empty m.physical_size))
      (decoded (invalid ∷ []))

preserves_valid_optional_attributes : Bool
unfolding decoded
preserves_valid_optional_attributes =
    let configured = record (monitor (pos 0) (pos 0) 2560 1440 true) {
      orientation = 270;
      desktop_scale_factor = 175;
      device_scale_factor = 140;
      physical_width = 600;
      physical_height = 340;
    } in
    gives
      (at_ 0 (λ m.
        m.orientation == 270
        && m.desktop_scale_factor == 175
        && m.device_scale_factor == 140
        && eq_size m.physical_size (size (pos 600) (pos 340))))
      (decoded (configured ∷ []))

rejects_too_many_monitors : Bool
unfolding decoded row
rejects_too_many_monitors = fails (decoded (row 200 200 (maximum_monitor_count + 1) 0))

rejects_multiple_primary_monitors : Bool
unfolding decoded
rejects_multiple_primary_monitors = fails (
    decoded
      (monitor (pos 0) (pos 0) 1920 1080 true ∷ monitor (pos 1920) (pos 0) 1920 1080 true ∷ []))

rejects_excessive_desktop_extent : Bool
unfolding decoded
rejects_excessive_desktop_extent = fails (
    decoded
      (monitor (pos 0) (pos 0) 8192 8192 true ∷ monitor (pos 32760) (pos 0) 200 200 false ∷ []))

abbrev accepting : Bool
accepting =
    accepts_supported_monitor_counts && accepts_multiple_monitors
    && ignores_invalid_optional_attributes && preserves_valid_optional_attributes

abbrev rejecting : Bool
rejecting =
    rejects_overlapping_monitors && rejects_missing_primary && rejects_disconnected_monitor
    && rejects_too_many_monitors && rejects_multiple_primary_monitors
    && rejects_excessive_desktop_extent

-- All tests pass.
tests_pass : accepting && rejecting ≡ true
unfolding accepts_supported_monitor_counts accepts_multiple_monitors
    ignores_invalid_optional_attributes preserves_valid_optional_attributes
    rejects_overlapping_monitors rejects_missing_primary rejects_disconnected_monitor
    rejects_too_many_monitors rejects_multiple_primary_monitors rejects_excessive_desktop_extent
tests_pass = refl
