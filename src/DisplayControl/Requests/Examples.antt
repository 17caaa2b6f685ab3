-- ===== src/DisplayControl/Requests/Examples.antt =====
-- src/DisplayControl.cpp: one monitor is asked for and accepted.
use kheadless_krdp.Prelude.{◌≡◌, ◌⊎◌, refl, Bool, true, false, none, some, [], ◌∷◌, ok}
use kheadless_krdp.Prelude.Int.{pos, negsuc, ◌-ℤ◌, ◌+ℤ◌, max_ℤ, min_ℤ}
use kheadless_krdp.Geometry.{Rect}
use kheadless_krdp.Monitor.{DisplayMonitor}
use kheadless_krdp.DisplayControl.{
  DispConstants, decode_monitor_layout, decode_array, read_monitors, records, read_monitor,
  unsupported_size, off_origin, overlaps, start, check_layout, extend, desktop_too_large_test,
  adjacent, check_adjacent, decode, decoded_monitor, has_adjacent_monitor, stored,
}
use kheadless_krdp.DisplayControl.Requests.{
  DisplayRequests, MonitorSettings, initial, initialize, accept_requested_monitor_layout,
  request_initial_monitor_layout, close, item, request_monitor_layout, wire_monitors,
}
use kheadless_krdp.DisplayControl.Requests.Pending.{
  accept_requested_monitor_layout_iff, IsDecoded, AreDecoded, started, initialized, accepted,
  Reach-AreDecoded,
}
use kheadless_krdp.VideoStream.{VideoStream, set_monitor_layout}
use kheadless_krdp.VideoStream as Stream

abbrev constants : DispConstants
constants = record {
  layout_size = 40;
  monitor_primary = 1;
  min_width = 200;
  max_width = 8192;
  min_height = 200;
  max_height = 8192;
  min_physical_width = 10;
  max_physical_width = 10000;
  min_physical_height = 10;
  max_physical_height = 10000;
}

abbrev never : Rect → Rect → Bool
never r s = false

abbrev settings : MonitorSettings
settings = record {
  monitor_count = 0;
  monitor_def_array = none;
  desktop_width = 1920;
  desktop_height = 1080;
}

abbrev opened : DisplayRequests
opened = (initialize constants never true true true settings initial).0

abbrev screen : DisplayMonitor
screen = record {
  position = record { x = pos 0; y = pos 0 };
  size = record { width = pos 1920; height = pos 1080 };
  physical_size = record { width = negsuc 0; height = negsuc 0 };
  orientation = 0;
  desktop_scale_factor = 100;
  device_scale_factor = 100;
  primary = true;
}

requests_test : opened.requested_monitor_layout ≡ some (screen ∷ [])
unfolding initialize request_initial_monitor_layout decode_monitor_layout decode_array read_monitors
    records read_monitor unsupported_size off_origin overlaps start check_layout extend
    desktop_too_large_test ◌-ℤ◌ max_ℤ ◌+ℤ◌ close item request_monitor_layout wire_monitors adjacent
    check_adjacent decode decoded_monitor has_adjacent_monitor stored min_ℤ
requests_test = refl

abbrev taken : DisplayRequests
taken = record opened { requested_monitor_layout = none }

accept_requested_monitor_layout_iff_example :
    accept_requested_monitor_layout (screen ∷ []) opened Stream.initial
    ≡ ok (taken, set_monitor_layout (screen ∷ []) Stream.initial)
accept_requested_monitor_layout_iff_example =
    (accept_requested_monitor_layout_iff (screen ∷ []) opened taken Stream.initial
        (set_monitor_layout (screen ∷ []) Stream.initial)).1
      (requests_test, refl, refl)

no_layout : Stream.initial.monitor_layout ≡ []
no_layout = refl

accepted_test :
    accept_requested_monitor_layout (screen ∷ []) opened Stream.initial
    ≡ ok (taken, set_monitor_layout (screen ∷ []) Stream.initial)
accepted_test =
    (accept_requested_monitor_layout_iff (screen ∷ []) opened taken Stream.initial
        (set_monitor_layout (screen ∷ []) Stream.initial)).1
      (requests_test, refl, refl)

Reach-AreDecoded_example :
    AreDecoded constants never taken
    × (((set_monitor_layout (screen ∷ []) Stream.initial).monitor_layout ≡ [])
        ⊎ IsDecoded constants never
            (set_monitor_layout (screen ∷ []) Stream.initial).monitor_layout)
Reach-AreDecoded_example = Reach-AreDecoded constants never (
    accepted (screen ∷ []) accepted_test
      (initialized true true true settings (started Stream.initial no_layout)))
