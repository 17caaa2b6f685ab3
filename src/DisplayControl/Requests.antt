-- ===== src/DisplayControl/Requests.antt =====
-- The rest of src/DisplayControl.cpp: which layout the client has asked for, and what the application does with it.
-- FreeRDP's answers to creating, opening and advertising the channel are arguments.
pub mod Pending
pub mod Context
mod Examples
use kheadless_krdp.Prelude.{
  ℕ, zero, suc, ◌-◌, ◌%◌, ◌^◌, Bool, true, false, ◌&&◌, not, Option, none, some, List, [], ◌∷◌,
  ◌++◌, ltb, if◌then◌else◌, length, Result, ok, err,
}
use kheadless_krdp.Prelude.Int.{ℤ, pos, negsuc}
use kheadless_krdp.Geometry.{Rect}
use kheadless_krdp.Monitor.{DisplayMonitor, eq_layout}
use kheadless_krdp.DisplayControl.{
  DispConstants, WireMonitor, LayoutPdu, Error, nothing_pending, not_the_request, records,
  decode_monitor_layout,
}
use kheadless_krdp.VideoStream.{VideoStream, set_monitor_layout}

-- The members of DisplayControl, with the layouts that requestedMonitorLayoutChanged has announced.
pub record DisplayRequests : Type 0 where
  pub has_context : Bool
  pub requested_monitor_layout : Option (List DisplayMonitor)
  pub announced : List (List DisplayMonitor)

abbrev pub initial : DisplayRequests
initial = record { has_context = false; requested_monitor_layout = none; announced = [] }

-- CHANNEL_RC_OK, CHANNEL_RC_NULL_DATA and CHANNEL_RC_BAD_CHANNEL.
pub data Status : Type 0 where
  channel_ok null_data bad_channel : Status

unfoldable pub close : DisplayRequests → DisplayRequests
close s = record s { has_context = false }

unfoldable pub request_monitor_layout : List DisplayMonitor → DisplayRequests → DisplayRequests
request_monitor_layout monitors s = record s {
  requested_monitor_layout = some monitors;
  announced = s.announced ++ monitors ∷ [];
}

unfoldable pub reject_requested_monitor_layout : DisplayRequests → DisplayRequests
reject_requested_monitor_layout s = record s { requested_monitor_layout = none }

accept_from :
    Option (List DisplayMonitor)
    → List DisplayMonitor
    → DisplayRequests
    → VideoStream
    → Result Error (DisplayRequests × VideoStream)
accept_from none monitors s video = err nothing_pending
accept_from (some requested) monitors s video =
    if not (eq_layout requested monitors)
    then err not_the_request
    else ok (record s { requested_monitor_layout = none }, set_monitor_layout monitors video)

unfoldable pub accept_requested_monitor_layout :
    List DisplayMonitor
    → DisplayRequests
    → VideoStream
    → Result Error (DisplayRequests × VideoStream)
unfolding accept_from
accept_requested_monitor_layout monitors s video =
    accept_from s.requested_monitor_layout monitors s video

-- rdpMonitor: the integers are INT32 and UINT32.
pub record RdpMonitor : Type 0 where
  pub x : ℤ
  pub y : ℤ
  pub width : ℤ
  pub height : ℤ
  pub is_primary : Bool
  pub physical_width : ℕ
  pub physical_height : ℕ
  pub orientation : ℕ
  pub desktop_scale_factor : ℕ
  pub device_scale_factor : ℕ

-- The settings that requestInitialMonitorLayout reads.
pub record MonitorSettings : Type 0 where
  pub monitor_count : ℕ
  pub monitor_def_array : Option (ℕ → RdpMonitor)
  pub desktop_width : ℕ
  pub desktop_height : ℕ

-- uint32_t(x).
abbrev to_uint32 : ℤ → ℕ
to_uint32 (pos n) = n % 2 ^ 32
to_uint32 (negsuc n) = 2 ^ 32 - n % 2 ^ 32 - 1

module _ (c : DispConstants) (intersects : Rect → Rect → Bool) where
  abbrev wire_monitor : RdpMonitor → WireMonitor
  wire_monitor m = record {
    flags = if m.is_primary then c.monitor_primary else 0;
    left = m.x;
    top = m.y;
    width = to_uint32 m.width;
    height = to_uint32 m.height;
    physical_width = m.physical_width;
    physical_height = m.physical_height;
    orientation = m.orientation;
    desktop_scale_factor = m.desktop_scale_factor;
    device_scale_factor = m.device_scale_factor;
  }

  abbrev desktop_monitor : MonitorSettings → WireMonitor
  desktop_monitor settings = record {
    flags = c.monitor_primary;
    left = pos 0;
    top = pos 0;
    width = settings.desktop_width;
    height = settings.desktop_height;
    physical_width = 0;
    physical_height = 0;
    orientation = 0;
    desktop_scale_factor = 100;
    device_scale_factor = 100;
  }

  wire_monitors : MonitorSettings → Option (ℕ → RdpMonitor) → List WireMonitor
  wire_monitors settings none = desktop_monitor settings ∷ []
  wire_monitors settings (some monitors) =
      if ltb 0 settings.monitor_count
      then records settings.monitor_count 0 (λ index. wire_monitor (monitors index))
      else desktop_monitor settings ∷ []

  -- `.data()` of the vector, read inside its bounds.
  item : List WireMonitor → WireMonitor → ℕ → WireMonitor
  item [] last i = last
  item (w ∷ ws) last zero = w
  item (w ∷ ws) last (suc i) = item ws last i

  -- What is done with the outcome of a decoding that starts from an empty destination.
  abbrev receive_decoded :
      Option (List DisplayMonitor) × Option Error → DisplayRequests → DisplayRequests × Status
  receive_decoded (some monitors, none) s = (request_monitor_layout monitors s, channel_ok)
  receive_decoded _ s = (s, bad_channel)

  -- `has_control` and `pdu` say whether the pointers are null.
  unfoldable pub receive_monitor_layout :
      Bool → Option LayoutPdu → DisplayRequests → DisplayRequests × Status
  receive_monitor_layout true (some pdu) s =
      receive_decoded (decode_monitor_layout c intersects pdu (some [])) s
  receive_monitor_layout _ _ s = (s, null_data)

  abbrev initial_pdu : MonitorSettings → LayoutPdu
  initial_pdu settings =
      let ws = wire_monitors settings settings.monitor_def_array in
      record {
        monitor_layout_size = c.layout_size;
        num_monitors = length ws % 2 ^ 32;
        monitors = some (item ws (desktop_monitor settings));
      }

  unfoldable pub request_initial_monitor_layout :
      MonitorSettings → DisplayRequests → DisplayRequests
  unfolding wire_monitors item
  request_initial_monitor_layout settings s =
      (receive_decoded (decode_monitor_layout c intersects (initial_pdu settings) (some [])) s).0

  unfoldable pub initialize :
      (created opened advertised : Bool)
      → MonitorSettings
      → DisplayRequests
      → DisplayRequests × Bool
  unfolding close
  initialize created opened advertised settings s =
      if s.has_context
      then (s, true)
      else if not created
      then (s, false)
      else if not (opened && advertised)
      then (close (record s { has_context = true }), false)
      else (request_initial_monitor_layout settings (record s { has_context = true }), true)
