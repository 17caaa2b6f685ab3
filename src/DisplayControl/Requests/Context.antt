-- ===== src/DisplayControl/Requests/Context.antt =====
-- When the channel of src/DisplayControl.cpp is there.
use kheadless_krdp.Prelude.{◌≡◌, refl, Bool, true, Option, none, some, List, [], arith}
use kheadless_krdp.Geometry.{Rect}
use kheadless_krdp.Monitor.{DisplayMonitor}
use kheadless_krdp.DisplayControl.{DispConstants, Error, decode_monitor_layout}
use kheadless_krdp.DisplayControl.Requests.{
  DisplayRequests, MonitorSettings, receive_decoded, request_monitor_layout, initial_pdu,
  request_initial_monitor_layout, initialize, close,
}

module _ (constants : DispConstants) (intersects : Rect → Rect → Bool) where
  receive_decoded-context :
      (decoded : Option (List DisplayMonitor) × Option Error) (d : DisplayRequests)
      → (receive_decoded constants intersects decoded d).0.has_context ≡ d.has_context
  unfolding request_monitor_layout
  receive_decoded-context (none, e) d = refl
  receive_decoded-context (some monitors, none) d = refl
  receive_decoded-context (some monitors, some e) d = refl

  request_initial_monitor_layout-context :
      (settings : MonitorSettings) (d : DisplayRequests)
      → (request_initial_monitor_layout constants intersects settings d).has_context ≡ d.has_context
  unfolding request_initial_monitor_layout
  request_initial_monitor_layout-context settings d =
      receive_decoded-context
        (decode_monitor_layout constants intersects (initial_pdu constants intersects settings)
          (some []))
        d

  -- The channel is there exactly if initialize says so.
  pub initialize-context :
      (created opened advertised : Bool) (settings : MonitorSettings) (d : DisplayRequests)
      → (initialize constants intersects created opened advertised settings d).0.has_context
        ≡ (initialize constants intersects created opened advertised settings d).1
  unfolding initialize close
  initialize-context created opened advertised settings d =
      ground
        (arith, request_initial_monitor_layout-context settings (record d { has_context = true }))
