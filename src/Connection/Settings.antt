-- ===== src/Connection/Settings.antt =====
-- src/RdpConnection.cpp: the settings that initialize makes, and those of a client that onCapabilities reads. A setting is
-- named as FreeRDP names it.
use kheadless_krdp.Prelude.{ℕ, ◌<◌, ◌≡◌, ◌↔◌, Bool, true, false, not, ◌==◌, if◌then◌else◌, arith}

pub record RdpSettings : Type 0 where
  pub rdp_security : Bool
  pub tls_security : Bool
  pub nla_security : Bool
  pub os_major_type : ℕ
  pub os_minor_type : ℕ
  pub audio_playback : Bool
  pub color_depth : ℕ
  pub support_graphics_pipeline : Bool
  pub gfx_avc444 : Bool
  pub gfx_avc444v2 : Bool
  pub gfx_h264 : Bool
  pub gfx_small_cache : Bool
  pub gfx_thin_client : Bool
  pub has_extended_mouse_event : Bool
  pub has_horizontal_wheel : Bool
  pub unicode_input : Bool
  pub network_auto_detect : Bool
  pub refresh_rect : Bool
  pub remote_console_audio : Bool
  pub remote_fx_codec : Bool
  pub ns_codec : Bool
  pub frame_marker_command_enabled : Bool
  pub surface_frame_marker_enabled : Bool
  pub support_monitor_layout_pdu : Bool
  pub support_display_control : Bool
  pub desktop_resize : Bool
  pub pointer_cache_size : ℕ

-- The arguments are OSMAJORTYPE_UNIX and OSMINORTYPE_PSEUDO_XSERVER.
pub configure : (unix pseudo_xserver : ℕ) → RdpSettings → RdpSettings
configure unix pseudo_xserver s = record s {
  rdp_security = false;
  tls_security = false;
  nla_security = true;
  os_major_type = unix;
  os_minor_type = pseudo_xserver;
  audio_playback = true;
  color_depth = 32;
  support_graphics_pipeline = true;
  gfx_avc444 = false;
  gfx_avc444v2 = false;
  gfx_h264 = true;
  gfx_small_cache = false;
  gfx_thin_client = false;
  has_extended_mouse_event = true;
  has_horizontal_wheel = true;
  unicode_input = true;
  network_auto_detect = true;
  refresh_rect = true;
  remote_console_audio = true;
  remote_fx_codec = false;
  ns_codec = false;
  frame_marker_command_enabled = true;
  surface_frame_marker_enabled = true;
  support_monitor_layout_pdu = true;
  support_display_control = true;
}

unfoldable pub on_capabilities : RdpSettings → RdpSettings × Bool
on_capabilities s =
    if not s.support_graphics_pipeline
    then (s, false)
    else (let t = if not (s.color_depth == 32) then record s { color_depth = 32 } else s in
        if not t.desktop_resize
        then (t, false)
        else if t.pointer_cache_size == 0
        then (t, false)
        else (t, true))

-- A client is accepted exactly if it supports the graphics pipeline and resizing and caches at least one pointer. An
-- accepted client's color depth becomes 32, and its settings are otherwise as they were; a refused one's are so too, but
-- for a color depth of 32 if it supports the graphics pipeline.
pub on_capabilities_iff :
    (s : RdpSettings)
    → (((on_capabilities s).1 ≡ true) ↔ (
        (s.support_graphics_pipeline ≡ true)
        × (s.desktop_resize ≡ true)
        × (0 < s.pointer_cache_size)))
      × ((on_capabilities s).0
          ≡ record s { color_depth = if s.support_graphics_pipeline then 32 else s.color_depth })
unfolding on_capabilities
on_capabilities_iff s = ground arith
