-- ===== src/Connection/Loop/Suppression.antt =====
-- src/RdpConnection.cpp: what becomes of a client's wish to have no output.
use kheadless_krdp.Prelude.{ℕ, ◌≡◌, Bool, true, ◌&&◌, List, arith}
use kheadless_krdp.Geometry.{Rect}
use kheadless_krdp.DisplayControl.{DispConstants}
use kheadless_krdp.VideoStream as Video
use kheadless_krdp.Connection.{Connection, set_state}
use kheadless_krdp.Connection.Loop.{
  Turn, ready, call_all, open_display, open_video, open_dynamic_channels, open_clipboard,
  open_static_channels, turn,
}

module _ (constants : DispConstants) (intersects : Rect → Rect → Bool)
    (same : List ℕ → List ℕ → Bool) where
  open_video-enables :
      (t : Turn) (c : Connection)
      → (open_video constants intersects t c).1 ≡ true
      → (open_video constants intersects t c).0.stream.video.enabled ≡ true
  unfolding open_video set_state Video.set_enabled
  open_video-enables t c g = ground arith

  open_dynamic_channels-enables :
      (t : Turn) (c : Connection)
      → (open_dynamic_channels constants intersects t c).1 ≡ true
      → (t.connected && t.drdynvc_joined) ≡ true
      → t.drdynvc_state ≡ ready
      → (open_dynamic_channels constants intersects t c).0.stream.video.enabled ≡ true
  unfolding open_dynamic_channels
  open_dynamic_channels-enables t c g j r =
      ground (arith, open_video-enables t (open_display constants intersects t c).0)

  -- After each pass that does not end the loop and finds the client connected and the dynamic channels ready, the video
  -- stream is enabled, whatever the client has asked for in onSuppressOutput before or during the pass.
  pub turn-enables :
      (t : Turn) (c : Connection)
      → (turn constants intersects same t c).1 ≡ true
      → (t.connected && t.drdynvc_joined) ≡ true
      → t.drdynvc_state ≡ ready
      → (turn constants intersects same t c).0.stream.video.enabled ≡ true
  unfolding turn open_static_channels open_clipboard
  turn-enables t c g j r =
      ground (arith, open_dynamic_channels-enables t (call_all same t.callbacks c))
