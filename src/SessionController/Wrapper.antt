-- ===== src/SessionController/Wrapper.antt =====
-- server/SessionController.cpp: SessionWrapper, between a session and the video stream of its connection. The stream is
-- used by the thread of the connection, so what it announces is delivered to the wrapper later, in its own thread:
-- `enabled_queued` and `rate_queued` are the signals on their way. A slot reads the stream when it runs.
pub mod InStep
pub mod Follows
use kheadless_krdp.Prelude.{
  ℕ, zero, suc, ◌+◌, ◌-◌, Bool, true, false, Option, none, some, List, [], ◌∷◌, ◌++◌, length,
  if◌then◌else◌,
}
use kheadless_krdp.Prelude.Int.{ℤ}
use kheadless_krdp.Geometry.{Point}
use kheadless_krdp.Cursor
use kheadless_krdp.Cursor.{Cursor, Image}
use kheadless_krdp.AbstractSession.{
  AbstractSession, request_streaming_enable, request_streaming_disable, set_video_frame_rate,
}
use kheadless_krdp.VideoStream.{VideoStream, set_enabled}
use kheadless_krdp.FrameRate.{FrameRate, update_requested_frame_rate}

-- The stream as a QObject that requests streaming is the number `requester`.
pub record Joined : Type 0 where
  pub requester : ℕ
  pub session : AbstractSession
  pub stream : VideoStream
  pub rate : FrameRate
  pub enabled_queued : ℕ
  pub rate_queued : ℕ

-- What a connection's thread does with the stream.
unfoldable pub stream_set_enabled : Bool → Joined → Joined
unfolding set_enabled
stream_set_enabled enabled j =
    let t = set_enabled enabled j.stream in
    record j {
      stream = t;
      enabled_queued = j.enabled_queued + (length t.signals - length j.stream.signals);
    }

unfoldable pub stream_update_rate : (now average_rtt : ℕ) (frame_delay : ℤ) → Joined → Joined
unfolding update_requested_frame_rate
stream_update_rate now average_rtt frame_delay j =
    let t = update_requested_frame_rate now average_rtt frame_delay j.rate in
    record j { rate = t; rate_queued = j.rate_queued + (t.announced - j.rate.announced) }

unfoldable pub on_video_stream_enabled_changed : Joined → Joined
unfolding request_streaming_enable request_streaming_disable
on_video_stream_enabled_changed j = record j {
  session =
      if j.stream.enabled
      then request_streaming_enable j.requester j.session
      else request_streaming_disable j.requester j.session;
}

unfoldable pub on_requested_frame_rate_changed : Joined → Joined
unfolding set_video_frame_rate
on_requested_frame_rate_changed j = record j {
  session = set_video_frame_rate j.rate.requested_frame_rate j.session;
}

-- The cursor of the connection, unless that is gone.
pub on_cursor_update :
    (streaming : Bool) (limit now : ℕ) → Point → Image → Option Cursor → Option Cursor
on_cursor_update streaming limit now hotspot texture none = none
on_cursor_update streaming limit now hotspot texture (some cursor) =
    Cursor.update streaming limit now hotspot texture cursor
