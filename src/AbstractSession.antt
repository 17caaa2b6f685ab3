-- ===== src/AbstractSession.antt =====
-- src/AbstractSession.cpp: what every session keeps, and who wants it to stream. A PipeWireEncodedStream is given by what
-- it was last told. The QObject that requests streaming is a number.
pub mod Streaming
pub mod Wanted
mod Examples
use kheadless_krdp.Prelude.{
  ℕ, ◌+◌, Bool, true, false, ◌&&◌, ◌||◌, not, Option, none, some, List, [], ◌∷◌, ◌==◌,
  if◌then◌else◌, length,
}
use kheadless_krdp.Prelude.Int.{ℤ, negsuc}
use kheadless_krdp.Geometry.{Size}

-- `max_framerate` is a fraction over 1.
pub record EncodedStream : Type 0 where
  pub active : Bool
  pub max_framerate : Option ℕ
  pub max_pending_frames : Option ℕ
  pub quality : Option ℕ

-- The ratio is a qreal that is only handed on.
pub record VirtualMonitor : Type 0 where
  pub name : List ℕ
  pub size : Size
  pub device_pixel_ratio : ℕ

-- AbstractSession::Private, with the number of `started` signals.
pub record AbstractSession : Type 0 where
  pub encoded_stream : Option EncodedStream
  pub active_stream : Option ℤ
  pub virtual_monitor : Option VirtualMonitor
  pub started : Bool
  pub enabled : Bool
  pub size : Size
  pub logical_size : Size
  pub frame_rate : Option ℕ
  pub quality : Option ℕ
  pub enable_requests : List ℕ
  pub announced : ℕ

-- QSize().
abbrev pub invalid_size : Size
invalid_size = record { width = negsuc 0; height = negsuc 0 }

abbrev pub initial : AbstractSession
initial = record {
  encoded_stream = none;
  active_stream = none;
  virtual_monitor = none;
  started = false;
  enabled = false;
  size = invalid_size;
  logical_size = invalid_size;
  frame_rate = some 60;
  quality = none;
  enable_requests = [];
  announced = 0;
}

-- activeStream.value_or(-1).
abbrev pub active_stream_or : AbstractSession → ℤ
active_stream_or s = elim s.active_stream [ none ↦ negsuc 0 | some index ↦ index ]

unfoldable pub set_active_stream : ℤ → AbstractSession → AbstractSession
set_active_stream index s = record s { active_stream = some index }

unfoldable pub set_virtual_monitor : VirtualMonitor → AbstractSession → AbstractSession
set_virtual_monitor monitor s = record s { virtual_monitor = some monitor }

unfoldable pub set_size : Size → AbstractSession → AbstractSession
set_size size s = record s { size = size }

unfoldable pub set_logical_size : Size → AbstractSession → AbstractSession
set_logical_size size s = record s { logical_size = size }

abbrev pub set_active : Bool → Option EncodedStream → Option EncodedStream
set_active active none = none
set_active active (some e) = some (record e { active = active })

unfoldable pub set_streaming_enabled : Bool → AbstractSession → AbstractSession
set_streaming_enabled enable s = record s {
  enabled = enable;
  encoded_stream = set_active (enable && s.started) s.encoded_stream;
}

abbrev rate_stream : ℕ → Option EncodedStream → Option EncodedStream
rate_stream framerate none = none
rate_stream framerate (some e) =
    some (record e { max_framerate = some framerate; max_pending_frames = some framerate })

unfoldable pub set_video_frame_rate : ℕ → AbstractSession → AbstractSession
set_video_frame_rate framerate s = record s {
  frame_rate = some framerate;
  encoded_stream = rate_stream framerate s.encoded_stream;
}

abbrev grade_stream : ℕ → Option EncodedStream → Option EncodedStream
grade_stream quality none = none
grade_stream quality (some e) = some (record e { quality = some quality })

unfoldable pub set_video_quality : ℕ → AbstractSession → AbstractSession
set_video_quality quality s = record s {
  quality = some quality;
  encoded_stream = grade_stream quality s.encoded_stream;
}

-- A new encoder is not active.
abbrev made : AbstractSession → Option EncodedStream → EncodedStream
made s none = record {
  active = false;
  max_framerate = s.frame_rate;
  max_pending_frames = none;
  quality = s.quality;
}
made s (some e) = e

unfoldable pub stream : AbstractSession → AbstractSession
stream s = record s { encoded_stream = some (made s s.encoded_stream) }

start_stream : Option EncodedStream → AbstractSession → Option AbstractSession
start_stream none s = none
start_stream (some e) s =
    some (record s { encoded_stream = some (record e { active = s.enabled }) })

-- `none` stands for a call through a null pointer.
unfoldable pub set_started : Bool → AbstractSession → Option AbstractSession
unfolding start_stream
set_started false s = some (record s { started = false })
set_started true s =
    start_stream s.encoded_stream (record s { started = true; announced = s.announced + 1 })

pub contains : ℕ → List ℕ → Bool
contains r [] = false
contains r (x ∷ xs) = x == r || contains r xs

pub remove : ℕ → List ℕ → List ℕ
remove r [] = []
remove r (x ∷ xs) = let rest = remove r xs in if x == r then rest else x ∷ rest

unfoldable pub request_streaming_enable : ℕ → AbstractSession → AbstractSession
unfolding set_streaming_enabled remove
request_streaming_enable requester s =
    set_streaming_enabled true
      (record s { enable_requests = requester ∷ remove requester s.enable_requests })

-- Also what the destruction of a requester calls.
unfoldable pub request_streaming_disable : ℕ → AbstractSession → AbstractSession
unfolding set_streaming_enabled remove contains
request_streaming_disable requester s =
    if not (contains requester s.enable_requests)
    then s
    else (let t = record s { enable_requests = remove requester s.enable_requests } in
        if length t.enable_requests == 0 then set_streaming_enabled false t else t)
