-- ===== src/VideoStream.antt =====
-- src/VideoStream.cpp: the surfaces, the frame queue and the frames in flight. A call of the graphics
-- channel is a Pdu appended to `sent`, with whether FreeRDP answered CHANNEL_RC_OK. A Pdu holds the values that the code
-- assigns, before their conversion to FreeRDP's field types.
pub mod Send
pub mod Updates
pub mod Submission
mod Examples
use kheadless_krdp.Prelude.{
  ℕ, suc, ◌+◌, ◌-◌, ◌*◌, ◌%◌, ◌^◌, ◌<◌, Bool, true, false, ◌&&◌, ◌||◌, not, Option, none, some,
  List, [], ◌∷◌, ◌++◌, map, leb, ltb, ◌==◌, if◌then◌else◌, length, get_elem?,
}
use kheadless_krdp.Prelude.Int.{ℤ, pos, negsuc, ◌+ℤ◌, ◌-ℤ◌, leb_ℤ}
use kheadless_krdp.Geometry.{Point, Size, Rect, eq_size}
use kheadless_krdp.Monitor.{DisplayMonitor, eq_layout, monitor_rect}

-- QRect() and QRect::united.
pub record RectOperations : Type 0 where
  pub null_rect : Rect
  pub united : Rect → Rect → Rect

pub record Surface : Type 0 where
  pub id : ℕ
  pub size : Size

-- The members of VideoFrame that the stream reads; `payload` is its QByteArray `data`.
pub record VideoFrame : Type 0 where
  pub size : Size
  pub output_index : ℤ
  pub payload : List ℕ

-- MONITOR_DEF; `primary` is its MONITOR_PRIMARY flag.
pub record MonitorDef : Type 0 where
  pub left : ℤ
  pub top : ℤ
  pub right : ℤ
  pub bottom : ℤ
  pub primary : Bool

pub data Pdu : Type 0 where
  delete_surface : (id : ℕ) → Pdu
  reset_graphics : Size → List MonitorDef → Pdu
  create_surface : (id : ℕ) → Size → Pdu
  map_surface_to_output : (id : ℕ) → Point → Pdu
  start_frame : (frame timestamp : ℕ) → Pdu
  surface_command : (surface : ℕ) → Size → List ℕ → Pdu
  end_frame : (frame : ℕ) → Pdu

pub record Sent : Type 0 where
  pub pdu : Pdu
  pub accepted : Bool

-- VideoStream::Private, with the signals emitted so far: the frame rate estimate is in FrameRate.
pub data Signal : Type 0 where
  monitor_layout_changed enabled_changed closed : Signal

pub record VideoStream : Type 0 where
  pub has_context : Bool
  pub frame_id : ℕ
  pub channel_id : ℕ
  pub next_surface_id : ℕ
  pub surfaces : List Surface
  pub pending_reset : Bool
  pub enabled : Bool
  pub caps_confirmed : Bool
  pub frame_queue : List VideoFrame
  pub monitor_layout : List DisplayMonitor
  pub pending_frames : List ℕ
  pub encoded_frames : ℕ
  pub frame_delay : ℤ
  pub sent : List Sent
  pub signals : List Signal

abbrev pub initial : VideoStream
initial = record {
  has_context = false;
  frame_id = 0;
  channel_id = 0;
  next_surface_id = 1;
  surfaces = [];
  pending_reset = true;
  enabled = false;
  caps_confirmed = false;
  frame_queue = [];
  monitor_layout = [];
  pending_frames = [];
  encoded_frames = 0;
  frame_delay = pos 0;
  sent = [];
  signals = [];
}

-- `streaming`: the session's state is Streaming.
unfoldable pub queue_frame : Bool → VideoFrame → VideoStream → VideoStream
queue_frame streaming frame s =
    if not streaming || not s.enabled
    then s
    else record s { frame_queue = s.frame_queue ++ frame ∷ [] }

pub reset : VideoStream → VideoStream
reset s = record s { pending_reset = true }

unfoldable pub set_monitor_layout : List DisplayMonitor → VideoStream → VideoStream
unfolding reset
set_monitor_layout monitors s =
    if eq_layout s.monitor_layout monitors
    then s
    else (let t = reset (record s { monitor_layout = monitors; frame_queue = [] }) in
        record t { signals = t.signals ++ monitor_layout_changed ∷ [] })

same_bool : Bool → Bool → Bool
same_bool true true = true
same_bool false false = true
same_bool _ _ = false

unfoldable pub set_enabled : Bool → VideoStream → VideoStream
unfolding same_bool
set_enabled enabled s =
    if same_bool s.enabled enabled
    then s
    else record s { enabled = enabled; signals = s.signals ++ enabled_changed ∷ [] }

pub is_pending : ℕ → List ℕ → Bool
is_pending id [] = false
is_pending id (f ∷ fs) = f == id || is_pending id fs

pub acknowledge : ℕ → List ℕ → List ℕ
acknowledge id [] = []
acknowledge id (f ∷ fs) = let rest = acknowledge id fs in if f == id then rest else f ∷ rest

-- The value of the int that a uint32_t is converted to.
abbrev to_int : ℕ → ℤ
to_int w = if ltb w (2 ^ 31) then pos w else negsuc (2 ^ 32 - w - 1)

-- `encodedFrames - totalFramesDecoded` is computed in uint32_t and stored in an int.
unfoldable pub on_frame_acknowledge : ℕ → ℕ → VideoStream → VideoStream
unfolding is_pending acknowledge
on_frame_acknowledge id total_frames_decoded s =
    if is_pending id s.pending_frames
    then record s {
      frame_delay = to_int ((s.encoded_frames + 2 ^ 32 - total_frames_decoded) % 2 ^ 32);
      pending_frames = acknowledge id s.pending_frames;
    }
    else s
