-- ===== src/Plasma/Casting.antt =====
-- src/PlasmaScreencastV1Session.cpp with src/screencasting.cpp: a session and the stream that it requests.
use kheadless_krdp.Prelude.{
  ℕ, ◌≡◌, refl, ap, ◌∙◌, Bool, true, false, Option, none, some, List, [], arith,
}
use kheadless_krdp.Prelude.Int.{ℤ}
use kheadless_krdp.Geometry.{Size}
use kheadless_krdp.Input.{InputEvent}
use kheadless_krdp.AbstractSession.{EncodedStream, VirtualMonitor, invalid_size}
use kheadless_krdp.VideoStream.{RectOperations}
use kheadless_krdp.VideoStream.Submission.{is_empty}
use kheadless_krdp.Screencasting.{
  OutputScreen, ScreencastingStream, new_stream, stream_virtual_output,
  create_virtual_monitor_stream, create_workspace_stream,
}
use kheadless_krdp.Plasma.{LinuxCodes, Keymap, Screen, send_event}
use kheadless_krdp.Plasma.Session.{PlasmaSession, start, on_created, on_created-starts}

-- What there is of KWin: whether its extension is active, and its screens.
pub record Desktop : Type 0 where
  pub active : Bool
  pub screens : List OutputScreen
  pub rects : RectOperations

-- What start requests.
abbrev pub request_stream : Desktop → Option VirtualMonitor → Option ScreencastingStream
request_stream d (some monitor) =
    create_virtual_monitor_stream d.active monitor.name monitor.size monitor.device_pixel_ratio
request_stream d none = create_workspace_stream d.active d.rects d.screens

abbrev pub is_provided : Option ScreencastingStream → Bool
is_provided none = false
is_provided (some s) = true

-- The signal `created`, which takes the size from the stream, if there is one.
abbrev pub receive_created : ℕ → Option ScreencastingStream → PlasmaSession → Option PlasmaSession
receive_created node_id none s = some s
receive_created node_id (some request) s = on_created node_id request.size s

-- start, and the signal `created` of the stream that it gets.
unfoldable pub begin :
    Desktop → (message : List ℕ) (node_id : ℕ) → PlasmaSession → Option PlasmaSession
begin d message node_id s =
    let request = request_stream d s.session.virtual_monitor in
    receive_created node_id request (start (is_provided request) message s)

abbrev has_stream : Option EncodedStream → Bool
has_stream none = false
has_stream (some e) = true

-- What sendEvent looks at; `size` is what the encoder has last told.
abbrev pub screen_of : (interface_active : Bool) (size : Size) → PlasmaSession → Screen
screen_of interface_active size s = record {
  has_stream = has_stream s.session.encoded_stream;
  interface_active = interface_active;
  size = size;
  logical_size = s.session.logical_size;
}

request_stream-virtual :
    (d : Desktop) (v : Option VirtualMonitor) (monitor : VirtualMonitor)
    → d.active ≡ true
    → v ≡ some monitor
    → (request : ScreencastingStream) × (request_stream d v ≡ some request)
      × (request.size ≡ invalid_size)
unfolding create_virtual_monitor_stream
request_stream-virtual d v monitor active m = (
  new_stream (stream_virtual_output monitor.name monitor.size monitor.device_pixel_ratio),
  ap (request_stream d) m ∙ rw active refl,
  refl,
)

begin-logical_size :
    (d : Desktop) (message : List ℕ) (node_id : ℕ) (s : PlasmaSession) (monitor : VirtualMonitor)
    → d.active ≡ true
    → s.session.virtual_monitor ≡ some monitor
    → (t : PlasmaSession) × (begin d message node_id s ≡ some t)
      × (t.session.started ≡ true)
      × (t.session.logical_size ≡ invalid_size)
unfolding begin
begin-logical_size d message node_id s monitor active m =
    let (request, made, unset) =
      request_stream-virtual d s.session.virtual_monitor monitor active m in
    let (t, e, started, _, size) = on_created-starts node_id request.size (start true message s) in
    (
      t,
      ap (λ r. receive_created node_id r (start (is_provided r) message s)) made ∙ e,
      started,
      size ∙ unset,
    )

module _ {ℓ} {Real : Type ℓ} (scale : ℕ → ℤ → ℤ → Real) (codes : LinuxCodes) (keymap : Keymap) where
  send_event-invalid :
      (screen : Screen) (event : InputEvent)
      → screen.logical_size ≡ invalid_size
      → send_event scale codes keymap screen event ≡ []
  unfolding send_event
  send_event-invalid screen event e =
      let empty : is_empty screen.logical_size ≡ true = ap is_empty e in rw empty (ground arith)

  -- A session with a virtual monitor, which KWin provides, forwards no input at all: it starts, but whatever size its
  -- encoder has and whatever event it is sent, it makes no request.
  pub virtual_monitor-ignores_input :
      (d : Desktop) (message : List ℕ) (node_id : ℕ) (s : PlasmaSession) (monitor : VirtualMonitor)
      (interface_active : Bool) (size : Size) (event : InputEvent)
      → d.active ≡ true
      → s.session.virtual_monitor ≡ some monitor
      → (t : PlasmaSession) × (begin d message node_id s ≡ some t)
        × (t.session.started ≡ true)
        × (send_event scale codes keymap (screen_of interface_active size t) event ≡ [])
  virtual_monitor-ignores_input d message node_id s monitor interface_active size event active m =
      let (t, e, started, unset) = begin-logical_size d message node_id s monitor active m in
      (t, e, started, send_event-invalid (screen_of interface_active size t) event unset)
