-- ===== src/VideoStream/Send.antt =====
-- performReset and sendFrame of src/VideoStream.cpp. `answers` stands for FreeRDP: whether it answers a
-- call of the graphics channel with CHANNEL_RC_OK, which may depend on all that was sent before.
pub mod Surfaces
pub mod Resets
pub mod Pdus
pub mod Delivery
pub mod Queue
mod Examples
use Prim.Native.Nat.{bit_or}
use kheadless_krdp.Prelude.{
  ℕ, suc, ◌+◌, ◌*◌, ◌%◌, ◌^◌, Bool, true, false, ◌||◌, not, Option, none, some, List, [], ◌∷◌, ◌++◌,
  map, ◌==◌, if◌then◌else◌, length, get_elem?,
}
use kheadless_krdp.Prelude.Int.{ℤ, pos, negsuc, ◌+ℤ◌, ◌-ℤ◌}
use kheadless_krdp.Geometry.{Point, Size, Rect, eq_size}
use kheadless_krdp.Monitor.{DisplayMonitor, monitor_rect}
use kheadless_krdp.NetworkDetection.{
  NetworkDetection, start_bandwidth_measure, stop_bandwidth_measure,
}
use kheadless_krdp.VideoStream.{
  RectOperations, Surface, VideoFrame, MonitorDef, Pdu, delete_surface, reset_graphics,
  create_surface, map_surface_to_output, start_frame, surface_command, end_frame, Sent, VideoStream,
  acknowledge,
}

-- now.hour() << 22 | now.minute() << 16 | now.second() << 10 | now.msec().
abbrev pub timestamp : ℕ → ℕ → ℕ → ℕ → ℕ
timestamp hour minute second msec =
    bit_or (bit_or (bit_or (hour * 2 ^ 22) (minute * 2 ^ 16)) (second * 2 ^ 10)) msec

module _ (answers : List Sent → Pdu → Bool) where
  abbrev pub call : Pdu → VideoStream → VideoStream
  call pdu s = record s {
    sent = s.sent ++ record { pdu = pdu; accepted = answers s.sent pdu } ∷ [];
  }

  -- The loop over the old surfaces, whose statuses are not looked at.
  pub delete_surfaces : List Surface → VideoStream → VideoStream
  delete_surfaces [] s = s
  delete_surfaces (surface ∷ rest) s = delete_surfaces rest (call (delete_surface surface.id) s)

  -- One pass of the loop that creates the surfaces.
  pub create_one : Size → Point → VideoStream → VideoStream × Bool
  create_one size position s =
      let id = s.next_surface_id in
      let created =
        call (create_surface id size) (record s { next_surface_id = (id + 1) % 2 ^ 16 }) in
      if answers s.sent (create_surface id size)
      then (let kept = record created {
        surfaces = s.surfaces ++ record { id = id; size = size } ∷ [];
      } in
          (
            call (map_surface_to_output id position) kept,
            answers kept.sent (map_surface_to_output id position),
          ))
      else (created, false)

  pub create_surfaces : List (Size × Point) → VideoStream → VideoStream × Bool
  create_surfaces [] s = (s, true)
  create_surfaces ((size, position) ∷ rest) s = elim (create_one size position s).1 [
    | true ↦ create_surfaces rest (create_one size position s).0
    | false ↦ ((create_one size position s).0, false)
  ]

-- The layout that a reset goes by: with none set, one monitor of the frame's size.
abbrev pub effective_layout : List DisplayMonitor → Size → List DisplayMonitor
effective_layout [] size =
    record {
      position = record { x = pos 0; y = pos 0 };
      size = size;
      physical_size = record { width = negsuc 0; height = negsuc 0 };
      orientation = 0;
      desktop_scale_factor = 100;
      device_scale_factor = 100;
      primary = true;
    }
    ∷ []
effective_layout (m ∷ ms) size = m ∷ ms

-- `frame.outputIndex >= 0`, with the index as a number.
abbrev pub output : ℤ → Option ℕ
output (pos n) = some n
output (negsuc n) = none

-- MONITOR_DEF has inclusive right and bottom edges.
abbrev monitor_def : DisplayMonitor → MonitorDef
monitor_def m = record {
  left = m.position.x;
  top = m.position.y;
  right = m.position.x +ℤ m.size.width -ℤ pos 1;
  bottom = m.position.y +ℤ m.size.height -ℤ pos 1;
  primary = m.primary;
}

abbrev minus : Point → Point → Point
minus p q = record { x = p.x -ℤ q.x; y = p.y -ℤ q.y }

abbrev pub has_size : Size → Option DisplayMonitor → Bool
has_size size none = false
has_size size (some m) = eq_size m.size size

module _ (rects : RectOperations) where
  pub unite : Rect → List DisplayMonitor → Rect
  unite r [] = r
  unite r (m ∷ ms) = unite (rects.united r (monitor_rect m)) ms

  abbrev pub desktop_geometry : List DisplayMonitor → Rect
  desktop_geometry layout = unite rects.null_rect layout

  -- Whether the frame was encoded for the layout.
  abbrev pub fits_layout : List DisplayMonitor → Option ℕ → Size → Bool
  fits_layout layout (some index) size = has_size size (get_elem? layout index)
  fits_layout layout none size = eq_size (desktop_geometry layout).size size

  -- What the second loop creates: the size of each surface and its place on the output.
  abbrev pub targets : List DisplayMonitor → Option ℕ → List (Size × Point)
  targets layout (some index) =
      map (λ m. (m.size, minus m.position (desktop_geometry layout).position)) layout
  targets layout none = ((desktop_geometry layout).size, record { x = pos 0; y = pos 0 }) ∷ []

module _ (answers : List Sent → Pdu → Bool) (rects : RectOperations) where
  abbrev pub reset_pdu : List DisplayMonitor → Pdu
  reset_pdu layout = reset_graphics (desktop_geometry rects layout).size (map monitor_def layout)

  abbrev pub cleared : VideoStream → VideoStream
  cleared s = record (delete_surfaces answers s.surfaces s) { surfaces = [] }

  -- The part of performReset behind its tests.
  pub rebuild : List DisplayMonitor → Option ℕ → VideoStream → VideoStream × Bool
  rebuild layout index s =
      let emptied = cleared s in
      let t = call answers (reset_pdu layout) emptied in
      if answers emptied.sent (reset_pdu layout)
      then create_surfaces answers (targets rects layout index) t
      else (t, false)

  unfoldable pub perform_reset : VideoFrame → VideoStream → VideoStream × Bool
  unfolding rebuild
  perform_reset frame s =
      let layout = effective_layout s.monitor_layout frame.size in
      if fits_layout rects layout (output frame.output_index) frame.size
      then rebuild layout (output frame.output_index) s
      else (s, false)

  -- `if (pendingReset) { if (!performReset(frame)) return; pendingReset = false; }`
  pub prepare : VideoFrame → VideoStream → VideoStream × Bool
  unfolding perform_reset
  prepare frame s =
      if s.pending_reset
      then (let r = perform_reset frame s in
          if r.1 then (record (r.0) { pending_reset = false }, true) else r)
      else (s, true)

  abbrev pub surface_index : VideoFrame → ℕ
  surface_index frame = elim (output frame.output_index) [ none ↦ 0 | some index ↦ index ]

  -- The part of sendFrame behind its last test, with the surface that it found.
  pub submit : ℕ → VideoFrame → Surface → VideoStream → VideoStream
  submit time frame surface s =
      let id = s.frame_id in
      let counted = record s {
        frame_id = (id + 1) % 2 ^ 32;
        encoded_frames = s.encoded_frames + 1;
        pending_frames = id ∷ acknowledge id s.pending_frames;
      } in
      call answers (end_frame id) (
        call answers (surface_command surface.id frame.size frame.payload)
          (call answers (start_frame id time) counted))

  -- The surface for the frame, if it has one of its size.
  pub surface_for : VideoFrame → List Surface → Option Surface
  surface_for frame surfaces = elim (get_elem? surfaces (surface_index frame)) [
    | none ↦ none
    | some surface ↦ if eq_size surface.size frame.size then some surface else none
  ]

  -- The frame is sent to its surface between the two ends of a bandwidth measurement, or dropped.
  pub deliver : ℕ → VideoFrame → VideoStream → NetworkDetection → VideoStream × NetworkDetection
  deliver time frame s network = elim (surface_for frame s.surfaces) [
    | none ↦ (s, network)
    | some surface ↦
        (submit time frame surface s, stop_bandwidth_measure (start_bandwidth_measure network))
  ]

  -- `time` is the timestamp of now.
  unfoldable pub send_frame :
      ℕ → VideoFrame → VideoStream → NetworkDetection → VideoStream × NetworkDetection
  unfolding prepare deliver surface_for submit
  send_frame time frame s network =
      if not s.has_context || not s.caps_confirmed || length frame.payload == 0
      then (s, network)
      else (let r = prepare frame s in
          if r.1 then deliver time frame r.0 network else (r.0, network))
