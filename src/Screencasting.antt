-- ===== src/Screencasting.antt =====
-- src/screencasting.cpp: the streams that are requested of KWin. Whether the Wayland extension is active and which screens
-- there are is an argument, and so is QRect::united.
pub mod Workspace
pub mod Examples
use kheadless_krdp.Prelude.{
  ℕ, Bool, true, false, not, Option, none, some, List, [], ◌∷◌, if◌then◌else◌,
}
use kheadless_krdp.Geometry.{Point, Size, Rect}
use kheadless_krdp.AbstractSession.{invalid_size}
use kheadless_krdp.VideoStream.{RectOperations}

-- QScreen, with whether it has a wl_output.
pub record OutputScreen : Type 0 where
  pub name : List ℕ
  pub geometry : Rect
  pub virtual_size : Size
  pub has_output : Bool

-- The requests of the protocol. A scale is a wl_fixed_t by the number it is made from.
pub data CastRequest : Type 0 where
  stream_output : (name : List ℕ) → CastRequest
  stream_region : Point → Size → (scale : ℕ) → CastRequest
  stream_virtual_output : (name : List ℕ) → Size → (scale : ℕ) → CastRequest

-- ScreencastingStream with its private part, and the request that it was made from.
pub record ScreencastingStream : Type 0 where
  pub object_name : List ℕ
  pub node_id : ℕ
  pub size : Size
  pub request : CastRequest

-- A new stream: m_nodeId is 0 and m_size is QSize().
abbrev pub new_stream : CastRequest → ScreencastingStream
new_stream request = record {
  object_name = [];
  node_id = 0;
  size = invalid_size;
  request = request;
}

-- The loop over the screens.
pub unite_screens : RectOperations → Rect → List OutputScreen → Rect
unite_screens rects r [] = r
unite_screens rects r (screen ∷ screens) =
    unite_screens rects (rects.united r screen.geometry) screens

module _ (active : Bool) where
  pub create_output_stream : OutputScreen → Option ScreencastingStream
  create_output_stream screen =
      if not active
      then none
      else if not screen.has_output
      then none
      else some (record (new_stream (stream_output screen.name)) {
        object_name = screen.name;
        size = screen.virtual_size;
      })

  pub create_region_stream : Rect → ℕ → Option ScreencastingStream
  create_region_stream g scale =
      if not active
      then none
      else some (record (new_stream (stream_region g.position g.size scale)) { size = g.size })

  unfoldable pub create_virtual_monitor_stream : List ℕ → Size → ℕ → Option ScreencastingStream
  create_virtual_monitor_stream name resolution dpr =
      if not active then none else some (new_stream (stream_virtual_output name resolution dpr))

  module _ (rects : RectOperations) where
    unfoldable pub create_workspace_stream : List OutputScreen → Option ScreencastingStream
    unfolding create_output_stream create_region_stream unite_screens
    create_workspace_stream [] = none
    create_workspace_stream (screen ∷ []) = create_output_stream screen
    create_workspace_stream (a ∷ b ∷ rest) =
        create_region_stream (unite_screens rects rects.null_rect (a ∷ b ∷ rest)) 1

-- The signal `created` of the protocol's object.
unfoldable pub on_created : ℕ → ScreencastingStream → ScreencastingStream
on_created node s = record s { node_id = node }
