-- ===== src/Connection/Loop.antt =====
-- RdpConnection::run of src/RdpConnection.cpp. What FreeRDP answers in one pass of the loop is a Turn.
pub mod Passes
pub mod Order
pub mod Closing
pub mod Suppression
pub mod Examples
use kheadless_krdp.Prelude.{
  ℕ, Bool, true, false, ◌&&◌, ◌||◌, not, List, [], ◌∷◌, ◌==◌, if◌then◌else◌,
}
use kheadless_krdp.Geometry.{Rect}
use kheadless_krdp.DisplayControl.{DispConstants}
use kheadless_krdp.DisplayControl.Requests as Display
use kheadless_krdp.DisplayControl.Requests.{MonitorSettings}
use kheadless_krdp.VideoStream as Video
use kheadless_krdp.VideoStream.Submission as Stream
use kheadless_krdp.Clipboard as Clip
use kheadless_krdp.Connection.{
  Connection, running, streaming, set_state, on_suppress_output, PostConnect, on_post_connect,
  on_close,
}

-- DRDYNVC_STATE_READY, DRDYNVC_STATE_NONE and the others.
pub data DrdynvcState : Type 0 where
  ready none_yet in_progress : DrdynvcState

-- What FreeRDP calls while it reads from the socket.
pub data Callback : Type 0 where
  suppresses_output : (allow : Bool) → Callback
  connects : PostConnect → Callback

-- What one pass of the thread's loop meets: the answers to its questions and to the channels that it opens.
pub record Turn : Type 0 where
  pub stop_requested : Bool
  pub handle_count : ℕ
  pub descriptor_checked : Bool
  pub callbacks : List Callback
  pub connected : Bool
  pub drdynvc_joined : Bool
  pub drdynvc_state : DrdynvcState
  pub display_created : Bool
  pub display_opened : Bool
  pub display_advertised : Bool
  pub settings : MonitorSettings
  pub video_created : Bool
  pub video_opened : Bool
  pub channel_signalled : Bool
  pub manager_checked : Bool
  pub cliprdr_joined : Bool
  pub clipboard_created : Bool
  pub clipboard_started : Bool

module _ (same : List ℕ → List ℕ → Bool) where
  abbrev pub call_back : Callback → Connection → Connection
  call_back (suppresses_output allow) c = on_suppress_output allow c
  call_back (connects p) c = on_post_connect same p c

  pub call_all : List Callback → Connection → Connection
  call_all [] c = c
  call_all (callback ∷ callbacks) c = call_all callbacks (call_back callback c)

module _ (constants : DispConstants) (intersects : Rect → Rect → Bool) where
  -- The two calls of the dynamic channels; the result says whether the loop goes on.
  pub open_display : Turn → Connection → Connection × Bool
  open_display t c =
      let r =
        Display.initialize constants intersects t.display_created t.display_opened
          t.display_advertised t.settings c.display in
      (record c { display = r.0 }, r.1)

  pub open_video : Turn → Connection → Connection × Bool
  unfolding set_state
  open_video t c =
      let r = Stream.initialize t.video_created t.video_opened c.stream in
      if r.1
      then (
        set_state streaming
            (record c { stream = record (r.0) { video = Video.set_enabled true r.0.video } }),
        true,
      )
      else (record c { stream = r.0 }, false)

  pub open_dynamic_channels : Turn → Connection → Connection × Bool
  unfolding open_display open_video
  open_dynamic_channels t c =
      if t.connected && t.drdynvc_joined
      then elim t.drdynvc_state [
        | ready ↦
            if (open_display t c).1 then open_video t (open_display t c).0 else open_display t c
        | none_yet ↦ (c, true)
        | in_progress ↦ (c, true)
      ]
      else (c, true)

  -- SetEvent while there is no dynamic channel yet lets the manager be checked.
  abbrev is_signalled : Turn → Bool
  is_signalled t =
      t.channel_signalled
      || (t.connected
          && t.drdynvc_joined
          && (elim t.drdynvc_state [ ready ↦ false | none_yet ↦ true | in_progress ↦ false ]))

  pub open_clipboard : Turn → Connection → Connection × Bool
  open_clipboard t c =
      let r = Clip.initialize t.clipboard_created t.clipboard_started c.clipboard in
      if t.connected && t.cliprdr_joined then (record c { clipboard = r.0 }, r.1) else (c, true)

  -- The part of a pass behind the dynamic channels.
  pub open_static_channels : Turn → Connection → Connection × Bool
  unfolding open_clipboard
  open_static_channels t c =
      if is_signalled t && not t.manager_checked then (c, false) else open_clipboard t c

  module _ (same : List ℕ → List ℕ → Bool) where
    -- One pass of the loop; the result says whether the loop goes on.
    pub turn : Turn → Connection → Connection × Bool
    unfolding call_all open_dynamic_channels open_static_channels
    turn t c =
        if t.handle_count == 0
        then (c, false)
        else (let called = call_all same t.callbacks c in
            if not t.descriptor_checked
            then (called, false)
            else (let r = open_dynamic_channels t called in
                if r.1 then open_static_channels t r.0 else r))

    -- The loop and what follows it. The result says whether it has ended; if not, it waits for a further turn.
    pub loop : List Turn → Connection → Connection × Bool
    unfolding turn
    loop [] c = (c, false)
    loop (t ∷ turns) c =
        let rest = loop turns (turn t c).0 in
        if t.stop_requested
        then (on_close c, true)
        else if (turn t c).1
        then rest
        else (on_close (turn t c).0, true)

    unfoldable pub run : List Turn → Connection → Connection × Bool
    unfolding set_state loop
    run turns c = loop turns (set_state running c)
