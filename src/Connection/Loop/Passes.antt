-- ===== src/Connection/Loop/Passes.antt =====
-- src/RdpConnection.cpp: what each pass of the loop keeps of the states of a connection.
use kheadless_krdp.Prelude.{ℕ, ◌≡◌, ◌⊎◌, Bool, true, List, [], ◌∷◌, arith}
use kheadless_krdp.Geometry.{Rect}
use kheadless_krdp.DisplayControl.{DispConstants}
use kheadless_krdp.DisplayControl.Requests.Context.{initialize-context}
use kheadless_krdp.VideoStream as Video
use kheadless_krdp.VideoStream.Submission as Stream
use kheadless_krdp.Connection.{
  Connection, starting, running, streaming, set_state, on_suppress_output, on_post_connect,
}
use kheadless_krdp.Connection.Loop.{
  Turn, Callback, suppresses_output, connects, call_back, call_all, open_display, open_video,
  open_dynamic_channels, open_clipboard, open_static_channels, turn,
}

-- The states that were announced, and that the connection is in the last of them.
abbrev pub IsRunning : Connection → Type 0
IsRunning c = (c.state ≡ running) × (c.announced ≡ starting ∷ running ∷ [])

abbrev pub IsStreaming : Connection → Type 0
IsStreaming c = (c.state ≡ streaming) × (c.announced ≡ starting ∷ running ∷ streaming ∷ [])

abbrev pub IsAnnounced : Connection → Type 0
IsAnnounced c = IsRunning c ⊎ IsStreaming c

-- The submission thread runs where there is a graphics channel.
abbrev pub IsSubmitting : Connection → Type 0
IsSubmitting c = c.stream.video.has_context ≡ c.stream.submitting

abbrev pub HasChannels : Connection → Type 0
HasChannels c = (c.display.has_context ≡ true) × (c.stream.video.has_context ≡ true)

abbrev pub IsUnderWay : Connection → Type 0
IsUnderWay c = IsSubmitting c × (IsRunning c ⊎ IsStreaming c × HasChannels c)

module _ (constants : DispConstants) (intersects : Rect → Rect → Bool)
    (same : List ℕ → List ℕ → Bool) where
  call_back-IsUnderWay :
      (callback : Callback) (c : Connection) → IsUnderWay c → IsUnderWay (call_back same callback c)
  unfolding on_suppress_output on_post_connect Video.set_enabled
  call_back-IsUnderWay (suppresses_output allow) c h = ground arith
  call_back-IsUnderWay (connects p) c h = h

  call_all-IsUnderWay :
      (callbacks : List Callback) (c : Connection)
      → IsUnderWay c
      → IsUnderWay (call_all same callbacks c)
  unfolding call_all
  call_all-IsUnderWay [] c h = h
  call_all-IsUnderWay (callback ∷ callbacks) c h =
      call_all-IsUnderWay callbacks (call_back same callback c) (call_back-IsUnderWay callback c h)

  call_back-IsAnnounced :
      (callback : Callback) (c : Connection)
      → IsAnnounced c
      → IsAnnounced (call_back same callback c)
  unfolding on_suppress_output on_post_connect
  call_back-IsAnnounced (suppresses_output allow) c h = h
  call_back-IsAnnounced (connects p) c h = h

  call_all-IsAnnounced :
      (callbacks : List Callback) (c : Connection)
      → IsAnnounced c
      → IsAnnounced (call_all same callbacks c)
  unfolding call_all
  call_all-IsAnnounced [] c h = h
  call_all-IsAnnounced (callback ∷ callbacks) c h =
      call_all-IsAnnounced callbacks (call_back same callback c)
        (call_back-IsAnnounced callback c h)

  open_display-IsUnderWay :
      (t : Turn) (c : Connection)
      → (open_display constants intersects t c).1 ≡ true
      → IsUnderWay c
      → IsUnderWay (open_display constants intersects t c).0
        × ((open_display constants intersects t c).0.display.has_context ≡ true)
  unfolding open_display
  open_display-IsUnderWay t c g h = ground (
    arith,
    initialize-context constants intersects t.display_created t.display_opened t.display_advertised
        t.settings c.display,
  )

  open_display-IsAnnounced :
      (t : Turn) (c : Connection)
      → IsAnnounced c
      → IsAnnounced (open_display constants intersects t c).0
  unfolding open_display
  open_display-IsAnnounced t c h = h

  open_video-IsUnderWay :
      (t : Turn) (c : Connection)
      → (open_video constants intersects t c).1 ≡ true
      → c.display.has_context ≡ true
      → IsUnderWay c
      → IsUnderWay (open_video constants intersects t c).0
  unfolding open_video set_state Stream.initialize Video.set_enabled
  open_video-IsUnderWay t c g d h = ground arith

  open_video-IsAnnounced :
      (t : Turn) (c : Connection)
      → IsAnnounced c
      → IsAnnounced (open_video constants intersects t c).0
  unfolding open_video set_state Stream.initialize Video.set_enabled
  open_video-IsAnnounced t c h = ground arith

  open_dynamic_channels-IsUnderWay :
      (t : Turn) (c : Connection)
      → (open_dynamic_channels constants intersects t c).1 ≡ true
      → IsUnderWay c
      → IsUnderWay (open_dynamic_channels constants intersects t c).0
  unfolding open_dynamic_channels
  open_dynamic_channels-IsUnderWay t c g h =
      let shown = (open_display constants intersects t c).0 in
      ground (arith, open_display-IsUnderWay t c, open_video-IsUnderWay t shown)

  open_dynamic_channels-IsAnnounced :
      (t : Turn) (c : Connection)
      → IsAnnounced c
      → IsAnnounced (open_dynamic_channels constants intersects t c).0
  unfolding open_dynamic_channels
  open_dynamic_channels-IsAnnounced t c h = ground (
    arith,
    open_display-IsAnnounced t c h,
    open_video-IsAnnounced t (open_display constants intersects t c).0
        (open_display-IsAnnounced t c h),
  )

  open_static_channels-keeps :
      (t : Turn) (c : Connection)
      → (IsUnderWay c → IsUnderWay (open_static_channels constants intersects t c).0)
        × (IsAnnounced c → IsAnnounced (open_static_channels constants intersects t c).0)
  unfolding open_static_channels open_clipboard
  open_static_channels-keeps t c = ground arith

  pub turn-IsUnderWay :
      (t : Turn) (c : Connection)
      → (turn constants intersects same t c).1 ≡ true
      → IsUnderWay c
      → IsUnderWay (turn constants intersects same t c).0
  unfolding turn
  turn-IsUnderWay t c g h =
      let called = call_all same t.callbacks c in
      let opened = (open_dynamic_channels constants intersects t called).0 in
      ground (
        arith,
        call_all-IsUnderWay t.callbacks c h,
        open_dynamic_channels-IsUnderWay t called,
        (open_static_channels-keeps t opened).0,
      )

  pub turn-IsAnnounced :
      (t : Turn) (c : Connection)
      → IsAnnounced c
      → IsAnnounced (turn constants intersects same t c).0
  unfolding turn
  turn-IsAnnounced t c h =
      let called = call_all same t.callbacks c in
      let opened = (open_dynamic_channels constants intersects t called).0 in
      let announced = call_all-IsAnnounced t.callbacks c h in
      let opened_announced = open_dynamic_channels-IsAnnounced t called announced in
      ground (
        arith,
        h,
        announced,
        opened_announced,
        (open_static_channels-keeps t opened).1 opened_announced,
      )
