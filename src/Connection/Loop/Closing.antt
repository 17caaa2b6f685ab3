-- ===== src/Connection/Loop/Closing.antt =====
-- src/RdpConnection.cpp: the thread ends, and what it has closed by then.
use kheadless_krdp.Prelude.{
  ℕ, ◌≡◌, refl, Bool, true, false, ◌||◌, not, List, [], ◌∷◌, ◌++◌, ◌==◌, if◌then◌else◌, arith,
}
use kheadless_krdp.Geometry.{Rect}
use kheadless_krdp.DisplayControl.{DispConstants}
use kheadless_krdp.DisplayControl.Requests as Display
use kheadless_krdp.VideoStream as Video
use kheadless_krdp.VideoStream.Submission as Stream
use kheadless_krdp.Clipboard as Clip
use kheadless_krdp.Audio as Audio
use kheadless_krdp.Connection.{
  Connection, closed, running, set_state, on_suppress_output, on_post_connect, on_close,
}
use kheadless_krdp.Connection.Loop.{
  Turn, Callback, suppresses_output, connects, call_back, call_all, open_display, open_video,
  open_dynamic_channels, open_clipboard, open_static_channels, turn, loop, run,
}

-- The submission thread runs only where there is a graphics channel.
abbrev pub IsAttached : Connection → Type 0
IsAttached c = (not c.stream.submitting || c.stream.video.has_context) ≡ true

abbrev pub IsClosed : Connection → Type 0
IsClosed c =
    (c.state ≡ closed)
    × (c.display.has_context ≡ false)
    × (c.clipboard.has_context ≡ false)
    × (c.audio.has_context ≡ false)
    × (c.audio.active ≡ false)
    × (c.stream.submitting ≡ false)

on_close-IsClosed : (c : Connection) → IsAttached c → IsClosed (on_close c)
unfolding on_close set_state Display.close Audio.close Clip.close Stream.close
on_close-IsClosed c h = ground arith

module _ (constants : DispConstants) (intersects : Rect → Rect → Bool)
    (same : List ℕ → List ℕ → Bool) where
  call_back-IsAttached :
      (callback : Callback) (c : Connection) → IsAttached c → IsAttached (call_back same callback c)
  unfolding on_suppress_output on_post_connect Video.set_enabled
  call_back-IsAttached (suppresses_output allow) c h = ground arith
  call_back-IsAttached (connects p) c h = h

  call_all-IsAttached :
      (callbacks : List Callback) (c : Connection)
      → IsAttached c
      → IsAttached (call_all same callbacks c)
  unfolding call_all
  call_all-IsAttached [] c h = h
  call_all-IsAttached (callback ∷ callbacks) c h =
      call_all-IsAttached callbacks (call_back same callback c) (call_back-IsAttached callback c h)

  open_dynamic_channels-IsAttached :
      (t : Turn) (c : Connection)
      → IsAttached c
      → IsAttached (open_dynamic_channels constants intersects t c).0
  unfolding open_dynamic_channels open_display open_video set_state Stream.initialize
      Video.set_enabled
  open_dynamic_channels-IsAttached t c h = ground arith

  open_static_channels-IsAttached :
      (t : Turn) (c : Connection)
      → IsAttached c
      → IsAttached (open_static_channels constants intersects t c).0
  unfolding open_static_channels open_clipboard
  open_static_channels-IsAttached t c h = ground arith

  turn-IsAttached :
      (t : Turn) (c : Connection) → IsAttached c → IsAttached (turn constants intersects same t c).0
  unfolding turn
  turn-IsAttached t c h =
      let called = call_all same t.callbacks c in
      let attached = call_all-IsAttached t.callbacks c h in
      let opened = (open_dynamic_channels constants intersects t called).0 in
      let still_attached = open_dynamic_channels-IsAttached t called attached in
      ground
        (arith, attached, still_attached, open_static_channels-IsAttached t opened still_attached)

  -- The pass at which the loop ends because it was asked to stop, has no handles, or cannot read from its peer.
  abbrev pub is_last : Turn → Bool
  is_last t = t.stop_requested || t.handle_count == 0 || not t.descriptor_checked

  is_last-turn :
      (t : Turn) (c : Connection)
      → is_last t ≡ true
      → t.stop_requested ≡ false
      → (turn constants intersects same t c).1 ≡ false
  unfolding turn
  is_last-turn t c l s = ground arith

  -- When the loop has ended, its channels are closed.
  abbrev EndsClosed : Connection × Bool → Type 0
  EndsClosed r = (r.1 ≡ true) × IsClosed r.0

  either-EndsClosed :
      (test : Bool) (r s : Connection × Bool)
      → (test ≡ true → EndsClosed r)
      → (test ≡ false → EndsClosed s)
      → EndsClosed (if test then r else s)
  either-EndsClosed true r s f g = f refl
  either-EndsClosed false r s f g = g refl

  loop-EndsClosed :
      (before after : List Turn) (last : Turn) (c : Connection)
      → is_last last ≡ true
      → IsAttached c
      → EndsClosed (loop constants intersects same (before ++ last ∷ after) c)
  unfolding loop
  loop-EndsClosed [] after last c l h =
      let r = turn constants intersects same last c in
      let rest = loop constants intersects same after r.0 in
      either-EndsClosed last.stop_requested (on_close c, true)
        (if r.1 then rest else (on_close r.0, true)) (λ stopped. (refl, on_close-IsClosed c h))
        (λ goes_on.
          either-EndsClosed r.1 rest (on_close r.0, true)
            (λ more. let ends : r.1 ≡ false = is_last-turn last c l goes_on in absurd (cc))
            (λ done. (refl, on_close-IsClosed r.0 (turn-IsAttached last c h))))
  loop-EndsClosed (t ∷ before) after last c l h =
      let r = turn constants intersects same t c in
      let rest = loop constants intersects same (before ++ last ∷ after) r.0 in
      let attached = turn-IsAttached t c h in
      either-EndsClosed t.stop_requested (on_close c, true)
        (if r.1 then rest else (on_close r.0, true)) (λ stopped. (refl, on_close-IsClosed c h))
        (λ goes_on.
          either-EndsClosed r.1 rest (on_close r.0, true)
            (λ more. loop-EndsClosed before after last r.0 l attached)
            (λ done. (refl, on_close-IsClosed r.0 attached)))

  running-IsAttached : (c : Connection) → IsAttached c → IsAttached (set_state running c)
  unfolding set_state
  running-IsAttached c h = ground arith

  -- The submission thread runs at most where there is a graphics channel, as it does at first. The connection's thread
  -- ends at the latest with the first pass at which it is asked to stop, has no handles to wait for or cannot read from
  -- its peer. Then the state is closed, display control, clipboard and audio have given up their channels, the audio
  -- stream is not active, and no thread submits frames.
  pub run-EndsClosed :
      (before after : List Turn) (last : Turn) (c : Connection)
      → is_last last ≡ true
      → IsAttached c
      → (run constants intersects same (before ++ last ∷ after) c).1 ≡ true
        × IsClosed (run constants intersects same (before ++ last ∷ after) c).0
  unfolding run
  run-EndsClosed before after last c l h =
      loop-EndsClosed before after last (set_state running c) l (running-IsAttached c h)
