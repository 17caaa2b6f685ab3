-- ===== src/AbstractSession/Examples.antt =====
-- src/AbstractSession.cpp: a session that is asked to stream before it starts.
use kheadless_krdp.Prelude.{ℕ, ◌+◌, ◌≡◌, ◌↔◌, [], ◌∷◌, refl, true, none, some}
use kheadless_krdp.AbstractSession.{
  AbstractSession, initial, stream, set_started, request_streaming_enable,
  request_streaming_disable,
}
use kheadless_krdp.AbstractSession.Streaming.{
  begins, makes_stream, starts, enables, disables, asks, withdraws, IsActiveIf,
}
use kheadless_krdp.AbstractSession.Wanted.{wants, Reach-IsWanted}

abbrev asked : AbstractSession
asked = stream (request_streaming_enable 7 initial)

abbrev running : AbstractSession
running = record asked {
  started = true;
  announced = asked.announced + 1;
  encoded_stream = some (record {
    active = asked.enabled;
    max_framerate = some 60;
    max_pending_frames = none;
    quality = none;
  });
}

starts_test : set_started true asked ≡ some running
unfolding set_started stream request_streaming_enable
starts_test = refl

-- The request of 7 is left, for which streaming goes on.
Reach-IsWanted_example :
    let t = request_streaming_disable 8 (request_streaming_enable 8 running) in
    ((t.enabled ≡ true) ↔ ((r : ℕ) × (wants r (withdraws 8 ∷ asks 8 ∷ asks 7 ∷ []) ≡ true)))
    × IsActiveIf t.enabled t.started t.encoded_stream
Reach-IsWanted_example =
    Reach-IsWanted (disables 8 (enables 8 (starts starts_test (makes_stream (enables 7 begins)))))
