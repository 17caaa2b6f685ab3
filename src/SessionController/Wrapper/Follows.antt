-- ===== src/SessionController/Wrapper/Follows.antt =====
-- server/SessionController.cpp: what the encoder of a session does when all signals have arrived.
use kheadless_krdp.Prelude.{
  ℕ, ◌≡◌, inl, inr, ◌∙◌, ap, Bool, false, ◌&&◌, Option, none, some, List, [], ◌∷◌, arith,
  Bool-cases,
}
use kheadless_krdp.AbstractSession.{AbstractSession, EncodedStream}
use kheadless_krdp.AbstractSession.Streaming as Streaming
use kheadless_krdp.AbstractSession.Streaming.{Request, asks, withdraws}
use kheadless_krdp.SessionController.Wrapper.InStep.{
  Move, makes_stream, starts, sets_quality, sets_active_stream, sets_virtual_monitor, sets_size,
  sets_logical_size, Reach, begins, enables, rates, streams, moves, delivers_enabled, delivers_rate,
  RatedAs, Reach-InStep,
}
use kheadless_krdp.SessionController.Wrapper.{
  Joined, stream_set_enabled, stream_update_rate, on_video_stream_enabled_changed,
  on_requested_frame_rate_changed,
}

-- The session by itself is one that AbstractSession.Streaming speaks of.
Move-Reach :
    {h : List Request} {s t : AbstractSession}
    → Move s t
    → Streaming.Reach h s
    → Streaming.Reach h t
Move-Reach (makes_stream s) r = Streaming.makes_stream r
Move-Reach (starts h) r = Streaming.starts h r
Move-Reach (sets_quality quality s) r = Streaming.sets_quality quality r
Move-Reach (sets_active_stream index s) r = Streaming.sets_active_stream index r
Move-Reach (sets_virtual_monitor monitor s) r = Streaming.sets_virtual_monitor monitor r
Move-Reach (sets_size size s) r = Streaming.sets_size size r
Move-Reach (sets_logical_size size s) r = Streaming.sets_logical_size size r

abbrev Reached : AbstractSession → Type 0
Reached s = (h : List Request) × Streaming.Reach h s

delivered-Reached :
    (j : Joined) → Reached j.session → Reached (on_video_stream_enabled_changed j).session
unfolding on_video_stream_enabled_changed
delivered-Reached j (h, r) = elim (Bool-cases j.stream.enabled) [
  | inl on ↦ rw on (asks j.requester ∷ h, Streaming.enables j.requester r)
  | inr off ↦ rw off (withdraws j.requester ∷ h, Streaming.disables j.requester r)
]

session-Reached : {j : Joined} → Reach j → Reached j.session
unfolding stream_set_enabled stream_update_rate on_requested_frame_rate_changed
session-Reached (begins requester) = ([], Streaming.begins)
session-Reached (enables enabled r) = session-Reached r
session-Reached (rates now average_rtt frame_delay r) = session-Reached r
session-Reached (streams t same r) = session-Reached r
session-Reached (moves v r) = let (h, s) = session-Reached r in (h, Move-Reach v s)
session-Reached (delivers_enabled {j} left queued r) = delivered-Reached j (session-Reached r)
session-Reached (delivers_rate {j} left queued r) =
    let (h, s) = session-Reached r in (h, Streaming.sets_frame_rate j.rate.requested_frame_rate s)

-- An encoder that runs exactly while streaming is enabled and the session has started, at no more than a rate.
abbrev pub Follows : (enabled started : Bool) (rate : ℕ) → Option EncodedStream → Type 0
Follows enabled started rate none = started ≡ false
Follows enabled started rate (some e) =
    (e.active ≡ (enabled && started)) × (e.max_framerate ≡ some rate)

follows :
    {enabled session_enabled : Bool} (started : Bool) {rate : ℕ} {session_rate : Option ℕ}
    (e : Option EncodedStream)
    → session_enabled ≡ enabled
    → session_rate ≡ some rate
    → Streaming.IsActiveIf session_enabled started e
    → RatedAs session_rate e
    → Follows enabled started rate e
follows started none p q a m = a
follows started (some e) p q a m = (a ∙ ap (λ b. b && started) p, m ∙ q)

-- Whatever the connection's thread, the session and the delivery of signals do, in whatever order: once no signal of
-- the video stream is on its way, the session is enabled exactly if the stream is, it has the stream's requested frame
-- rate, and its encoder is limited to that rate and active exactly if the stream is enabled and the session has
-- started; a session without an encoder has not started.
pub Reach-Follows :
    {j : Joined}
    → Reach j
    → j.enabled_queued ≡ 0
    → j.rate_queued ≡ 0
    → (j.session.enabled ≡ j.stream.enabled)
      × (j.session.frame_rate ≡ some j.rate.requested_frame_rate)
      × Follows j.stream.enabled j.session.started j.rate.requested_frame_rate
          j.session.encoded_stream
Reach-Follows {j} r p q =
    let (_, e, f, m) = Reach-InStep r in
    let same : j.session.enabled ≡ j.stream.enabled = ground arith in
    let rate : j.session.frame_rate ≡ some j.rate.requested_frame_rate = ground arith in
    (
      same,
      rate,
      follows j.session.started j.session.encoded_stream same rate
          (Streaming.Reach-StreamsOnRequest (session-Reached r).1).1 m,
    )
