-- ===== src/SessionController/Wrapper/InStep.antt =====
-- server/SessionController.cpp: a session follows the video stream of its connection, however the thread of the
-- connection and the delivery of its signals are interleaved.
use kheadless_krdp.Prelude.{
  ℕ, suc, ◌-◌, ◌<◌, ◌≡◌, ◌⊎◌, inl, inr, refl, Bool, true, false, Option, none, some, List, [], ◌∷◌,
  length, length-append, arith, Bool-cases,
}
use kheadless_krdp.Prelude.Int.{ℤ}
use kheadless_krdp.Geometry.{Size}
use kheadless_krdp.AbstractSession
use kheadless_krdp.AbstractSession.{
  AbstractSession, EncodedStream, VirtualMonitor, set_active_stream, set_virtual_monitor, set_size,
  set_logical_size, set_video_frame_rate, set_video_quality, stream, set_started,
  request_streaming_enable, request_streaming_disable,
}
use kheadless_krdp.VideoStream
use kheadless_krdp.VideoStream.{VideoStream, set_enabled, enabled_changed}
use kheadless_krdp.FrameRate
use kheadless_krdp.FrameRate.{FrameRate, update_requested_frame_rate}
use kheadless_krdp.SessionController.Wrapper.{
  Joined, stream_set_enabled, stream_update_rate, on_video_stream_enabled_changed,
  on_requested_frame_rate_changed,
}

-- What a session does by itself, or is told by the controller.
pub data Move : AbstractSession → AbstractSession → Type 0 where
  makes_stream : (s : AbstractSession) → Move s (stream s)
  starts : {s t : AbstractSession} → set_started true s ≡ some t → Move s t
  sets_quality : (quality : ℕ) (s : AbstractSession) → Move s (set_video_quality quality s)
  sets_active_stream : (index : ℤ) (s : AbstractSession) → Move s (set_active_stream index s)
  sets_virtual_monitor :
      (monitor : VirtualMonitor) (s : AbstractSession) → Move s (set_virtual_monitor monitor s)
  sets_size : (size : Size) (s : AbstractSession) → Move s (set_size size s)
  sets_logical_size : (size : Size) (s : AbstractSession) → Move s (set_logical_size size s)

abbrev pub begin : ℕ → Joined
begin requester = record {
  requester = requester;
  session = AbstractSession.initial;
  stream = VideoStream.initial;
  rate = FrameRate.initial;
  enabled_queued = 0;
  rate_queued = 0;
}

pub data Reach : Joined → Type 0 where
  begins : (requester : ℕ) → Reach (begin requester)
  enables : {j : Joined} (enabled : Bool) → Reach j → Reach (stream_set_enabled enabled j)
  rates :
      {j : Joined} (now average_rtt : ℕ) (frame_delay : ℤ)
      → Reach j
      → Reach (stream_update_rate now average_rtt frame_delay j)
  -- Whatever else becomes of the stream.
  streams :
      {j : Joined} (t : VideoStream)
      → t.enabled ≡ j.stream.enabled
      → Reach j
      → Reach (record j { stream = t })
  moves :
      {j : Joined} {s : AbstractSession}
      → Move j.session s
      → Reach j
      → Reach (record j { session = s })
  -- A signal on its way arrives.
  delivers_enabled :
      {j : Joined} (left : ℕ)
      → j.enabled_queued ≡ suc left
      → Reach j
      → Reach (record (on_video_stream_enabled_changed j) { enabled_queued = left })
  delivers_rate :
      {j : Joined} (left : ℕ)
      → j.rate_queued ≡ suc left
      → Reach j
      → Reach (record (on_requested_frame_rate_changed j) { rate_queued = left })

abbrev pub RatedAs : Option ℕ → Option EncodedStream → Type 0
RatedAs rate none = Unit
RatedAs rate (some e) = e.max_framerate ≡ rate

abbrev pub requests_of : Bool → ℕ → List ℕ
requests_of true requester = requester ∷ []
requests_of false requester = []

-- A difference between the session and the stream has a signal on its way.
abbrev pub InStep : Joined → Type 0
InStep j =
    (j.session.enable_requests ≡ requests_of j.session.enabled j.requester)
    × ((0 < j.enabled_queued) ⊎ (j.session.enabled ≡ j.stream.enabled))
    × ((0 < j.rate_queued) ⊎ (j.session.frame_rate ≡ some j.rate.requested_frame_rate))
    × RatedAs j.session.frame_rate j.session.encoded_stream

-- What a move leaves alone.
abbrev Keeps : AbstractSession → AbstractSession → Type 0
Keeps s t =
    (t.enable_requests ≡ s.enable_requests)
    × (t.enabled ≡ s.enabled)
    × (t.frame_rate ≡ s.frame_rate)

Move-Keeps : {s t : AbstractSession} → Move s t → Keeps s t
unfolding stream set_started set_video_quality set_active_stream set_virtual_monitor set_size
    set_logical_size
Move-Keeps (makes_stream s) = ground arith
Move-Keeps (starts {s} {t} h) = ground arith
Move-Keeps (sets_quality quality s) = ground arith
Move-Keeps (sets_active_stream index s) = ground arith
Move-Keeps (sets_virtual_monitor monitor s) = ground arith
Move-Keeps (sets_size size s) = ground arith
Move-Keeps (sets_logical_size size s) = ground arith

Move-RatedAs :
    {s t : AbstractSession}
    → Move s t
    → RatedAs s.frame_rate s.encoded_stream
    → RatedAs t.frame_rate t.encoded_stream
unfolding stream set_started set_video_quality set_active_stream set_virtual_monitor set_size
    set_logical_size
Move-RatedAs (makes_stream s) r = ground arith
Move-RatedAs (starts {s} {t} h) r = ground arith
Move-RatedAs (sets_quality quality s) r = ground arith
Move-RatedAs (sets_active_stream index s) r = r
Move-RatedAs (sets_virtual_monitor monitor s) r = r
Move-RatedAs (sets_size size s) r = r
Move-RatedAs (sets_logical_size size s) r = r

-- A stream that is enabled otherwise than before announces it once.
set_enabled_signals :
    (enabled : Bool) (s : VideoStream)
    → (0 < length (set_enabled enabled s).signals - length s.signals)
      ⊎ ((set_enabled enabled s).enabled ≡ s.enabled)
unfolding set_enabled
set_enabled_signals enabled s = ground (arith, length-append s.signals (enabled_changed ∷ []))

update_announces :
    (now average_rtt : ℕ) (frame_delay : ℤ) (f : FrameRate)
    → (let t = update_requested_frame_rate now average_rtt frame_delay f in
        (0 < t.announced - f.announced) ⊎ (t.requested_frame_rate ≡ f.requested_frame_rate))
unfolding update_requested_frame_rate
update_announces now average_rtt frame_delay f = ground arith

-- What a session is like once it was asked to stream, or not to, by the only one that asks.
abbrev Asked : ℕ → Bool → AbstractSession → AbstractSession → Type 0
Asked requester enabled s t =
    (t.enable_requests ≡ requests_of enabled requester)
    × (t.enabled ≡ enabled)
    × (t.frame_rate ≡ s.frame_rate)

request_streaming_enable-Asked :
    (requester : ℕ) (s : AbstractSession)
    → s.enable_requests ≡ requests_of s.enabled requester
    → Asked requester true s (request_streaming_enable requester s)
unfolding request_streaming_enable
request_streaming_enable-Asked requester s r = elim (Bool-cases s.enabled) [
  | inl e ↦ ground (arith, e)
  | inr e ↦ ground (arith, e)
]

request_streaming_disable-Asked :
    (requester : ℕ) (s : AbstractSession)
    → s.enable_requests ≡ requests_of s.enabled requester
    → Asked requester false s (request_streaming_disable requester s)
unfolding request_streaming_disable
request_streaming_disable-Asked requester s r = elim (Bool-cases s.enabled) [
  | inl e ↦ ground (arith, e)
  | inr e ↦ ground (arith, e)
]

request_streaming_enable-RatedAs :
    (requester : ℕ) (s : AbstractSession)
    → RatedAs s.frame_rate s.encoded_stream
    → RatedAs s.frame_rate (request_streaming_enable requester s).encoded_stream
unfolding request_streaming_enable
request_streaming_enable-RatedAs requester s m = ground arith

request_streaming_disable-RatedAs :
    (requester : ℕ) (s : AbstractSession)
    → RatedAs s.frame_rate s.encoded_stream
    → RatedAs s.frame_rate (request_streaming_disable requester s).encoded_stream
unfolding request_streaming_disable
request_streaming_disable-RatedAs requester s m = ground arith

delivered-InStep :
    (j : Joined) (left : ℕ)
    → InStep j
    → InStep (record (on_video_stream_enabled_changed j) { enabled_queued = left })
unfolding on_video_stream_enabled_changed
delivered-InStep j left (r, e, f, m) = elim (Bool-cases j.stream.enabled) [
  | inl on ↦
      let a = request_streaming_enable-Asked j.requester j.session r in
      rw (on, a.1, a.2) (a.0, inr refl, f, request_streaming_enable-RatedAs j.requester j.session m)
  | inr off ↦
      let a = request_streaming_disable-Asked j.requester j.session r in
      rw (off, a.1, a.2)
        (a.0, inr refl, f, request_streaming_disable-RatedAs j.requester j.session m)
]

rated-InStep :
    (j : Joined) (left : ℕ)
    → InStep j
    → InStep (record (on_requested_frame_rate_changed j) { rate_queued = left })
unfolding on_requested_frame_rate_changed set_video_frame_rate
rated-InStep j left (r, e, f, m) = (r, e, inr refl, ground arith)

enables-InStep : (j : Joined) (enabled : Bool) → InStep j → InStep (stream_set_enabled enabled j)
unfolding stream_set_enabled
enables-InStep j enabled (r, e, f, m) =
    (r, ground (arith, set_enabled_signals enabled j.stream), f, m)

rates-InStep :
    (j : Joined) (now average_rtt : ℕ) (frame_delay : ℤ)
    → InStep j
    → InStep (stream_update_rate now average_rtt frame_delay j)
unfolding stream_update_rate
rates-InStep j now average_rtt frame_delay (r, e, f, m) =
    (r, e, ground (arith, update_announces now average_rtt frame_delay j.rate), m)

moves-InStep :
    (j : Joined) (s : AbstractSession)
    → Move j.session s
    → InStep j
    → InStep (record j { session = s })
moves-InStep j s v (r, e, f, m) =
    let (kr, ke, kf) = Move-Keeps v in rw (kr, ke) (r, e, rw kf f, Move-RatedAs v m)

pub Reach-InStep : {j : Joined} → Reach j → InStep j
Reach-InStep (begins requester) = (refl, inr refl, inr refl, tt)
Reach-InStep (enables {j} enabled r) = enables-InStep j enabled (Reach-InStep r)
Reach-InStep (rates {j} now average_rtt frame_delay r) =
    rates-InStep j now average_rtt frame_delay (Reach-InStep r)
Reach-InStep (streams {j} t same r) = let (q, e, f, m) = Reach-InStep r in (q, rw same e, f, m)
Reach-InStep (moves {j} {s} v r) = moves-InStep j s v (Reach-InStep r)
Reach-InStep (delivers_enabled {j} left queued r) = delivered-InStep j left (Reach-InStep r)
Reach-InStep (delivers_rate {j} left queued r) = rated-InStep j left (Reach-InStep r)
