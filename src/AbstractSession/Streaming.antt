-- ===== src/AbstractSession/Streaming.antt =====
-- When a session of src/AbstractSession.cpp streams.
use kheadless_krdp.Prelude.{
  ℕ, ◌≡◌, inl, inr, refl, ◌∙◌, Bool, true, false, ◌&&◌, not, Option, none, some, List, [], ◌∷◌,
  ◌==◌, length, arith, Bool-cases,
}
use kheadless_krdp.Prelude.Int.{ℤ}
use kheadless_krdp.Geometry.{Size}
use kheadless_krdp.AbstractSession.{
  AbstractSession, EncodedStream, VirtualMonitor, set_active_stream, set_virtual_monitor, set_size,
  set_logical_size, initial, set_video_frame_rate, set_video_quality, stream, set_started,
  request_streaming_enable, request_streaming_disable, contains, remove,
}

-- What requesters have done: one asks for streaming, or withdraws or is destroyed.
pub data Request : Type 0 where
  asks withdraws : (requester : ℕ) → Request

-- The calls of a session, of its owner and of those who want it to stream, with the requests so far, the latest first.
pub data Reach : List Request → AbstractSession → Type 0 where
  begins : Reach [] initial
  makes_stream : {h : List Request} {s : AbstractSession} → Reach h s → Reach h (stream s)
  starts :
      {h : List Request} {s t : AbstractSession}
      → set_started true s ≡ some t
      → Reach h s
      → Reach h t
  sets_frame_rate :
      {h : List Request} {s : AbstractSession} (rate : ℕ)
      → Reach h s
      → Reach h (set_video_frame_rate rate s)
  sets_quality :
      {h : List Request} {s : AbstractSession} (quality : ℕ)
      → Reach h s
      → Reach h (set_video_quality quality s)
  sets_active_stream :
      {h : List Request} {s : AbstractSession} (index : ℤ)
      → Reach h s
      → Reach h (set_active_stream index s)
  sets_virtual_monitor :
      {h : List Request} {s : AbstractSession} (monitor : VirtualMonitor)
      → Reach h s
      → Reach h (set_virtual_monitor monitor s)
  sets_size :
      {h : List Request} {s : AbstractSession} (size : Size) → Reach h s → Reach h (set_size size s)
  sets_logical_size :
      {h : List Request} {s : AbstractSession} (size : Size)
      → Reach h s
      → Reach h (set_logical_size size s)
  enables :
      {h : List Request} {s : AbstractSession} (requester : ℕ)
      → Reach h s
      → Reach (asks requester ∷ h) (request_streaming_enable requester s)
  disables :
      {h : List Request} {s : AbstractSession} (requester : ℕ)
      → Reach h s
      → Reach (withdraws requester ∷ h) (request_streaming_disable requester s)

abbrev pub IsActiveIf : Bool → Bool → Option EncodedStream → Type 0
IsActiveIf enabled started none = started ≡ false
IsActiveIf enabled started (some e) = e.active ≡ (enabled && started)

-- Streaming is enabled while someone requests it, and the encoder is active while it is enabled and started.
abbrev pub StreamsOnRequest : AbstractSession → Type 0
StreamsOnRequest s =
    (s.enabled ≡ not (length s.enable_requests == 0))
    × IsActiveIf s.enabled s.started s.encoded_stream

start-StreamsOnRequest :
    (s t : AbstractSession) → set_started true s ≡ some t → StreamsOnRequest s → StreamsOnRequest t
unfolding set_started
start-StreamsOnRequest s t h v = ground arith

pub contains-length : (r : ℕ) (xs : List ℕ) → contains r xs ≡ true → (length xs == 0) ≡ false
unfolding contains
contains-length r [] h = cc
contains-length r (x ∷ xs) h = ground arith

disable-StreamsOnRequest :
    (r : ℕ) (s : AbstractSession)
    → StreamsOnRequest s
    → StreamsOnRequest (request_streaming_disable r s)
unfolding request_streaming_disable
disable-StreamsOnRequest r s v = elim (Bool-cases (contains r s.enable_requests)) [
  | inr e ↦ rw e v
  | inl e ↦ elim (Bool-cases (length (remove r s.enable_requests) == 0)) [
    | inl f ↦ rw (e, f) (ground (arith, f), ground arith)
    | inr f ↦ rw (e, f) (v.0 ∙ ground (arith, contains-length r s.enable_requests e), v.1)
  ]
]

enable-StreamsOnRequest :
    (r : ℕ) (s : AbstractSession)
    → StreamsOnRequest s
    → StreamsOnRequest (request_streaming_enable r s)
unfolding request_streaming_enable
enable-StreamsOnRequest r s v = ground arith

stream-StreamsOnRequest : (s : AbstractSession) → StreamsOnRequest s → StreamsOnRequest (stream s)
unfolding stream
stream-StreamsOnRequest s v = ground arith

rate-StreamsOnRequest :
    (rate : ℕ) (s : AbstractSession)
    → StreamsOnRequest s
    → StreamsOnRequest (set_video_frame_rate rate s)
unfolding set_video_frame_rate
rate-StreamsOnRequest rate s v = ground arith

quality-StreamsOnRequest :
    (quality : ℕ) (s : AbstractSession)
    → StreamsOnRequest s
    → StreamsOnRequest (set_video_quality quality s)
unfolding set_video_quality
quality-StreamsOnRequest quality s v = ground arith

active_stream-StreamsOnRequest :
    (index : ℤ) (s : AbstractSession)
    → StreamsOnRequest s
    → StreamsOnRequest (set_active_stream index s)
unfolding set_active_stream
active_stream-StreamsOnRequest index s h = h

virtual_monitor-StreamsOnRequest :
    (monitor : VirtualMonitor) (s : AbstractSession)
    → StreamsOnRequest s
    → StreamsOnRequest (set_virtual_monitor monitor s)
unfolding set_virtual_monitor
virtual_monitor-StreamsOnRequest monitor s h = h

size-StreamsOnRequest :
    (size : Size) (s : AbstractSession) → StreamsOnRequest s → StreamsOnRequest (set_size size s)
unfolding set_size
size-StreamsOnRequest size s h = h

logical_size-StreamsOnRequest :
    (size : Size) (s : AbstractSession)
    → StreamsOnRequest s
    → StreamsOnRequest (set_logical_size size s)
unfolding set_logical_size
logical_size-StreamsOnRequest size s h = h

-- Streaming is enabled exactly while the list of requesters has one.
pub Reach-StreamsOnRequest :
    {h : List Request} {s : AbstractSession} → Reach h s → StreamsOnRequest s
Reach-StreamsOnRequest begins = (refl, refl)
Reach-StreamsOnRequest (makes_stream r) = stream-StreamsOnRequest _ (Reach-StreamsOnRequest r)
Reach-StreamsOnRequest (starts h r) = start-StreamsOnRequest _ _ h (Reach-StreamsOnRequest r)
Reach-StreamsOnRequest (sets_frame_rate rate r) =
    rate-StreamsOnRequest rate _ (Reach-StreamsOnRequest r)
Reach-StreamsOnRequest (sets_quality q r) = quality-StreamsOnRequest q _ (Reach-StreamsOnRequest r)
Reach-StreamsOnRequest (sets_active_stream i r) =
    active_stream-StreamsOnRequest i _ (Reach-StreamsOnRequest r)
Reach-StreamsOnRequest (sets_virtual_monitor m r) =
    virtual_monitor-StreamsOnRequest m _ (Reach-StreamsOnRequest r)
Reach-StreamsOnRequest (sets_size size r) = size-StreamsOnRequest size _ (Reach-StreamsOnRequest r)
Reach-StreamsOnRequest (sets_logical_size size r) =
    logical_size-StreamsOnRequest size _ (Reach-StreamsOnRequest r)
Reach-StreamsOnRequest (enables q r) = enable-StreamsOnRequest q _ (Reach-StreamsOnRequest r)
Reach-StreamsOnRequest (disables q r) = disable-StreamsOnRequest q _ (Reach-StreamsOnRequest r)
