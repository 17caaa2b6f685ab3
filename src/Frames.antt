-- ===== src/Frames.antt =====
-- The way of a video packet: onPacketReceived of src/PortalSession.cpp and src/PlasmaScreencastV1Session.cpp, the queue of
-- src/VideoStream.cpp that SessionWrapper of server/SessionController.cpp connects it to, and the submission thread.
mod Examples
use kheadless_krdp.Prelude.{
  ℕ, ◌≡◌, ◌⊎◌, inl, inr, arith, ◌||◌, refl, sym, ◌∙◌, ap, Bool, true, false, List, [], ◌∷◌, ◌++◌,
  map,
}
use mathlib.Core.List.{append-nil, append_assoc}
use kheadless_krdp.Prelude.Int.{pos, negsuc, ◌<ℤ◌, ◌≤ℤ◌}
use kheadless_krdp.Geometry.{Size}
use kheadless_krdp.NetworkDetection.{NetworkDetection}
use kheadless_krdp.VideoStream.{RectOperations, VideoFrame, Pdu, Sent, VideoStream, queue_frame}
use kheadless_krdp.VideoStream.Send.{send_frame}
use kheadless_krdp.VideoStream.Submission.{is_empty}
use kheadless_krdp.VideoStream.Send.Queue.{with_queue}
use kheadless_krdp.VideoStream.Submission.Queue.{drain, submit_all, drain_lem}
use kheadless_krdp.Portal.{PortalSession}
use kheadless_krdp.Plasma.Session.{PlasmaSession}

-- PipeWireEncodedStream::Packet.
pub record Packet : Type 0 where
  pub payload : List ℕ
  pub is_key_frame : Bool

-- A frame of the whole workspace. That it is a key frame is read by nobody.
abbrev pub frame_of : Size → Packet → VideoFrame
frame_of size packet = record { size = size; output_index = negsuc 0; payload = packet.payload }

-- What frameReceived hands on.
unfoldable pub portal_packet_received : Packet → PortalSession → VideoFrame
portal_packet_received packet s = frame_of s.session.size packet

unfoldable pub plasma_packet_received : Packet → PlasmaSession → VideoFrame
plasma_packet_received packet s = frame_of s.session.size packet

-- frameReceived is connected to queueFrame.
pub queue_all : (streaming : Bool) → List VideoFrame → VideoStream → VideoStream
queue_all streaming [] s = s
queue_all streaming (frame ∷ frames) s = queue_all streaming frames (queue_frame streaming frame s)

abbrev with_frames : List VideoFrame → VideoStream → VideoStream
with_frames frames s = with_queue (s.frame_queue ++ frames) s

queue_all-queue :
    (frames : List VideoFrame) (s : VideoStream)
    → s.enabled ≡ true
    → queue_all true frames s ≡ with_frames frames s
unfolding queue_all queue_frame
queue_all-queue [] s e = ap (λ queue. with_queue queue s) (sym (append-nil s.frame_queue))
queue_all-queue (frame ∷ frames) s e =
    let queued : queue_frame true frame s ≡ with_frames (frame ∷ []) s = rw (queue_frame, e) refl in
    rw queued (
      queue_all-queue frames (with_frames (frame ∷ []) s) e
      ∙ ap (λ queue. with_queue queue s) (append_assoc s.frame_queue (frame ∷ []) frames))

-- The sessions that there are.
pub data Source : Type 0 where
  portal : PortalSession → Source
  plasma : PlasmaSession → Source

abbrev pub packet_received : Source → Packet → VideoFrame
packet_received (portal s) packet = portal_packet_received packet s
packet_received (plasma s) packet = plasma_packet_received packet s

abbrev pub size_of : Source → Size
size_of (portal s) = s.session.size
size_of (plasma s) = s.session.size

-- A packet with the time of the pass that sends it, as the frame it should become: one of the session's size for the whole
-- workspace, which is the output -1.
abbrev pub expected : Source → List (ℕ × Packet) → List (ℕ × VideoFrame)
expected source [] = []
expected source ((time, packet) ∷ passes) =
    (time, record { size = size_of source; output_index = negsuc 0; payload = packet.payload })
    ∷ expected source passes

abbrev pub times : List (ℕ × Packet) → List ℕ
times passes = map (λ pass. pass.0) passes

abbrev pub frames_of : Source → List (ℕ × Packet) → List VideoFrame
frames_of source passes = map (λ pass. packet_received source pass.1) passes

expected-times :
    (source : Source) (passes : List (ℕ × Packet))
    → map (λ pass. pass.0) (expected source passes) ≡ times passes
expected-times source [] = refl
expected-times source ((time, packet) ∷ passes) =
    ap (λ rest. time ∷ rest) (expected-times source passes)

frame_of-packet_received :
    (source : Source) (packet : Packet)
    → frame_of (size_of source) packet ≡ packet_received source packet
unfolding portal_packet_received plasma_packet_received
frame_of-packet_received (portal s) packet = refl
frame_of-packet_received (plasma s) packet = refl

expected-frames :
    (source : Source) (passes : List (ℕ × Packet))
    → map (λ pass. pass.1) (expected source passes) ≡ frames_of source passes
expected-frames source [] = refl
expected-frames source ((time, packet) ∷ passes) =
    rw (frame_of-packet_received source packet)
      (ap (λ rest. packet_received source packet ∷ rest) (expected-frames source passes))

module _ (answers : List Sent → Pdu → Bool) (rects : RectOperations) where
  -- sendFrame for each frame, at its time, one after the other.
  abbrev pub send_all :
      List (ℕ × VideoFrame) → VideoStream → NetworkDetection → VideoStream × NetworkDetection
  send_all [] s network = (s, network)
  send_all ((time, frame) ∷ passes) s network =
      let r = send_frame answers rects time frame s network in send_all passes r.0 r.1

  abbrev HasArea : Size → Type 0
  HasArea size = (pos 0 <ℤ size.width) × (pos 0 <ℤ size.height)

  area_cases :
      (size : Size)
      → (is_empty size ≡ false) × HasArea size
        ⊎ (is_empty size ≡ true) × (size.width ≤ℤ pos 0 ⊎ size.height ≤ℤ pos 0)
  area_cases size = ground arith

  submit_all-sends :
      (source : Source) (passes : List (ℕ × Packet)) (s : VideoStream) (network : NetworkDetection)
      → is_empty (size_of source) ≡ false
      → submit_all answers rects (expected source passes) s network
        ≡ send_all (expected source passes) s network
  submit_all-sends source [] s network e = refl
  submit_all-sends source ((time, packet) ∷ passes) s network e =
      let r = send_frame answers rects time (frame_of (size_of source) packet) s network in
      rw (submit_all, e) (submit_all-sends source passes r.0 r.1 e)

  submit_all-skips :
      (source : Source) (passes : List (ℕ × Packet)) (s : VideoStream) (network : NetworkDetection)
      → is_empty (size_of source) ≡ true
      → submit_all answers rects (expected source passes) s network ≡ (s, network)
  submit_all-skips source [] s network e = refl
  submit_all-skips source ((time, packet) ∷ passes) s network e =
      rw (submit_all, e) (submit_all-skips source passes s network e)

  drain-submit_all :
      (source : Source) (passes : List (ℕ × Packet)) (s : VideoStream) (network : NetworkDetection)
      → s.enabled ≡ true
      → s.frame_queue ≡ []
      → drain answers rects (times passes) (queue_all true (frames_of source passes) s) network ≡ (
          let r = submit_all answers rects (expected source passes) s network in
          (with_queue [] r.0, r.1))
  drain-submit_all source passes s network e empty =
      let queue : queue_all true (frames_of source passes) s
          ≡ with_queue (map (λ pass. pass.1) (expected source passes) ++ []) s =
        queue_all-queue (frames_of source passes) s e
        ∙ ap (λ q. with_queue (q ++ frames_of source passes) s) empty
        ∙ ap (λ q. with_queue q s) (sym (expected-frames source passes) ∙ sym (append-nil _)) in
      ap (λ t. drain answers rects t (queue_all true (frames_of source passes) s) network)
        (sym (expected-times source passes))
      ∙ ap (λ t. drain answers rects (map (λ pass. pass.0) (expected source passes)) t network)
          queue
      ∙ drain_lem answers rects (expected source passes) [] s network

  -- While the connection is streaming and its stream is enabled with an empty queue, the packets that a session gets are
  -- taken by as many passes of the submission thread. If the session's size has a positive width and height, sendFrame is
  -- called for each packet once, at the time of its pass and in their order, with a frame of that size for the whole
  -- workspace, and nothing else happens; otherwise nothing happens at all. The queue is empty after it.
  pub packets-submitted :
      (source : Source) (passes : List (ℕ × Packet)) (s : VideoStream) (network : NetworkDetection)
      → s.enabled ≡ true
      → s.frame_queue ≡ []
      → (let size = size_of source in
          let result =
            drain answers rects
              (times passes)
              (queue_all true (frames_of source passes) s)
              network in
          let sent = send_all (expected source passes) s network in
          (pos 0 <ℤ size.width) × (pos 0 <ℤ size.height) × (result ≡ (with_queue [] sent.0, sent.1))
          ⊎ (size.width ≤ℤ pos 0 ⊎ size.height ≤ℤ pos 0) × (result ≡ (s, network)))
  packets-submitted source passes s network e empty =
      let drained = drain-submit_all source passes s network e empty in
      elim (area_cases (size_of source)) [
        | inl (some_area, (wide, high)) ↦ inl (
          wide,
          high,
          drained
              ∙ ap (λ r. (with_queue [] r.0, r.1))
                  (submit_all-sends source passes s network some_area),
        )
        | inr (no_area, flat) ↦ inr (
          flat,
          drained
              ∙ ap (λ r. (with_queue [] r.0, r.1))
                  (submit_all-skips source passes s network no_area)
              ∙ ap (λ queue. (with_queue queue s, network)) (sym empty),
        )
      ]
