-- ===== src/VideoStream/Send/Delivery.antt =====
-- What becomes of a frame that src/VideoStream.cpp is to send.
use kheadless_krdp.Prelude.{
  ℕ, zero, suc, ◌+◌, ◌%◌, ◌^◌, ◌≡◌, refl, sym, ap, ◌∙◌, Bool, true, false, not, ◌||◌, some, List,
  [], ◌∷◌, ◌++◌, map, ◌==◌, arith, Bool-cases, ◌⊎◌, inl, inr, Option-cases, get_elem?, length,
}
use kheadless_krdp.Prelude.Int.{◌-ℤ◌}
use kheadless_krdp.Geometry.{Point, eq_size_iff}
use kheadless_krdp.Monitor.{DisplayMonitor}
use kheadless_krdp.NetworkDetection.{
  NetworkDetection, start_bandwidth_measure, stop_bandwidth_measure,
}
use kheadless_krdp.VideoStream.{
  RectOperations, Surface, VideoFrame, Pdu, Sent, VideoStream, acknowledge,
}
use kheadless_krdp.VideoStream.Send.{
  prepare, submit, deliver, surface_for, surface_index, send_frame, targets, effective_layout,
  output, fits_layout, desktop_geometry,
}
use kheadless_krdp.VideoStream.Send.Pdus.{
  pdus, frame_pdus, frame_calls, SameFrames, submit-pdus, prepare-SameFrames,
}
use kheadless_krdp.VideoStream.Send.Resets.{
  numbered, SameCounters, AllAccepted, prepare-same, prepare-numbered, prepare-succeeds,
}

-- The surface of a target is found where the monitor stands in the layout.
get-numbered :
    (place : DisplayMonitor → Point) (layout : List DisplayMonitor) (index id : ℕ)
    (m : DisplayMonitor)
    → get_elem? layout index ≡ some m
    → (n : ℕ) × (get_elem? (numbered id (map (λ k. (k.size, place k)) layout)) index
        ≡ some (record { id = n; size = m.size }))
get-numbered place [] index id m h = absurd (ground arith)
get-numbered place (k ∷ layout) zero id m h = (id, ground arith)
get-numbered place (k ∷ layout) (suc index) id m h =
    get-numbered place layout index ((id + 1) % 2 ^ 16) m h

module _ (answers : List Sent → Pdu → Bool) (rects : RectOperations) where
  surface_for-fits :
      (frame : VideoFrame) (layout : List DisplayMonitor) (id : ℕ)
      → fits_layout rects layout (output frame.output_index) frame.size ≡ true
      → (surface : Surface) × (surface_for answers rects frame
            (numbered id (targets rects layout (output frame.output_index)))
          ≡ some surface)
  unfolding surface_for
  surface_for-fits frame layout id h = elim (Option-cases (output frame.output_index)) [
    | inl e ↦ (record { id = id; size = (desktop_geometry rects layout).size }, ground arith)
    | inr (index, e) ↦ elim (Option-cases (get_elem? layout index)) [
      | inl gone ↦ absurd (ground arith)
      | inr (m, found) ↦
          let at =
            get-numbered
              (λ k. record {
                x = k.position.x -ℤ (desktop_geometry rects layout).position.x;
                y = k.position.y -ℤ (desktop_geometry rects layout).position.y;
              })
              layout index id m found in
          (record { id = at.0; size = m.size }, ground (arith, at.1))
    ]
  ]

  submit-counts :
      (time : ℕ) (frame : VideoFrame) (surface : Surface) (s : VideoStream)
      → (submit answers rects time frame surface s).encoded_frames ≡ s.encoded_frames + 1
        × (submit answers rects time frame surface s).pending_frames
          ≡ s.frame_id ∷ acknowledge s.frame_id s.pending_frames
        × (submit answers rects time frame surface s).surfaces ≡ s.surfaces
        × (submit answers rects time frame surface s).pending_reset ≡ s.pending_reset
  unfolding submit
  submit-counts time frame surface s = (refl, refl, refl, refl)

  found_surface :
      (frame : VideoFrame) (surfaces : List Surface) (surface : Surface)
      → surface_for answers rects frame surfaces ≡ some surface
      → (get_elem? surfaces (surface_index answers rects frame) ≡ some surface)
        × (surface.size ≡ frame.size)
  unfolding surface_for
  found_surface frame surfaces surface h = ground (arith, eq_size_iff surface.size frame.size)

  -- A frame of which nothing is sent.
  abbrev pub IsDropped : VideoStream → NetworkDetection → VideoStream × NetworkDetection → Type 0
  IsDropped s network r = SameCounters s r.0 × SameFrames s r.0 × (r.1 ≡ network)

  -- A frame that is sent to a surface of its own size by the three calls for it, with nothing of another frame before and
  -- nothing after them, and is in flight.
  abbrev pub IsSubmitted :
      ℕ → VideoFrame → VideoStream → NetworkDetection → VideoStream × NetworkDetection → Type 0
  IsSubmitted time frame s network r =
      (surface : Surface) × (get_elem? r.0.surfaces (surface_index answers rects frame)
        ≡ some surface)
      × (surface.size ≡ frame.size)
      × ((before : List Pdu) × (pdus r.0.sent
            ≡ before ++ frame_calls answers rects s.frame_id time surface frame)
          × (frame_pdus before ≡ frame_pdus (pdus s.sent)))
      × (r.0.encoded_frames ≡ s.encoded_frames + 1)
      × (r.0.pending_frames ≡ s.frame_id ∷ acknowledge s.frame_id s.pending_frames)
      × (r.1 ≡ stop_bandwidth_measure (start_bandwidth_measure network))

  deliver-IsSubmitted :
      (time : ℕ) (frame : VideoFrame) (surface : Surface) (s : VideoStream)
      (network : NetworkDetection)
      → surface_for answers rects frame s.surfaces ≡ some surface
      → IsSubmitted time frame s network (deliver answers rects time frame s network)
        × ((deliver answers rects time frame s network).0.pending_reset ≡ s.pending_reset)
  unfolding deliver
  deliver-IsSubmitted time frame surface s network e = (
    (
      surface,
      rw (e, deliver) (rw (counts.2) place.0),
      place.1,
      (pdus s.sent, rw (e, deliver) (submit-pdus answers rects time frame surface s), refl),
      rw (e, deliver) counts.0,
      rw (e, deliver) counts.1,
      rw (e, deliver) refl,
    ),
    rw (e, deliver) counts.3,
  )
    where
      counts :
          (submit answers rects time frame surface s).encoded_frames ≡ s.encoded_frames + 1
          × (submit answers rects time frame surface s).pending_frames
            ≡ s.frame_id ∷ acknowledge s.frame_id s.pending_frames
          × (submit answers rects time frame surface s).surfaces ≡ s.surfaces
          × (submit answers rects time frame surface s).pending_reset ≡ s.pending_reset
      counts = submit-counts time frame surface s

      place :
          (get_elem? s.surfaces (surface_index answers rects frame) ≡ some surface)
          × (surface.size ≡ frame.size)
      place = found_surface frame s.surfaces surface e

  deliver-outcome :
      (time : ℕ) (frame : VideoFrame) (s : VideoStream) (network : NetworkDetection)
      → IsDropped s network (deliver answers rects time frame s network)
        ⊎ IsSubmitted time frame s network (deliver answers rects time frame s network)
  unfolding deliver
  deliver-outcome time frame s network =
      elim (Option-cases (surface_for answers rects frame s.surfaces)) [
        | inl e ↦ inl (rw (e, deliver) ((refl, refl, refl), refl, refl))
        | inr (surface, e) ↦ inr (deliver-IsSubmitted time frame surface s network e).0
      ]

  -- Submission counts from the state before the reset, too.
  IsSubmitted-same :
      (time : ℕ) (frame : VideoFrame) (s t : VideoStream) (network : NetworkDetection)
      (r : VideoStream × NetworkDetection)
      → SameCounters s t
      → SameFrames s t
      → IsSubmitted time frame t network r
      → IsSubmitted time frame s network r
  IsSubmitted-same time frame s t network r same frames
        (surface, at, size, (before, sent, none), encoded, pending, measured) =
      (
        surface,
        at,
        size,
        (
          before,
          sent ∙ ap (λ id. before ++ frame_calls answers rects id time surface frame) (sym same.0),
          none ∙ frames,
        ),
        ground arith,
        rw (same.0, same.2) pending,
        measured,
      )

  IsDropped-same :
      (s t : VideoStream) (network : NetworkDetection) (r : VideoStream × NetworkDetection)
      → SameCounters s t
      → SameFrames s t
      → IsDropped t network r
      → IsDropped s network r
  IsDropped-same s t network r same frames (counters, sent, unmeasured) =
      ((same.0 ∙ counters.0, same.1 ∙ counters.1, same.2 ∙ counters.2), sent ∙ frames, unmeasured)

  -- The three ways through sendFrame.
  send_frame-cases :
      (time : ℕ) (frame : VideoFrame) (s : VideoStream) (network : NetworkDetection)
      → (send_frame answers rects time frame s network ≡ (s, network))
        ⊎ (send_frame answers rects time frame s network
            ≡ ((prepare answers rects frame s).0, network))
        ⊎ (send_frame answers rects time frame s network
            ≡ deliver answers rects time frame (prepare answers rects frame s).0 network)
  unfolding send_frame
  send_frame-cases time frame s network =
      elim (Bool-cases (not s.has_context || not s.caps_confirmed || length frame.payload == 0)) [
        | inl e ↦ inl (rw e refl)
        | inr e ↦ elim (Bool-cases (prepare answers rects frame s).1) [
          | inl f ↦ inr (inr (rw (e, f) refl))
          | inr f ↦ inr (inl (rw (e, f) refl))
        ]
      ]

  -- Every frame is either dropped, which sends nothing of a frame and leaves the frame counters, the frames in flight and
  -- the network detection as they were, or sent: behind what a reset sends, the last calls are its start with the time,
  -- its data for a surface of exactly its size, the one at its output's index, and its end, and they are the only calls
  -- for a frame; it is counted, put in flight and measured, whatever FreeRDP answers.
  pub send_frame-outcome :
      (time : ℕ) (frame : VideoFrame) (s : VideoStream) (network : NetworkDetection)
      → IsDropped s network (send_frame answers rects time frame s network)
        ⊎ IsSubmitted time frame s network (send_frame answers rects time frame s network)
  send_frame-outcome time frame s network = elim (send_frame-cases time frame s network) [
    | inl e ↦ inl (rw e ((refl, refl, refl), refl, refl))
    | inr (inl e) ↦ inl (rw e (same, frames, refl))
    | inr (inr e) ↦ rw e (elim (deliver-outcome time frame p network) [
      | inl dropped ↦ inl (IsDropped-same s p network d same frames dropped)
      | inr submitted ↦ inr (IsSubmitted-same time frame s p network d same frames submitted)
    ])
  ]
    where
      p : VideoStream
      p = (prepare answers rects frame s).0

      same : SameCounters s p
      same = prepare-same answers rects frame s

      frames : SameFrames s p
      frames = prepare-SameFrames answers rects frame s

      d : VideoStream × NetworkDetection
      d = deliver answers rects time frame p network

  -- If the channel is open and its capabilities are confirmed, a reset is pending, and FreeRDP accepts
  -- every call, then a frame that is not empty and whose size fits the layout is sent: its start with the time, its data
  -- for a surface of its size, the one at its output's index, and its end are the last calls, the only ones for a frame;
  -- it is counted, put in flight and measured, and the reset is done.
  pub send_frame-delivers :
      (time : ℕ) (frame : VideoFrame) (s : VideoStream) (network : NetworkDetection)
      → AllAccepted answers
      → s.has_context ≡ true
      → s.caps_confirmed ≡ true
      → (length frame.payload == 0) ≡ false
      → s.pending_reset ≡ true
      → fits_layout rects
          (effective_layout s.monitor_layout frame.size)
          (output frame.output_index)
          frame.size
        ≡ true
      → IsSubmitted time frame s network (send_frame answers rects time frame s network)
        × ((send_frame answers rects time frame s network).0.pending_reset ≡ false)
  unfolding send_frame
  send_frame-delivers time frame s network ok context caps payload pending fits =
      let prepared = prepare-numbered answers rects frame s pending succeeds in
      let surface = surface_for-fits frame layout s.next_surface_id fits in
      let delivered =
        deliver-IsSubmitted time frame surface.0 p network (rw prepared.0 surface.1) in
      rw sends (
        IsSubmitted-same time frame s p network (deliver answers rects time frame p network)
            (prepare-same answers rects frame s) (prepare-SameFrames answers rects frame s)
            delivered.0,
        delivered.1 ∙ prepared.2,
      )
    where
      p : VideoStream
      p = (prepare answers rects frame s).0

      layout : List DisplayMonitor
      layout = effective_layout s.monitor_layout frame.size

      succeeds : (prepare answers rects frame s).1 ≡ true
      succeeds = prepare-succeeds answers rects frame s ok pending fits

      guard : not s.has_context || not s.caps_confirmed || length frame.payload == 0 ≡ false
      guard = ground arith

      sends :
          send_frame answers rects time frame s network ≡ deliver answers rects time frame p network
      sends = rw (guard, succeeds) refl
