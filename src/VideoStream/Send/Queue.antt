-- ===== src/VideoStream/Send/Queue.antt =====
-- sendFrame of src/VideoStream.cpp neither reads nor changes the queue.
use kheadless_krdp.Prelude.{
  ℕ, ◌≡◌, refl, ◌∙◌, ap, Bool, true, false, ◌||◌, not, Option, List, [], ◌∷◌, ◌==◌, if◌then◌else◌,
  arith, length, Bool-cases, inl, inr, Option-cases,
}
use kheadless_krdp.Geometry.{Point, Size}
use kheadless_krdp.Monitor.{DisplayMonitor}
use kheadless_krdp.NetworkDetection.{NetworkDetection}
use kheadless_krdp.VideoStream.{
  RectOperations, Surface, VideoFrame, Pdu, delete_surface, Sent, VideoStream,
}
use kheadless_krdp.VideoStream.Send.{
  call, delete_surfaces, create_one, create_surfaces, rebuild, perform_reset, prepare, submit,
  deliver, surface_for, send_frame, targets, cleared, reset_pdu, effective_layout, output,
  fits_layout,
}

-- The stream with another queue.
abbrev pub with_queue : List VideoFrame → VideoStream → VideoStream
with_queue queue s = record s { frame_queue = queue }

module _ (answers : List Sent → Pdu → Bool) (rects : RectOperations) (queue : List VideoFrame) where
  abbrev requeue : VideoStream × Bool → VideoStream × Bool
  requeue r = (with_queue queue r.0, r.1)

  delete_surfaces-queue :
      (surfaces : List Surface) (s : VideoStream)
      → delete_surfaces answers surfaces (with_queue queue s)
        ≡ with_queue queue (delete_surfaces answers surfaces s)
  unfolding delete_surfaces
  delete_surfaces-queue [] s = refl
  delete_surfaces-queue (surface ∷ rest) s =
      delete_surfaces-queue rest (call answers (delete_surface surface.id) s)

  create_one-queue :
      (size : Size) (position : Point) (s : VideoStream)
      → create_one answers size position (with_queue queue s)
        ≡ requeue (create_one answers size position s)
  unfolding create_one
  create_one-queue size position s = ground arith

  create_surfaces-queue :
      (list : List (Size × Point)) (s : VideoStream)
      → create_surfaces answers list (with_queue queue s) ≡ requeue (create_surfaces answers list s)
  unfolding create_surfaces
  create_surfaces-queue [] s = refl
  create_surfaces-queue ((size, position) ∷ rest) s =
      let same = create_one-queue size position s in
      let stream = ap (λ r. r.0) same in
      elim (Bool-cases (create_one answers size position s).1) [
        | inl e ↦
            rw (create_surfaces, ap (λ r. r.1) same ∙ e, e, stream)
              (create_surfaces-queue rest (create_one answers size position s).0)
        | inr e ↦ rw (create_surfaces, ap (λ r. r.1) same ∙ e, e, stream) refl
      ]

  requeue-if :
      (test : Bool) (x y x_queued : VideoStream × Bool)
      → x_queued ≡ requeue x
      → (if test then x_queued else requeue y) ≡ requeue (if test then x else y)
  requeue-if true x y x_queued h = h
  requeue-if false x y x_queued h = refl

  rebuild-queue :
      (layout : List DisplayMonitor) (index : Option ℕ) (s : VideoStream)
      → rebuild answers rects layout index (with_queue queue s)
        ≡ requeue (rebuild answers rects layout index s)
  unfolding rebuild
  rebuild-queue layout index s =
      let emptied = cleared answers rects s in
      let pdu = reset_pdu answers rects layout in
      let made = call answers pdu emptied in
      rw (rebuild, delete_surfaces-queue s.surfaces s)
        (requeue-if (answers emptied.sent pdu)
          (create_surfaces answers (targets rects layout index) made) (made, false)
          (create_surfaces answers (targets rects layout index) (with_queue queue made))
          (create_surfaces-queue (targets rects layout index) made))

  perform_reset-queue :
      (frame : VideoFrame) (s : VideoStream)
      → perform_reset answers rects frame (with_queue queue s)
        ≡ requeue (perform_reset answers rects frame s)
  unfolding perform_reset
  perform_reset-queue frame s =
      let layout = effective_layout s.monitor_layout frame.size in
      elim (Bool-cases (fits_layout rects layout (output frame.output_index) frame.size)) [
        | inl e ↦ rw (perform_reset, e) (rebuild-queue layout (output frame.output_index) s)
        | inr e ↦ rw (perform_reset, e) refl
      ]

  prepare-queue :
      (frame : VideoFrame) (s : VideoStream)
      → prepare answers rects frame (with_queue queue s) ≡ requeue (prepare answers rects frame s)
  unfolding prepare
  prepare-queue frame s = elim (Bool-cases s.pending_reset) [
    | inr e ↦ ground (arith, e)
    | inl e ↦ ground (arith, e, perform_reset-queue frame s)
  ]

  deliver-queue :
      (time : ℕ) (frame : VideoFrame) (s : VideoStream) (network : NetworkDetection)
      → deliver answers rects time frame (with_queue queue s) network ≡ (
        with_queue queue (deliver answers rects time frame s network).0,
        (deliver answers rects time frame s network).1,
      )
  unfolding deliver submit
  deliver-queue time frame s network =
      elim (Option-cases (surface_for answers rects frame s.surfaces)) [
        | inl e ↦ rw (deliver, e) refl
        | inr (surface, e) ↦ rw (deliver, e) refl
      ]

  pub send_frame-queue :
      (time : ℕ) (frame : VideoFrame) (s : VideoStream) (network : NetworkDetection)
      → send_frame answers rects time frame (with_queue queue s) network ≡ (
        with_queue queue (send_frame answers rects time frame s network).0,
        (send_frame answers rects time frame s network).1,
      )
  unfolding send_frame
  send_frame-queue time frame s network =
      elim (Bool-cases (not s.has_context || not s.caps_confirmed || length frame.payload == 0)) [
        | inl e ↦ rw (send_frame, e) refl
        | inr e ↦ elim (Bool-cases (prepare answers rects frame s).1) [
          | inl f ↦
              rw (send_frame, e, prepare-queue frame s, f)
                (deliver-queue time frame (prepare answers rects frame s).0 network)
          | inr f ↦ rw (send_frame, e, prepare-queue frame s, f) refl
        ]
      ]
