-- ===== src/VideoStream/Submission/Queue.antt =====
-- src/VideoStream.cpp: the thread that takes frames from the queue.
use kheadless_krdp.Prelude.{
  ℕ, ◌≡◌, refl, ◌∙◌, ap, Bool, List, [], ◌∷◌, ◌++◌, map, Bool-cases, inl, inr,
}
use kheadless_krdp.NetworkDetection.{NetworkDetection}
use kheadless_krdp.VideoStream.{RectOperations, VideoFrame, Pdu, Sent, VideoStream}
use kheadless_krdp.VideoStream.Send.Queue.{with_queue, send_frame-queue}
use kheadless_krdp.VideoStream.Submission.{is_empty, submit_frame, submit_next}

module _ (answers : List Sent → Pdu → Bool) (rects : RectOperations) where
  -- Passes of the loop, each at its time.
  abbrev pub drain : List ℕ → VideoStream → NetworkDetection → VideoStream × NetworkDetection
  drain [] s network = (s, network)
  drain (time ∷ times) s network =
      let r = submit_next answers rects time s network in drain times r.0 r.1

  -- Frames handed to sendFrame one after the other, but none that is empty.
  abbrev pub submit_all :
      List (ℕ × VideoFrame) → VideoStream → NetworkDetection → VideoStream × NetworkDetection
  submit_all [] s network = (s, network)
  submit_all ((time, frame) ∷ passes) s network =
      let r = submit_frame answers rects time frame s network in submit_all passes r.0 r.1

  submit_frame-queue :
      (queue : List VideoFrame) (time : ℕ) (frame : VideoFrame) (s : VideoStream)
      (network : NetworkDetection)
      → submit_frame answers rects time frame (with_queue queue s) network ≡ (
        with_queue queue (submit_frame answers rects time frame s network).0,
        (submit_frame answers rects time frame s network).1,
      )
  submit_frame-queue queue time frame s network = elim (Bool-cases (is_empty frame.size)) [
    | inl e ↦ rw e refl
    | inr e ↦ rw e (send_frame-queue answers rects queue time frame s network)
  ]

  -- Passes of the submission thread, one for each of the first frames of its queue, hand exactly these to sendFrame, in
  -- the order in which they stand there and without those of an empty size, and leave the later ones in the queue.
  pub drain_lem :
      (passes : List (ℕ × VideoFrame)) (later : List VideoFrame) (s : VideoStream)
      (network : NetworkDetection)
      → drain
          (map (λ pass. pass.0) passes)
          (with_queue (map (λ pass. pass.1) passes ++ later) s)
          network
        ≡ (with_queue later (submit_all passes s network).0, (submit_all passes s network).1)
  unfolding submit_next
  drain_lem [] later s network = refl
  drain_lem ((time, frame) ∷ passes) later s network =
      let queue = map (λ pass. pass.1) passes ++ later in
      let r = submit_frame answers rects time frame s network in
      ap (λ t. drain (map (λ pass. pass.0) passes) t.0 t.1)
        (submit_frame-queue queue time frame s network)
      ∙ drain_lem passes later r.0 r.1
