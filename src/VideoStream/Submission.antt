-- ===== src/VideoStream/Submission.antt =====
-- src/VideoStream.cpp: initialize, close, and the thread that sends the queued frames. FreeRDP's answers to creating and
-- opening the graphics channel are arguments.
pub mod Queue
mod Examples
use kheadless_krdp.Prelude.{
  ℕ, zero, suc, ◌+◌, Bool, true, false, ◌||◌, not, List, [], ◌∷◌, ◌++◌, if◌then◌else◌,
}
use kheadless_krdp.Prelude.Int.{ℤ, pos, leb_ℤ}
use kheadless_krdp.Geometry.{Size}
use kheadless_krdp.NetworkDetection.{NetworkDetection}
use kheadless_krdp.VideoStream.{RectOperations, VideoFrame, Pdu, Sent, VideoStream, closed}
use kheadless_krdp.VideoStream.Send.{send_frame}

-- The stream with its frameSubmissionThread, of which `submitting` says whether it runs.
pub record Submission : Type 0 where
  pub video : VideoStream
  pub submitting : Bool

-- A channel that cannot be opened keeps its context.
unfoldable pub initialize : (created opened : Bool) → Submission → Submission × Bool
initialize created opened s =
    if s.video.has_context
    then (s, true)
    else if not created
    then (s, false)
    else (let t = record s { video = record (s.video) { has_context = true } } in
        if not opened then (t, false) else (record t { submitting = true }, true))

-- The context stays.
unfoldable pub close : Submission → Submission
close s = if not s.video.has_context then s else record s {
  submitting = false;
  video = record (s.video) { signals = s.video.signals ++ closed ∷ [] };
}

-- QSize::isEmpty.
abbrev pub is_empty : Size → Bool
is_empty size = leb_ℤ size.width (pos 0) || leb_ℤ size.height (pos 0)

module _ (answers : List Sent → Pdu → Bool) (rects : RectOperations) where
  -- What the thread does with the frame that it took.
  abbrev pub submit_frame :
      ℕ → VideoFrame → VideoStream → NetworkDetection → VideoStream × NetworkDetection
  submit_frame time frame s network =
      if is_empty frame.size then (s, network) else send_frame answers rects time frame s network

  abbrev take_first :
      ℕ → List VideoFrame → VideoStream → NetworkDetection → VideoStream × NetworkDetection
  take_first time [] s network = (s, network)
  take_first time (frame ∷ queue) s network =
      submit_frame time frame (record s { frame_queue = queue }) network

  -- One pass of the thread's loop; `time` is the timestamp of now.
  unfoldable pub submit_next : ℕ → VideoStream → NetworkDetection → VideoStream × NetworkDetection
  submit_next time s network = take_first time s.frame_queue s network
