-- ===== src/VideoStream/Submission/Examples.antt =====
-- src/VideoStream.cpp: two frames of three in the queue.
use kheadless_krdp.Prelude.{ℕ, ◌≡◌, refl, Bool, true, false, List, [], ◌∷◌}
use kheadless_krdp.Prelude.Int.{pos, negsuc}
use kheadless_krdp.VideoStream.{RectOperations, VideoFrame, Pdu, Sent, VideoStream, initial}
use kheadless_krdp.VideoStream.Submission.{Submission, initialize}

abbrev rects : RectOperations
rects = record {
  null_rect = record {
    position = record { x = pos 0; y = pos 0 };
    size = record { width = pos 0; height = pos 0 };
  };
  united = λ r s. s;
}

abbrev all_accepted : List Sent → Pdu → Bool
all_accepted past pdu = true

abbrev frame : VideoFrame
frame = record {
  size = record { width = pos 640; height = pos 480 };
  output_index = negsuc 0;
  payload = 1 ∷ 2 ∷ [];
}

abbrev unopened : Submission
unopened = record { video = initial; submitting = false }

-- A channel that could not be opened is taken for an initialized one when it is asked for again.
retry_test :
    initialize true true (initialize true false unopened).0
    ≡ ((initialize true false unopened).0, true)
unfolding initialize
retry_test = refl

abbrev ready : VideoStream
ready = record initial { has_context = true; caps_confirmed = true; enabled = true }

abbrev passes : List (ℕ × VideoFrame)
passes = (5, frame) ∷ (6, frame) ∷ []
