-- ===== src/VideoStream/Send/Examples.antt =====
-- src/VideoStream.cpp: the first frame of a session.
use kheadless_krdp.Prelude.{◌≡◌, ◌⊎◌, refl, Bool, true, false, List, [], ◌∷◌}
use kheadless_krdp.Prelude.Int.{pos, negsuc}
use kheadless_krdp.NetworkDetection as Network
use kheadless_krdp.NetworkDetection.{NetworkDetection}
use kheadless_krdp.VideoStream.{
  RectOperations, VideoFrame, Pdu, delete_surface, Sent, VideoStream, initial,
}
use kheadless_krdp.VideoStream.Send.{send_frame, fits_layout, effective_layout, output, unite}
use kheadless_krdp.VideoStream.Send.Surfaces.{IsShown, send_frame-IsShown}
use kheadless_krdp.VideoStream.Send.Delivery.{
  IsDropped, IsSubmitted, send_frame-outcome, send_frame-delivers,
}

abbrev rects : RectOperations
rects = record {
  null_rect = record {
    position = record { x = pos 0; y = pos 0 };
    size = record { width = pos 0; height = pos 0 };
  };
  united = λ r s. s;
}

abbrev all_accepted : List Sent → Pdu → Bool
all_accepted past pdu = true

abbrev only_deletions : List Sent → Pdu → Bool
only_deletions past (delete_surface id) = true
only_deletions past pdu = false

abbrev ready : VideoStream
ready = record initial { has_context = true; caps_confirmed = true; enabled = true }

abbrev frame : VideoFrame
frame = record {
  size = record { width = pos 1920; height = pos 1080 };
  output_index = negsuc 0;
  payload = 1 ∷ 2 ∷ [];
}

send_frame-IsShown_example :
    IsShown (send_frame only_deletions rects 5 frame ready Network.initial).0
send_frame-IsShown_example =
    send_frame-IsShown only_deletions rects 5 frame ready Network.initial (λ past id. refl) refl

send_frame-outcome_example :
    IsDropped only_deletions rects ready Network.initial
      (send_frame only_deletions rects 5 frame ready Network.initial)
    ⊎ IsSubmitted only_deletions rects 5 frame ready Network.initial
        (send_frame only_deletions rects 5 frame ready Network.initial)
send_frame-outcome_example = send_frame-outcome only_deletions rects 5 frame ready Network.initial

fits_test :
    fits_layout rects (effective_layout [] frame.size) (output frame.output_index) frame.size ≡ true
unfolding unite
fits_test = refl

send_frame-delivers_example :
    IsSubmitted all_accepted rects 5 frame ready Network.initial
      (send_frame all_accepted rects 5 frame ready Network.initial)
    × ((send_frame all_accepted rects 5 frame ready Network.initial).0.pending_reset ≡ false)
send_frame-delivers_example =
    send_frame-delivers all_accepted rects 5 frame ready Network.initial (λ past pdu. refl) refl
      refl refl refl fits_test
