-- ===== src/Frames/Examples.antt =====
-- Two packets of a Plasma session on their way.
use kheadless_krdp.Prelude.{ℕ, ◌≡◌, ◌⊎◌, refl, Bool, true, List, [], ◌∷◌}
use kheadless_krdp.Prelude.Int.{pos, ◌<ℤ◌, ◌≤ℤ◌}
use kheadless_krdp.AbstractSession as Abstract
use kheadless_krdp.NetworkDetection as Network
use kheadless_krdp.NetworkDetection.{NetworkDetection}
use kheadless_krdp.VideoStream as Video
use kheadless_krdp.VideoStream.{VideoStream, Sent, Pdu}
use kheadless_krdp.VideoStream.Send.Queue.{with_queue}
use kheadless_krdp.Screencasting.Examples.{rects}
use kheadless_krdp.VideoStream.Submission.Queue.{drain}
use kheadless_krdp.Plasma.Session.{PlasmaSession}
use kheadless_krdp.Frames.{
  Packet, plasma, queue_all, frames_of, expected, send_all, packets-submitted,
}

abbrev all_accepted : List Sent → Pdu → Bool
all_accepted past pdu = true

abbrev session : PlasmaSession
session = record {
  session = record Abstract.initial { size = record { width = pos 640; height = pos 480 } };
  last_error = [];
  node_id = 0;
  requests = [];
  errors = 0;
}

abbrev passes : List (ℕ × Packet)
passes =
    (5, record { payload = 1 ∷ []; is_key_frame = true })
    ∷ (6, record { payload = 2 ∷ []; is_key_frame = true })
    ∷ []

abbrev stream : VideoStream
stream = record Video.initial { has_context = true; caps_confirmed = true; enabled = true }

abbrev result : VideoStream × NetworkDetection
result =
    drain all_accepted rects (5 ∷ 6 ∷ [])
      (queue_all true (frames_of (plasma session) passes) stream) Network.initial

abbrev sent : VideoStream × NetworkDetection
sent = send_all all_accepted rects (expected (plasma session) passes) stream Network.initial

packets-submitted_example :
    (pos 0 <ℤ pos 640) × (pos 0 <ℤ pos 480) × (result ≡ (with_queue [] sent.0, sent.1))
    ⊎ (pos 640 ≤ℤ pos 0 ⊎ pos 480 ≤ℤ pos 0) × (result ≡ (stream, Network.initial))
packets-submitted_example =
    packets-submitted all_accepted rects (plasma session) passes stream Network.initial refl refl
