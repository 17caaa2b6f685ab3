-- ===== src/FrameRate/Examples.antt =====
-- src/VideoStream.cpp: the first update of the frame rate.
use kheadless_krdp.Prelude.{◌≡◌, refl, [], ◌∷◌, arith}
use kheadless_krdp.Prelude.Int.{pos}
use kheadless_krdp.FrameRate.{initial, estimated_rate, update_requested_frame_rate}
use kheadless_krdp.FrameRate.Range.{IsSound, update_requested_frame_rate-IsSound}

initial-IsSound : IsSound 0 initial
initial-IsSound = record { maximum = refl; made = tt; in_range = (omega arith, omega arith) }

update_requested_frame_rate-IsSound_example :
    IsSound 5000000000 (update_requested_frame_rate 5000000000 20000000 (pos 2) initial)
    × ((update_requested_frame_rate 5000000000 20000000 (pos 2) initial).frame_rate_estimates
        ≡ record { time_stamp = 5000000000; estimate = estimated_rate 20000000 (pos 2) 120 } ∷ [])
update_requested_frame_rate-IsSound_example =
    update_requested_frame_rate-IsSound 0 5000000000 20000000 (pos 2) initial (omega arith)
      initial-IsSound
