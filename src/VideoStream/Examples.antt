-- ===== src/VideoStream/Examples.antt =====
-- src/VideoStream.cpp: layouts and acknowledgements.
use kheadless_krdp.Prelude.{true, [], ◌∷◌}
use kheadless_krdp.Prelude.Int.{pos, negsuc}
use kheadless_krdp.Monitor.{DisplayMonitor}
use kheadless_krdp.VideoStream.{VideoStream, initial}

abbrev screen : DisplayMonitor
screen = record {
  position = record { x = pos 0; y = pos 0 };
  size = record { width = pos 1920; height = pos 1080 };
  physical_size = record { width = negsuc 0; height = negsuc 0 };
  orientation = 0;
  desktop_scale_factor = 100;
  device_scale_factor = 100;
  primary = true;
}

abbrev in_flight : VideoStream
in_flight = record initial { encoded_frames = 5; pending_frames = 4 ∷ 3 ∷ [] }
