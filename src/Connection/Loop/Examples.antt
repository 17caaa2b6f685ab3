-- ===== src/Connection/Loop/Examples.antt =====
-- src/RdpConnection.cpp: a client that connects, streams, asks for no output, and is gone.
use kheadless_krdp.Prelude.{ℕ, ◌≡◌, refl, Bool, true, false, none, some, List, [], ◌∷◌, ◌==◌, ◌%◌}
use kheadless_krdp.Geometry.{Rect}
use kheadless_krdp.DisplayControl.{DispConstants}
use kheadless_krdp.DisplayControl.Requests as Display
use kheadless_krdp.VideoStream as Video
use kheadless_krdp.VideoStream.Submission as Stream
use kheadless_krdp.Clipboard as Clip
use kheadless_krdp.Connection as Connection
use kheadless_krdp.Connection.{Connection, SetUp, created, PostConnect}
use kheadless_krdp.Connection.Users.{User}
use kheadless_krdp.Connection.Loop.{
  Turn, suppresses_output, connects, ready, turn, run, call_all, open_display, open_video,
  open_dynamic_channels, open_static_channels, open_clipboard,
}
use kheadless_krdp.Connection.Loop.Order.{IsOrdered, run-IsOrdered}
use kheadless_krdp.Connection.Loop.Closing.{IsClosed, run-EndsClosed}
use kheadless_krdp.Connection.Loop.Suppression.{turn-enables}

abbrev pub constants : DispConstants
constants = record {
  layout_size = 40;
  monitor_primary = 1;
  min_width = 200;
  max_width = 8192;
  min_height = 200;
  max_height = 8192;
  min_physical_width = 10;
  max_physical_width = 10000;
  min_physical_height = 10;
  max_physical_height = 10000;
}

abbrev pub never : Rect → Rect → Bool
never r s = false

-- Names of one unit, of which 97 and 65 are one letter.
abbrev pub same : List ℕ → List ℕ → Bool
same (a ∷ []) (b ∷ []) = a % 32 == b % 32
same _ _ = false

abbrev ann : User
ann = record { name = 97 ∷ []; password = 1 ∷ []; read_only = true }

abbrev pub all_well : SetUp
all_well = record {
  peer_created = true;
  context_created = true;
  sam_file_opened = true;
  sam_file_set = true;
  certificate_read = true;
  key_read = true;
  peer_initialized = true;
}

abbrev post_connect : PostConnect
post_connect = record {
  user = some (65 ∷ []);
  address = [];
  users = ann ∷ [];
  audio_context = true;
  audio_server_format = true;
  audio_source_format = true;
  audio_initialized = true;
  now = 5;
}

abbrev pub joins : Turn
joins = record {
  stop_requested = false;
  handle_count = 1;
  descriptor_checked = true;
  callbacks = connects post_connect ∷ suppresses_output false ∷ [];
  connected = true;
  drdynvc_joined = true;
  drdynvc_state = ready;
  display_created = true;
  display_opened = true;
  display_advertised = true;
  settings = record {
    monitor_count = 0;
    monitor_def_array = none;
    desktop_width = 1920;
    desktop_height = 1080;
  };
  video_created = true;
  video_opened = true;
  channel_signalled = false;
  manager_checked = true;
  cliprdr_joined = true;
  clipboard_created = true;
  clipboard_started = true;
}

abbrev pub leaves : Turn
leaves = record joins { descriptor_checked = false }

has_thread_test : (Connection.initialize all_well created).has_thread ≡ true
unfolding Connection.initialize Connection.set_state
has_thread_test = refl

run-IsOrdered_example :
    IsOrdered constants never same
      (run constants never same (joins ∷ leaves ∷ []) (Connection.initialize all_well created))
run-IsOrdered_example =
    run-IsOrdered constants never same all_well (joins ∷ leaves ∷ []) has_thread_test

run-EndsClosed_example :
    ((run constants never same (joins ∷ leaves ∷ []) created).1 ≡ true)
    × IsClosed (run constants never same (joins ∷ leaves ∷ []) created).0
run-EndsClosed_example =
    run-EndsClosed constants never same (joins ∷ []) [] leaves created refl refl

goes_on_test : (turn constants never same joins created).1 ≡ true
unfolding turn call_all open_display open_video open_dynamic_channels open_static_channels
    open_clipboard Display.initialize Stream.initialize Clip.initialize Video.set_enabled
    Connection.set_state Connection.on_suppress_output Connection.on_post_connect
goes_on_test = refl

turn-enables_example : (turn constants never same joins created).0.stream.video.enabled ≡ true
turn-enables_example = turn-enables constants never same joins created goes_on_test refl refl
