-- ===== src/Connection.antt =====
-- src/RdpConnection.cpp: a connection, its thread, and the channels that it opens and closes. What FreeRDP and the system
-- answer are arguments. NetworkDetection and the input handler, which the thread only calls, are parts of their own.
pub mod Users
pub mod Settings
pub mod Sam
pub mod Loop
mod Examples
use kheadless_krdp.Prelude.{
  ℕ, suc, ◌+◌, Bool, true, false, ◌&&◌, ◌||◌, not, Option, List, [], ◌∷◌, ◌++◌, ◌==◌, if◌then◌else◌,
}
use kheadless_krdp.Geometry.{Rect}
use kheadless_krdp.Monitor.{DisplayMonitor}
use kheadless_krdp.DisplayControl.{DispConstants}
use kheadless_krdp.DisplayControl.Requests as Display
use kheadless_krdp.DisplayControl.Requests.{DisplayRequests, MonitorSettings}
use kheadless_krdp.VideoStream as Video
use kheadless_krdp.VideoStream.Submission as Stream
use kheadless_krdp.VideoStream.Submission.{Submission}
use kheadless_krdp.Clipboard as Clip
use kheadless_krdp.Clipboard.{Clipboard}
use kheadless_krdp.Audio as Audio
use kheadless_krdp.Audio.{AudioStream}
use kheadless_krdp.Connection.Users.{User, user_name, is_read_only}

pub data State : Type 0 where
  initial starting running streaming closed : State

-- The arguments of the signal `authenticated`.
pub record Authentication : Type 0 where
  pub name : List ℕ
  pub address : List ℕ
  pub read_only : Bool

-- RdpConnection::Private: the parts that have channels, whether there is a peer and a thread, the calls of peer->Close,
-- the error that the client was told, and the states that stateChanged has announced, and the
-- clients that `authenticated` has.
pub record Connection : Type 0 where
  pub state : State
  pub announced : List State
  pub display : DisplayRequests
  pub stream : Submission
  pub clipboard : Clipboard
  pub audio : AudioStream
  pub has_peer : Bool
  pub has_thread : Bool
  pub has_sam_file : Bool
  pub authenticated : List Authentication
  pub peer_closes : ℕ
  pub graphics_failed : Bool

abbrev pub created : Connection
created = record {
  state = initial;
  announced = [];
  display = Display.initial;
  stream = record { video = Video.initial; submitting = false };
  clipboard = Clip.initial;
  audio = Audio.initial;
  has_peer = false;
  has_thread = false;
  has_sam_file = false;
  authenticated = [];
  peer_closes = 0;
  graphics_failed = false;
}

abbrev pub rank : State → ℕ
rank initial = 0
rank starting = 1
rank running = 2
rank streaming = 3
rank closed = 4

unfoldable pub set_state : State → Connection → Connection
set_state new_state c =
    if rank new_state == rank c.state
    then c
    else record c { state = new_state; announced = c.announced ++ new_state ∷ [] }

pub data CloseReason : Type 0 where
  none video_init_failed : CloseReason

abbrev pub close_peer : Connection → Connection
close_peer c = record c { peer_closes = c.peer_closes + 1 }

unfoldable pub close : CloseReason → Connection → Connection
close none c = close_peer c
close video_init_failed c = close_peer (record c { graphics_failed = true })

unfoldable pub set_monitor_layout : List DisplayMonitor → Connection → Connection
unfolding Video.set_monitor_layout
set_monitor_layout monitors c = record c {
  stream = record (c.stream) { video = Video.set_monitor_layout monitors c.stream.video };
}

-- The destructor. The thread that it waits for ends its loop as in Loop before.
unfoldable pub destroy : Connection → Connection
destroy c =
    let t = if rank c.state == rank streaming then close_peer c else c in
    record t { has_thread = false; has_peer = false }

-- What the constructor connects to VideoStream::closed.
unfoldable pub on_video_closed : Connection → Connection
on_video_closed c =
    if rank c.state == rank running || rank c.state == rank streaming then close_peer c else c

-- Which of the calls of initialize succeed, in their order.
pub record SetUp : Type 0 where
  pub peer_created : Bool
  pub context_created : Bool
  pub sam_file_opened : Bool
  pub sam_file_set : Bool
  pub certificate_read : Bool
  pub key_read : Bool
  pub peer_initialized : Bool

-- A SAM file that cannot be opened is not noticed. The settings made on the way are those of Settings.configure, and what
-- the file holds is in Sam.
unfoldable pub initialize : SetUp → Connection → Connection
unfolding set_state
initialize up c =
    let t = set_state starting c in
    if not up.peer_created
    then record t { has_peer = false }
    else if not up.context_created
    then record t { has_peer = true }
    else (let u = record t { has_peer = true; has_sam_file = up.sam_file_opened } in
        if not up.sam_file_set
          || not up.certificate_read
          || not up.key_read
          || not up.peer_initialized
        then u
        else record u { has_thread = true })

-- What onPostConnect meets: the name and the address of the client, the server's users, and for the audio stream what
-- AudioStream::initialize does.
pub record PostConnect : Type 0 where
  pub user : Option (List ℕ)
  pub address : List ℕ
  pub users : List User
  pub audio_context : Bool
  pub audio_server_format : Bool
  pub audio_source_format : Bool
  pub audio_initialized : Bool
  pub now : ℕ

-- `same` is QString::compare without regard to case.
unfoldable pub on_post_connect : (List ℕ → List ℕ → Bool) → PostConnect → Connection → Connection
on_post_connect same p c =
    let name = user_name p.user in
    record c {
      authenticated =
          c.authenticated
          ++ record { name = name; address = p.address; read_only = is_read_only same name p.users }
            ∷ [];
      audio =
          (Audio.initialize p.audio_context p.audio_server_format p.audio_source_format
            p.audio_initialized p.now c.audio).0;
      has_sam_file = false;
    }

unfoldable pub on_suppress_output : Bool → Connection → Connection
on_suppress_output allow c = record c {
  stream = record (c.stream) { video = Video.set_enabled allow c.stream.video };
}

unfoldable pub on_close : Connection → Connection
unfolding set_state
on_close c = set_state closed (record c {
  display = Display.close c.display;
  audio = Audio.close c.audio;
  clipboard = Clip.close c.clipboard;
  stream = Stream.close c.stream;
})
