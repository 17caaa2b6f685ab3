-- ===== src/SessionController.antt =====
-- server/SessionController.cpp: the controller, which gives each connection a session and a wrapper that joins the two.
-- Connections and wrappers are the numbers of their pointers.
pub mod Wrapper
pub mod Connections
mod Examples
use kheadless_krdp.Prelude.{
  ℕ, ◌+◌, ◌-◌, ◌%◌, ◌^◌, Bool, true, false, Option, none, some, List, [], ◌∷◌, ◌++◌, ◌==◌,
  if◌then◌else◌,
}
use kheadless_krdp.Prelude.Int.{ℤ, pos, negsuc}
use kheadless_krdp.AbstractSession
use kheadless_krdp.AbstractSession.{
  AbstractSession, VirtualMonitor, initial, set_active_stream, set_video_quality,
}

pub data SessionType : Type 0 where
  portal plasma : SessionType

-- A wrapper by its pointer, with its connection and its session.
pub record SessionWrapper : Type 0 where
  pub id : ℕ
  pub connection : ℕ
  pub session_type : SessionType
  pub session : AbstractSession

-- SessionController. `initialization` is whether the session that asks for permissions is there, `started` are the
-- wrappers whose session was told to start, and `closes` the connections that were closed for an error of their session.
pub record SessionController : Type 0 where
  pub session_type : SessionType
  pub monitor_index : Option ℤ
  pub quality : Option ℤ
  pub virtual_monitor : Option VirtualMonitor
  pub initialization : Bool
  pub wrappers : List SessionWrapper
  pub started : List ℕ
  pub closes : List ℕ

abbrev is_portal : SessionType → Bool
is_portal portal = true
is_portal plasma = false

-- The constructor.
abbrev pub created : SessionType → SessionController
created session_type = record {
  session_type = session_type;
  monitor_index = none;
  quality = none;
  virtual_monitor = none;
  initialization = is_portal session_type;
  wrappers = [];
  started = [];
  closes = [];
}

-- What the signals `started` and `error` of the session that asks for permissions are connected to. `none` stands for a
-- call through a null pointer, when it is gone.
unfoldable pub cleanup : SessionController → Option SessionController
cleanup c = if c.initialization then some (record c { initialization = false }) else none

unfoldable pub set_monitor_index : Option ℤ → SessionController → SessionController
set_monitor_index index c = record c { monitor_index = index }

unfoldable pub set_virtual_monitor : VirtualMonitor → SessionController → SessionController
set_virtual_monitor monitor c = record c { virtual_monitor = some monitor }

unfoldable pub set_quality : Option ℤ → SessionController → SessionController
set_quality quality c = record c { quality = quality }

-- An int as a quint8.
abbrev pub to_u8 : ℤ → ℕ
to_u8 (pos n) = n % 2 ^ 8
to_u8 (negsuc n) = 2 ^ 8 - 1 - n % 2 ^ 8

-- `with_plasma` is WITH_PLASMA_SESSION.
unfoldable pub make_session : (with_plasma : Bool) → SessionType → SessionType
make_session true plasma = plasma
make_session _ _ = portal

abbrev pub value_or_none : Option ℤ → ℤ
value_or_none none = negsuc 0
value_or_none (some index) = index

abbrev aim : Option VirtualMonitor → Option ℤ → AbstractSession → AbstractSession
aim (some monitor) index s = AbstractSession.set_virtual_monitor monitor s
aim none index s = set_active_stream (value_or_none index) s

pub configured : Option VirtualMonitor → Option ℤ → ℤ → AbstractSession
unfolding set_video_quality set_active_stream AbstractSession.set_virtual_monitor
configured monitor index quality = set_video_quality (to_u8 quality) (aim monitor index initial)

pub add_wrapper : Bool → ℕ → ℕ → SessionController → ℤ → SessionController
unfolding make_session configured
add_wrapper with_plasma id connection c quality = record c {
  wrappers =
      c.wrappers
      ++ record {
        id = id;
        connection = connection;
        session_type = make_session with_plasma c.session_type;
        session = configured c.virtual_monitor c.monitor_index quality;
      }
        ∷ [];
  started = c.started ++ id ∷ [];
}

-- `none` stands for the exception of a quality that was not set.
abbrev pub with_quality : Bool → ℕ → ℕ → SessionController → Option ℤ → Option SessionController
with_quality with_plasma id connection c none = none
with_quality with_plasma id connection c (some quality) =
    some (add_wrapper with_plasma id connection c quality)

unfoldable pub on_new_connection :
    (with_plasma : Bool) (id connection : ℕ) → SessionController → Option SessionController
on_new_connection with_plasma id connection c = with_quality with_plasma id connection c c.quality

-- std::remove_if with erase.
unfoldable pub remove_wrapper : ℕ → List SessionWrapper → List SessionWrapper
remove_wrapper id [] = []
remove_wrapper id (w ∷ ws) =
    let rest = remove_wrapper id ws in if w.id == id then rest else w ∷ rest

-- What connectionDestroyed of a wrapper is connected to.
unfoldable pub on_connection_destroyed : (id : ℕ) → SessionController → SessionController
unfolding remove_wrapper
on_connection_destroyed id c = record c { wrappers = remove_wrapper id c.wrappers }

-- What sessionError of the wrapper of a connection is connected to.
unfoldable pub on_session_error : (connection : ℕ) → SessionController → SessionController
on_session_error connection c = record c { closes = c.closes ++ connection ∷ [] }
