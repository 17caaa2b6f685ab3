-- ===== src/Plasma/Session.antt =====
-- start of src/PlasmaScreencastV1Session.cpp and the two signals of the stream that it requests. Whether KWin provides a
-- stream is an argument.
use kheadless_krdp.Prelude.{
  ℕ, ◌+◌, ◌≡◌, refl, Bool, true, not, Option, none, some, List, [], ◌∷◌, ◌++◌, if◌then◌else◌,
}
use kheadless_krdp.Geometry.{Size}
use kheadless_krdp.AbstractSession.{
  AbstractSession, VirtualMonitor, set_logical_size, stream, set_started,
}

pub data StreamRequest : Type 0 where
  virtual_monitor_stream : VirtualMonitor → StreamRequest
  workspace_stream : StreamRequest

-- PlasmaScreencastV1Session with the AbstractSession that it is, its stream's node, what it requested, and the number of
-- `error` signals. A text is a list of UTF-16 code units.
pub record PlasmaSession : Type 0 where
  pub session : AbstractSession
  pub last_error : List ℕ
  pub node_id : ℕ
  pub requests : List StreamRequest
  pub errors : ℕ

abbrev pub fail : (reason : List ℕ) → PlasmaSession → PlasmaSession
fail reason s = record s { last_error = reason; errors = s.errors + 1 }

abbrev pub stream_request : Option VirtualMonitor → StreamRequest
stream_request none = workspace_stream
stream_request (some monitor) = virtual_monitor_stream monitor

-- `message` is the text for a protocol that KWin does not provide.
unfoldable pub start : (provided : Bool) (message : List ℕ) → PlasmaSession → PlasmaSession
start provided message s =
    let t = record s {
      last_error = [];
      requests = s.requests ++ stream_request s.session.virtual_monitor ∷ [];
    } in
    if not provided then fail message t else t

unfoldable pub on_failed : (reason : List ℕ) → PlasmaSession → PlasmaSession
on_failed reason s = fail reason s

-- `none` stands for a call through a null pointer.
unfoldable pub on_created : ℕ → Size → PlasmaSession → Option PlasmaSession
on_created node_id size s = elim (set_started true (stream (set_logical_size size s.session))) [
  | none ↦ none
  | some session ↦ some (record s { session = session; node_id = node_id })
]

-- A created stream starts the session: no null pointer is used, and the session keeps who wants it to stream.
pub on_created-starts :
    (node_id : ℕ) (size : Size) (s : PlasmaSession)
    → (t : PlasmaSession) × (on_created node_id size s ≡ some t)
      × (t.session.started ≡ true)
      × (t.session.enabled ≡ s.session.enabled)
      × (t.session.logical_size ≡ size)
unfolding on_created set_started stream set_logical_size
on_created-starts node_id size s = (_, refl, refl, refl, refl)
