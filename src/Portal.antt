-- ===== src/Portal.antt =====
-- src/PortalSession.cpp: a session with the desktop portal. The portal's answers are arguments; `pending` is the call whose
-- answer a PortalRequest waits for.
pub mod Handshake
pub mod Events
mod Examples
use kheadless_krdp.Prelude.{
  ℕ, zero, suc, ◌+◌, Bool, true, false, ◌&&◌, ◌||◌, not, Option, none, some, List, [], ◌∷◌, ◌++◌,
  ◌==◌, ltb, leb, if◌then◌else◌, length, get_elem?,
}
use kheadless_krdp.Prelude.Int.{ℤ, pos, negsuc, leb_ℤ}
use kheadless_krdp.Geometry.{Size}
use kheadless_krdp.AbstractSession as Abstract
use kheadless_krdp.AbstractSession.{
  AbstractSession, active_stream_or, set_active_stream, set_logical_size, stream, set_started,
}

-- The portal's calls with their options. `types` says which sources may be chosen.
pub data PortalCall : Type 0 where
  create_session : PortalCall
  select_devices : (restore_token : List ℕ) → PortalCall
  select_sources : (types : ℕ) (multiple : Option Bool) → PortalCall
  start_session : PortalCall
  open_pipewire_remote : PortalCall

-- PortalSessionStream with the entry `size` of its map.
pub record PortalStream : Type 0 where
  pub node_id : ℕ
  pub size : Size

-- PortalSession with the AbstractSession that it is, its stream's node and descriptor, the restoration
-- token of the configuration, and the number of `error` signals.
pub record PortalSession : Type 0 where
  pub session : AbstractSession
  pub session_path : List ℕ
  pub node_id : ℕ
  pub descriptor : ℕ
  pub restoration_token : List ℕ
  pub pending : Option PortalCall
  pub calls : List PortalCall
  pub errors : ℕ

-- What the portal answers: the codes of its responses, and what they hold.
pub record Answers : Type 0 where
  pub create_code : ℕ
  pub session_handle : List ℕ
  pub old_token : List ℕ
  pub devices_code : ℕ
  pub sources_code : ℕ
  pub start_code : ℕ
  pub devices : ℕ
  pub restore_token : List ℕ
  pub streams : List PortalStream
  pub remote_opened : Bool
  pub descriptor : ℕ

abbrev pub call : PortalCall → PortalSession → PortalSession
call c s = record s { pending = some c; calls = s.calls ++ c ∷ [] }

abbrev pub error : PortalSession → PortalSession
error s = record s { errors = s.errors + 1 }

unfoldable pub start : PortalSession → PortalSession
start s = call create_session s

-- The token of the state configuration, and if that is empty the one of an older configuration.
pub stored_token : List ℕ → List ℕ → List ℕ
stored_token [] old = old
stored_token (c ∷ cs) old = c ∷ cs

unfoldable pub on_create_session : Answers → PortalSession → PortalSession
unfolding stored_token
on_create_session a s =
    if not (a.create_code == 0)
    then error s
    else call (select_devices (stored_token s.restoration_token a.old_token))
        (record s { session_path = a.session_handle })

abbrev pub is_given {ℓ} : {A : Type ℓ} → Option A → Bool
is_given none = false
is_given (some a) = true

unfoldable pub on_devices_selected : Answers → PortalSession → PortalSession
on_devices_selected a s =
    if not (a.devices_code == 0)
    then error s
    else if is_given s.session.virtual_monitor
    then call (select_sources 4 none) s
    else call (select_sources 1 (some (leb_ℤ (pos 0) (active_stream_or s.session)))) s

unfoldable pub on_sources_selected : Answers → PortalSession → PortalSession
on_sources_selected a s = if not (a.sources_code == 0) then error s else call start_session s

unfoldable pub on_session_started : Answers → PortalSession → PortalSession
on_session_started a s =
    if not (a.start_code == 0)
    then error s
    else if a.devices == 0
    then error s
    else (let t = record s { restoration_token = a.restore_token } in
        if length a.streams == 0 then error t else call open_pipewire_remote t)

-- `activeStream() >= 0 ? activeStream() : 0`.
abbrev pub stream_index : ℤ → ℕ
stream_index (pos index) = index
stream_index (negsuc index) = 0

-- Setting the stream up and starting. `none` stands for a call through a null pointer.
pub start_stream : ℕ → PortalStream → PortalSession → Option PortalSession
start_stream descriptor chosen s =
    elim (set_started true (stream (set_logical_size chosen.size s.session))) [
      | none ↦ none
      | some session ↦
          some (record s { session = session; node_id = chosen.node_id; descriptor = descriptor })
    ]

-- `streams.at(index)` out of range is `none` too.
pub choose_stream : Answers → PortalSession → Option PortalSession
unfolding start_stream
choose_stream a s = elim (get_elem? a.streams (stream_index (active_stream_or s.session))) [
  | none ↦ none
  | some chosen ↦ start_stream a.descriptor chosen s
]

unfoldable pub on_remote_opened : Answers → PortalSession → Option PortalSession
unfolding choose_stream
on_remote_opened a s =
    if not a.remote_opened
    then some (error s)
    else choose_stream a (
        if leb_ℤ (pos (length a.streams)) (active_stream_or s.session)
        then record s { session = set_active_stream (pos 0) s.session }
        else s)

unfoldable pub on_session_closed : PortalSession → PortalSession
on_session_closed s = error s

-- The answer to a call reaches the handler that was given with it.
abbrev pub handle : Answers → PortalCall → PortalSession → Option PortalSession
handle a create_session s = some (on_create_session a s)
handle a (select_devices restore_token) s = some (on_devices_selected a s)
handle a (select_sources types multiple) s = some (on_sources_selected a s)
handle a start_session s = some (on_session_started a s)
handle a open_pipewire_remote s = on_remote_opened a s

abbrev pub respond_to : Answers → Option PortalCall → PortalSession → Option PortalSession
respond_to a none s = some s
respond_to a (some c) s = handle a c (record s { pending = none })

abbrev pub respond : Answers → PortalSession → Option PortalSession
respond a s = respond_to a s.pending s

abbrev pub respond_all : ℕ → Answers → Option PortalSession → Option PortalSession
respond_all zero a s = s
respond_all (suc n) a none = none
respond_all (suc n) a (some s) = respond_all n a (respond a s)

-- A session is started, and every call that it makes is answered.
abbrev pub handshake : Answers → PortalSession → Option PortalSession
handshake a s = respond_all 5 a (some (start s))
