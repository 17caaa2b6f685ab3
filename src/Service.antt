-- ===== src/Service.antt =====
-- src/Server.cpp with server/SessionController.cpp: connections that come and go, with the wrapper of each.
pub mod Wrappers
pub mod Life
mod Examples
use kheadless_krdp.Prelude.{
  ℕ, ◌≡◌, Bool, true, false, not, Option, none, some, List, [], ◌∷◌, ◌==◌, if◌then◌else◌,
}
use kheadless_krdp.Connection.{State, rank, closed}
use kheadless_krdp.Server
use kheadless_krdp.Server.{Server, incoming_connection, on_state_changed, contains}
use kheadless_krdp.SessionController.{
  SessionController, SessionWrapper, on_new_connection, on_connection_destroyed,
}
use kheadless_krdp.SessionController.Connections.{ids}

pub record Service : Type 0 where
  pub server : Server
  pub controller : SessionController

-- The wrappers that a connection is announced to when it is destroyed: those that were made with it.
pub wrappers_of : ℕ → List SessionWrapper → List ℕ
wrappers_of connection [] = []
wrappers_of connection (w ∷ ws) =
    let rest = wrappers_of connection ws in if w.connection == connection then w.id ∷ rest else rest

pub destroy_all : List ℕ → SessionController → SessionController
destroy_all [] c = c
destroy_all (id ∷ rest) c = destroy_all rest (on_connection_destroyed id c)

-- The destruction of a connection, whose wrappers announce it to the controller.
unfoldable pub destroy_connection : ℕ → SessionController → SessionController
unfolding wrappers_of destroy_all
destroy_connection connection c = destroy_all (wrappers_of connection c.wrappers) c

-- A connection and its wrapper are made under pointers that are not in use.
pub data Reach (with_plasma : Bool) : Service → Type 0 where
  begins :
      (local_host : ℕ) (c : SessionController)
      → c.wrappers ≡ []
      → Reach with_plasma (record { server = Server.initial local_host; controller = c })
  connects :
      {s : Service} {c : SessionController} (wrapper connection : ℕ)
      → contains connection s.server.sessions ≡ false
      → contains wrapper (ids s.controller.wrappers) ≡ false
      → on_new_connection with_plasma wrapper connection s.controller ≡ some c
      → Reach with_plasma s
      → Reach with_plasma
          (record { server = incoming_connection connection s.server; controller = c })
  -- A connection that has closed is erased, which destroys it.
  announces :
      {s : Service} {t : Server} (connection : ℕ) (state : State)
      → on_state_changed connection state s.server ≡ some t
      → Reach with_plasma s
      → Reach with_plasma (record {
        server = t;
        controller =
            if rank state == rank closed
            then destroy_connection connection s.controller
            else s.controller;
      })
