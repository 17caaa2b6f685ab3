-- ===== src/Server.antt =====
-- src/Server.cpp: the server's settings and its list of connections. A connection is the number of its pointer, and an
-- address is a number; the file system and the socket are arguments.
pub mod Sessions
mod Examples
use kheadless_krdp.Prelude.{
  ℕ, ◌+◌, Bool, true, false, ◌||◌, not, Option, none, some, List, [], ◌∷◌, ◌++◌, ◌==◌,
  if◌then◌else◌,
}
use kheadless_krdp.Prelude.Texts.{eq_text}
use kheadless_krdp.Connection.{State, rank, closed}
use kheadless_krdp.Connection.Users.{User}

-- Server::Private with the QTcpServer that it is: `created` are the connections that newConnectionCreated has announced,
-- and `closes` those whose close was called.
pub record Server : Type 0 where
  pub sessions : List ℕ
  pub has_settings : Bool
  pub address : ℕ
  pub port : ℕ
  pub users : List User
  pub tls_certificate : List ℕ
  pub tls_certificate_key : List ℕ
  pub listening : Bool
  pub created : List ℕ
  pub closes : List ℕ

-- `local_host` is QHostAddress::LocalHost.
abbrev pub initial : (local_host : ℕ) → Server
initial local_host = record {
  sessions = [];
  has_settings = false;
  address = local_host;
  port = 3389;
  users = [];
  tls_certificate = [];
  tls_certificate_key = [];
  listening = false;
  created = [];
  closes = [];
}

-- Which files exist, and whether the server can listen at an address and a port.
unfoldable pub start : (exists : List ℕ → Bool) (listens : ℕ → ℕ → Bool) → Server → Server × Bool
start exists listens s =
    if not (exists s.tls_certificate) || not (exists s.tls_certificate_key)
    then (s, false)
    else if not (listens s.address s.port)
    then (s, false)
    else (record s { listening = true; has_settings = true }, true)

unfoldable pub stop : Server → Server
stop s = record s { listening = false; has_settings = false }

unfoldable pub set_address : ℕ → Server → Server
set_address address s = if address == s.address then s else record s { address = address }

unfoldable pub set_port : ℕ → Server → Server
set_port port s = if port == s.port then s else record s { port = port }

unfoldable pub set_tls_certificate : List ℕ → Server → Server
unfolding eq_text
set_tls_certificate path s =
    if eq_text path s.tls_certificate then s else record s { tls_certificate = path }

unfoldable pub set_tls_certificate_key : List ℕ → Server → Server
unfolding eq_text
set_tls_certificate_key path s =
    if eq_text path s.tls_certificate_key then s else record s { tls_certificate_key = path }

pub set_users : List User → Server → Server
set_users users s = record s { users = users }

unfoldable pub add_user : User → Server → Server
add_user user s = record s { users = s.users ++ user ∷ [] }

unfoldable pub incoming_connection : ℕ → Server → Server
incoming_connection id s = record s {
  sessions = s.sessions ++ id ∷ [];
  created = s.created ++ id ∷ [];
}

unfoldable pub contains : ℕ → List ℕ → Bool
contains id [] = false
contains id (x ∷ xs) = x == id || contains id xs

-- std::find_if with erase: the first entry goes.
unfoldable pub erase : ℕ → List ℕ → List ℕ
erase id [] = []
erase id (x ∷ xs) = let rest = erase id xs in if x == id then xs else x ∷ rest

-- What incomingConnection connects to stateChanged. `none` stands for the use of the end of the list.
unfoldable pub on_state_changed : ℕ → State → Server → Option Server
unfolding contains erase
on_state_changed id state s =
    if not (rank state == rank closed)
    then some s
    else if contains id s.sessions
    then some (record s { closes = s.closes ++ id ∷ []; sessions = erase id s.sessions })
    else none
