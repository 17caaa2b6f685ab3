-- ===== src/Launch.antt =====
-- server/main.cpp: what the program does between its command line and the event loop. QCommandLineParser's answers are
-- the fields of Options, `none` for an option that is not set. Texts are lists of UTF-16 code units.
pub mod Users
pub mod VirtualMonitors
pub mod Outcome
pub mod Serving
mod Examples
use kheadless_krdp.Prelude.{
  ℕ, ◌-◌, ◌%◌, ◌^◌, Bool, true, false, not, Option, none, some, List, [], if◌then◌else◌,
}
use kheadless_krdp.Prelude.Int.{ℤ, pos, negsuc}
use kheadless_krdp.Prelude.Texts.{Text}
use kheadless_krdp.ServerConfig.{Settings, Keychain}
use kheadless_krdp.Server
use kheadless_krdp.Server.{
  Server, set_address, set_port, set_tls_certificate, set_tls_certificate_key,
}
use kheadless_krdp.SessionController.{
  SessionController, SessionType, portal, plasma, created, set_monitor_index, set_virtual_monitor,
  set_quality,
}
use kheadless_krdp.Launch.Users.{add_users}
use kheadless_krdp.Launch.VirtualMonitors.{Groups, match, made}

-- `password` is empty when it is not set.
pub record Options : Type 0 where
  pub username : Option Text
  pub password : Text
  pub address : Option Text
  pub port : Option Text
  pub certificate : Option Text
  pub certificate_key : Option Text
  pub monitor : Option Text
  pub virtual_monitor : Option Text
  pub quality : Option Text
  pub plasma : Bool

-- What is not code of this repository: the conversions of texts, QHostAddress::Any and LocalHost, which files there are
-- and whether a server can listen at an address and a port.
pub record System : Type 0 where
  pub to_int : Text → ℤ
  pub to_double : Text → ℕ
  pub host_address : Text → ℕ
  pub any_host : ℕ
  pub local_host : ℕ
  pub exists : Text → Bool
  pub listens : ℕ → ℕ → Bool

-- An int as a quint16.
abbrev pub to_u16 : ℤ → ℕ
to_u16 (pos n) = n % 2 ^ 16
to_u16 (negsuc n) = 2 ^ 16 - 1 - n % 2 ^ 16

-- parserValueWithDefault.
abbrev pub value_or {ℓ} : {A : Type ℓ} → (Text → A) → Option Text → A → A
value_or convert none default_value = default_value
value_or convert (some text) default_value = convert text

-- What main returns before the event loop, if it does.
pub data Exit : Type 0 where
  serves bad_virtual_monitor not_started : Exit

pub record Launched : Type 0 where
  pub server : Server
  pub controller : SessionController
  pub exit : Exit

abbrev pub new_controller : Bool → SessionController
new_controller wants_plasma = created (if wants_plasma then plasma else portal)

module _ (system : System) where
  abbrev address_of : Option Text → ℕ
  address_of none = system.any_host
  address_of (some text) = system.host_address text

  -- The server before its users are added.
  pub settle : Options → Settings → Server
  settle o config =
      set_tls_certificate_key (value_or (λ t. t) o.certificate_key config.certificate_key) (
        set_tls_certificate (value_or (λ t. t) o.certificate config.certificate) (
          set_port (to_u16 (value_or system.to_int o.port config.listen_port))
            (set_address (address_of o.address) (Server.initial system.local_host))))

  abbrev index_of : Option Text → Option ℤ
  index_of none = none
  index_of (some text) = some (system.to_int text)

  -- The controller with the monitor that is asked for; `none` if the option for a virtual one does not match.
  abbrev matched : Text → Option Groups → SessionController → Option SessionController
  matched text none c = none
  matched text (some groups) c =
      some (set_virtual_monitor (made system.to_int system.to_double text groups) c)

  pub choose_monitor : Options → Option Text → SessionController → Option SessionController
  unfolding match set_virtual_monitor set_monitor_index
  choose_monitor o none c = some (set_monitor_index (index_of o.monitor) c)
  choose_monitor o (some text) c = matched text (match text) c

  -- The part from setQuality.
  abbrev pub serve : Options → Settings → Server → SessionController → Server × Bool → Launched
  serve o config server c (started, true) = record {
    server = started;
    controller = set_quality (some (value_or system.to_int o.quality config.quality)) c;
    exit = serves;
  }
  serve o config server c (failed, false) = record {
    server = failed;
    controller = set_quality (some (value_or system.to_int o.quality config.quality)) c;
    exit = not_started;
  }

  abbrev pub go_on :
      Options → Settings → Server → SessionController → Option SessionController → Launched
  go_on o config server c none = record {
    server = server;
    controller = c;
    exit = bad_virtual_monitor;
  }
  go_on o config server c (some chosen) =
      serve o config server chosen (Server.start system.exists system.listens server)

  module _ (k : Keychain) (latin1 : Text → Text) where
    unfoldable pub launch : Options → Settings → k.State → Launched
    unfolding settle choose_monitor set_quality add_users Server.start set_address set_port
        set_tls_certificate set_tls_certificate_key
    launch o config wallet =
        let server =
          add_users k latin1 o.username o.password config.users wallet (settle o config) in
        let c = new_controller o.plasma in
        go_on o config server c (choose_monitor o o.virtual_monitor c)
