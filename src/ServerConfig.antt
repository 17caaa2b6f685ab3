-- ===== src/ServerConfig.antt =====
-- src/kcm/kcmkrdpserver.cpp: the settings module, which keeps the names of the users in the settings and their
-- passwords in a keychain. Texts are lists of UTF-16 code units. The keychain (QKeychain), the D-Bus, the file system
-- and KConfig are not code of this repository. The job of a call runs when it is started, and a handler of `finished`
-- is part of the call.
pub mod Accounts
pub mod Certificates
pub mod Examples
use kheadless_krdp.Prelude.{
  ℕ, ◌+◌, Bool, true, false, not, ◌||◌, ◌&&◌, Option, none, some, List, [], ◌∷◌, ◌++◌, ltb,
  if◌then◌else◌, map,
}
use kheadless_krdp.Prelude.Texts.{Text, is_empty, has_text, remove_text}
use kheadless_krdp.Prelude.Int.{ℤ, pos, ltb_ℤ}

-- The entries of KRDPServerSettings.
pub record Settings : Type 0 where
  pub listen_port : ℤ
  pub autogenerate_certificates : Bool
  pub certificate : Text
  pub certificate_key : Text
  pub quality : ℤ
  pub users : List Text
  pub autostart : Bool

pub data Signal : Type 0 where
  settings_changed keychain_error certificate_succeeded certificate_failed : Signal
  password_loaded : (user password : Text) → Signal
  server_running : Bool → Signal

-- The calls to systemd, which are not waited for.
pub data BusCall : Type 0 where
  enable_unit disable_unit start_unit stop_unit restart_unit get_main_pid : BusCall

-- A keychain by its jobs, each for a key: what a write and a delete leave, with whether there was no error, and what is
-- read, `none` for an error.
pub record Keychain : Type 1 where
  pub State : Type 0
  pub write : Text → Text → State → State × Bool
  pub delete : Text → State → State × Bool
  pub read : Text → State → Option Text

-- KRDPServerConfig, with the keychain: `stored` is what the settings were when they were last saved.
pub record ServerConfig (State : Type 0) : Type 0 where
  pub settings : Settings
  pub stored : Settings
  pub wallet : State
  pub signals : List Signal
  pub bus_calls : List BusCall

abbrev pub error_unless : Bool → List Signal
error_unless true = []
error_unless false = keychain_error ∷ []

-- `latin1` is QString::toLatin1, read as a text again.
module _ (k : Keychain) (latin1 : Text → Text) where
  abbrev Config : Type 0
  Config = ServerConfig k.State

  abbrev after_job : k.State × Bool → Config → Config
  after_job r m = record m { wallet = r.0; signals = m.signals ++ error_unless r.1 }

  unfoldable pub write_password_to_wallet :
      Text → Text → ServerConfig k.State → ServerConfig k.State
  write_password_to_wallet user password m = after_job (k.write (latin1 user) password m.wallet) m

  unfoldable pub delete_password_from_wallet : Text → ServerConfig k.State → ServerConfig k.State
  delete_password_from_wallet user m = after_job (k.delete (latin1 user) m.wallet) m

  abbrev pub loaded : Text → Option Text → Signal
  loaded user none = keychain_error
  loaded user (some password) = password_loaded user password

  unfoldable pub read_password_from_wallet : Text → ServerConfig k.State → ServerConfig k.State
  read_password_from_wallet user m =
      if is_empty user
      then m
      else record m { signals = m.signals ++ loaded user (k.read (latin1 user) m.wallet) ∷ [] }

module _ {S : Type 0} where
  abbrev pub set_users : List Text → ServerConfig S → ServerConfig S
  set_users users m = record m { settings = record (m.settings) { users = users } }

  unfoldable pub user_exists : Text → ServerConfig S → Bool
  unfolding has_text
  user_exists username m = has_text username m.settings.users

  unfoldable pub save : ServerConfig S → ServerConfig S
  save m = record m { stored = m.settings; signals = m.signals ++ settings_changed ∷ [] }

  -- `reset` is KQuickManagedConfigModule::defaults.
  unfoldable pub defaults : (reset : Settings → Settings) → ServerConfig S → ServerConfig S
  defaults reset m =
      let users = m.settings.users in set_users users (record m { settings = reset m.settings })

-- The list without a name that it has.
abbrev pub without : Text → List Text → List Text
without name users = if has_text name users then remove_text name users else users

module _ (k : Keychain) (latin1 : Text → Text) where
  unfoldable pub add_user : Text → Text → ServerConfig k.State → ServerConfig k.State
  unfolding save write_password_to_wallet
  add_user username password m = save (
      if is_empty username
      then m
      else set_users (m.settings.users ++ username ∷ [])
          (write_password_to_wallet k latin1 username password m))

  unfoldable pub modify_user : Text → Text → Text → ServerConfig k.State → ServerConfig k.State
  unfolding save write_password_to_wallet delete_password_from_wallet user_exists remove_text
  modify_user old_username new_username new_password m =
      if user_exists new_username m
      then m
      else if not (is_empty new_username)
      then save (
          set_users (without old_username m.settings.users ++ new_username ∷ []) (
            write_password_to_wallet k latin1 new_username new_password
              (delete_password_from_wallet k latin1 old_username m)))
      else save (
          if is_empty old_username
          then m
          else write_password_to_wallet k latin1 old_username new_password m)

  unfoldable pub delete_user : Text → ServerConfig k.State → ServerConfig k.State
  unfolding save delete_password_from_wallet remove_text has_text
  delete_user username m = save (
      if is_empty username
      then m
      else set_users (without username m.settings.users)
          (delete_password_from_wallet k latin1 username m))

-- An interface of QNetworkInterface, by its flag IsLoopBack and its addresses, each with whether it is of private use.
pub record Interface : Type 0 where
  pub is_loop_back : Bool
  pub addresses : List (Bool × Text)

pub private_addresses : List (Bool × Text) → List Text
private_addresses [] = []
private_addresses ((is_private, address) ∷ rest) =
    let others = private_addresses rest in if is_private then address ∷ others else others

unfoldable pub listen_address_list : List Interface → List Text
unfolding private_addresses
listen_address_list [] = []
listen_address_list (i ∷ rest) =
    let others = listen_address_list rest in
    if not i.is_loop_back then private_addresses i.addresses ++ others else others

module _ {S : Type 0} where
  abbrev called : BusCall → ServerConfig S → ServerConfig S
  called call m = record m { bus_calls = m.bus_calls ++ call ∷ [] }

  unfoldable pub toggle_autoconnect : Bool → ServerConfig S → ServerConfig S
  toggle_autoconnect enabled m = called (if enabled then enable_unit else disable_unit) m

  unfoldable pub toggle_server : Bool → ServerConfig S → ServerConfig S
  toggle_server enabled m = called (if enabled then start_unit else stop_unit) m

  -- With the process number that systemd answers, 0 if there is none.
  unfoldable pub check_server_running : (pid : ℤ) → ServerConfig S → ServerConfig S
  check_server_running pid m =
      let asked = called get_main_pid m in
      record asked { signals = asked.signals ++ server_running (ltb_ℤ (pos 0) pid) ∷ [] }

  -- The process number is that after the restart.
  unfoldable pub restart_server : (pid : ℤ) → ServerConfig S → ServerConfig S
  unfolding check_server_running
  restart_server pid m = check_server_running pid (called restart_unit m)

-- "/krdpserver/krdp.crt" and "/krdpserver/krdp.key".
abbrev pub certificate_name : Text
certificate_name =
    47 ∷ 107 ∷ 114 ∷ 100 ∷ 112 ∷ 115 ∷ 101 ∷ 114 ∷ 118 ∷ 101 ∷ 114 ∷ 47 ∷ 107 ∷ 114 ∷ 100 ∷ 112 ∷ 46
    ∷ 99 ∷ 114 ∷ 116 ∷ []

abbrev pub certificate_key_name : Text
certificate_key_name =
    47 ∷ 107 ∷ 114 ∷ 100 ∷ 112 ∷ 115 ∷ 101 ∷ 114 ∷ 118 ∷ 101 ∷ 114 ∷ 47 ∷ 107 ∷ 114 ∷ 100 ∷ 112 ∷ 46
    ∷ 107 ∷ 101 ∷ 121 ∷ []

-- `location` is where generic data is written, and `exists` says which files there are when openssl has run.
module _ {S : Type 0} (location : Text) where
  unfoldable pub generate_certificate : (exists : Text → Bool) → ServerConfig S → ServerConfig S
  generate_certificate exists m =
      if not (is_empty m.settings.certificate) || not (is_empty m.settings.certificate_key)
      then m
      else (let certificate_path = location ++ certificate_name in
          let certificate_key_path = location ++ certificate_key_name in
          let settings = record (m.settings) {
            certificate = certificate_path;
            certificate_key = certificate_key_path;
          } in
          record m {
            settings = settings;
            stored = settings;
            signals =
                m.signals
                ++ (if exists certificate_path && exists certificate_key_path
                    then certificate_succeeded
                    else certificate_failed)
                  ∷ [];
          })

  -- The constructor.
  unfoldable pub opened : (exists : Text → Bool) → ServerConfig S → ServerConfig S
  unfolding generate_certificate
  opened exists m =
      if m.settings.autogenerate_certificates then generate_certificate exists m else m
