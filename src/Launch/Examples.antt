-- ===== src/Launch/Examples.antt =====
-- server/main.cpp with server/SessionController.cpp and src/kcm/kcmkrdpserver.cpp: two users of the settings, and a
-- virtual monitor of 80x60@1.5.
use kheadless_krdp.Prelude.{
  ℕ, ◌+◌, ◌-◌, ◌*◌, ◌≡◌, ◌↔◌, refl, true, ◌&&◌, not, none, some, List, [], ◌∷◌, ◌++◌, map,
  if◌then◌else◌, All, arith, length,
}
use kheadless_krdp.Prelude.Int.{pos}
use kheadless_krdp.Prelude.Texts.{Text, has_text}
use kheadless_krdp.Server
use kheadless_krdp.SessionController.{SessionController}
use kheadless_krdp.SessionController.Connections.{connects, destroyed, run, ids, ControllerEvent}
use kheadless_krdp.ServerConfig.{ServerConfig}
use kheadless_krdp.ServerConfig.Accounts.{
  Edit, adds, modifies, edit_all, intend_all, change, add_account, drop_account,
}
use kheadless_krdp.ServerConfig.Examples.{
  Entries, keychain, keychain-IsOpen, latin1, latin1-KeepsLatin1, settings, fresh,
}
use kheadless_krdp.Launch.{Options, System, serves, bad_virtual_monitor, not_started, launch}
use kheadless_krdp.Launch.Users.{add_users, user_of, add_users-edit_all}
use kheadless_krdp.Launch.VirtualMonitors.{match, Groups}
use kheadless_krdp.Launch.VirtualMonitors.Pieces.{form}
use kheadless_krdp.Launch.VirtualMonitors.Matching.{Occurs, match_iff}
use kheadless_krdp.Launch.Outcome.{monitor_matches, can_start, launch-exit}
use kheadless_krdp.Launch.Serving.{IsServed, launch-serves}

-- The user 97 is added and renamed to 98, and the user 99 is added.
abbrev edits : List Edit
edits =
    adds (97 ∷ []) (1 ∷ []) ∷ adds (99 ∷ []) (2 ∷ []) ∷ modifies (97 ∷ []) (98 ∷ []) (3 ∷ []) ∷ []

abbrev edited : ServerConfig Entries
edited = edit_all keychain latin1 edits fresh

add_users-edit_all_example :
    (add_users keychain latin1 none [] edited.stored.users edited.wallet (Server.initial 1)).users
    ≡ [] ++ map (λ (name, password). user_of name password) (intend_all edits [])
add_users-edit_all_example =
    add_users-edit_all keychain latin1 edits [] fresh (Server.initial 1) [] keychain-IsOpen
      latin1-KeepsLatin1 (omega arith) (refl, refl, tt)

intend_all_test : intend_all edits [] ≡ (99 ∷ [], 2 ∷ []) ∷ (98 ∷ [], 3 ∷ []) ∷ []
unfolding add_account drop_account change has_text
intend_all_test = refl

-- 80x60@1.5
abbrev monitor : Text
monitor = form (56 ∷ 48 ∷ []) (54 ∷ 48 ∷ []) (49 ∷ 46 ∷ 53 ∷ [])

-- a1x1@.z
abbrev junk : Text
junk = 97 ∷ 49 ∷ 120 ∷ 49 ∷ 64 ∷ 46 ∷ 122 ∷ []

junk_test : match junk ≡ some (49 ∷ [], 49 ∷ [], 46 ∷ [])
unfolding match
junk_test = refl

match_iff_example : ((r : Groups) × (match junk ≡ some r)) ↔ Occurs junk
match_iff_example = match_iff junk

abbrev number : ℕ → Text → ℕ
number n [] = n
number n (c ∷ cs) = number (n * 10 + (c - 48)) cs

abbrev system : System
system = record {
  to_int = λ text. pos (number 0 text);
  to_double = λ text. length text;
  host_address = λ text. 5;
  any_host = 0;
  local_host = 1;
  exists = λ path. true;
  listens = λ address port. true;
}

abbrev options : Options
options = record {
  username = none;
  password = [];
  address = none;
  port = none;
  certificate = none;
  certificate_key = none;
  monitor = none;
  virtual_monitor = some monitor;
  quality = none;
  plasma = true;
}

launch-exit_example :
    (let l = launch system keychain latin1 options settings [] in
      (l.exit ≡ (
        if not (monitor_matches options.virtual_monitor)
        then bad_virtual_monitor
        else if can_start system options settings
        then serves
        else not_started))
      × (l.server.listening
          ≡ (monitor_matches options.virtual_monitor && can_start system options settings)))
launch-exit_example = launch-exit system keychain latin1 options settings []

serves_test : (launch system keychain latin1 options settings []).exit ≡ serves
unfolding launch match
serves_test = refl

abbrev events : List ControllerEvent
events = connects 1 10 ∷ connects 2 20 ∷ destroyed 1 ∷ []

launch-serves_example :
    (u : SessionController) × (run true events
        (some (launch system keychain latin1 options settings []).controller)
      ≡ some u)
    × (ids u.wrappers ≡ 2 ∷ [])
    × (u.started ≡ 1 ∷ 2 ∷ [])
    × All (IsServed system true options settings) u.wrappers
launch-serves_example =
    launch-serves system keychain latin1 true options settings [] events serves_test
