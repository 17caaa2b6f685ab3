-- ===== src/Portal/Examples.antt =====
-- src/PortalSession.cpp: a portal that grants all, for a monitor that is not there, and a session that ends with Ctrl down.
use kheadless_krdp.Prelude.{ℕ, ◌≡◌, refl, true, false, none, some, List, [], ◌∷◌, ◌++◌}
use kheadless_krdp.Prelude.Int.{ℤ, pos}
use kheadless_krdp.AbstractSession as Abstract
use kheadless_krdp.Input.{InputEvent, key}
use kheadless_krdp.Portal.{PortalStream, PortalSession, Answers, handshake}
use kheadless_krdp.Portal.Handshake.{Ends, grants_all, handshake-Ends}
use kheadless_krdp.Portal.Events.{PortalCodes, PortalScreen, destroy}
use kheadless_krdp.Portal.Events.Modifiers.{is_down, held, send_all, destroy-releases}

abbrev monitor : PortalStream
monitor = record { node_id = 77; size = record { width = pos 800; height = pos 600 } }

abbrev answers : Answers
answers = record {
  create_code = 0;
  session_handle = 1 ∷ [];
  old_token = [];
  devices_code = 0;
  sources_code = 0;
  start_code = 0;
  devices = 3;
  restore_token = 2 ∷ [];
  streams = monitor ∷ [];
  remote_opened = true;
  descriptor = 9;
}

abbrev fresh : PortalSession
fresh = record {
  session = record (Abstract.initial) { active_stream = some (pos 4) };
  session_path = [];
  node_id = 0;
  descriptor = 0;
  restoration_token = [];
  pending = none;
  calls = [];
  errors = 0;
}

handshake-Ends_example : Ends true 0 (handshake answers fresh)
handshake-Ends_example = handshake-Ends answers fresh refl

refused_test : grants_all (record answers { devices = 0 }) ≡ false
refused_test = refl

abbrev codes : PortalCodes
codes = record {
  btn_left = 0x110;
  btn_middle = 0x112;
  btn_right = 0x111;
  key_leftctrl = 29;
  key_rightctrl = 97;
  key_leftshift = 42;
  key_rightshift = 54;
  key_leftalt = 56;
  key_rightalt = 100;
  key_leftmeta = 125;
  key_rightmeta = 126;
}

abbrev screen : PortalScreen
screen = record {
  stream_active = true;
  node_id = 77;
  size = record { width = pos 800; height = pos 600 };
  logical_size = record { width = pos 800; height = pos 600 };
}

abbrev scale : ℕ → ℤ → ℤ → ℕ
scale position size logical_size = position

-- Ctrl and A are pressed.
abbrev events : List (PortalScreen × InputEvent)
events = (screen, key true 29 0) ∷ (screen, key true 30 0) ∷ []

destroy-releases_example :
    is_down 29 (held [] (send_all scale codes events ++ destroy scale codes)) ≡ false
destroy-releases_example = destroy-releases scale codes events 29
