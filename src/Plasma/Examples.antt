-- ===== src/Plasma/Examples.antt =====
-- src/PlasmaScreencastV1Session.cpp: a keymap of two keys with two levels, of which the second is not looked at.
use kheadless_krdp.Prelude.{ℕ, ◌+◌, ◌≡◌, refl, true, ◌==◌, if◌then◌else◌, none, some, List, [], ◌∷◌}
use kheadless_krdp.Prelude.Int.{ℤ, pos}
use kheadless_krdp.Input.{InputConstants, KeyTables, key}
use kheadless_krdp.AbstractSession as Abstract
use kheadless_krdp.Screencasting.Examples.{rects}
use kheadless_krdp.Plasma.Session.{PlasmaSession}
use kheadless_krdp.Plasma.Casting.{Desktop, begin, screen_of, virtual_monitor-ignores_input}
use kheadless_krdp.Plasma.{
  Keymap, LinuxCodes, Screen, keycode_from_keysym, find_keycode, find_level, send_event,
}
use kheadless_krdp.Plasma.Lookup.{find, code_at, has_symbol_at, keycode_from_keysym_lem}
use kheadless_krdp.Plasma.Keys.{held, send_all, typed, typed_unicode, typed-held}

abbrev symbols : ℕ → ℕ → List ℕ
symbols keycode level =
    if keycode == 38 then (if level == 0 then 97 ∷ [] else 65 ∷ []) else 115 ∷ []

abbrev keymap : Keymap
keymap = record { min_keycode = 38; max_keycode = 39; levels = λ keycode. 2; symbols = symbols }

capital_test : keycode_from_keysym keymap 65 ≡ some (record { level = 1; code = 30 })
unfolding keycode_from_keysym find_keycode find_level
capital_test = refl

last_test : keycode_from_keysym keymap 115 ≡ none
unfolding keycode_from_keysym find_keycode find_level
last_test = refl

keycode_from_keysym_lem_example :
    keycode_from_keysym keymap 65
    ≡ code_at (find (has_symbol_at keymap 65) ((38, 0) ∷ (38, 1) ∷ []))
keycode_from_keysym_lem_example = keycode_from_keysym_lem keymap 65

abbrev protocol : InputConstants
protocol = record {
  button1 = 0x1000;
  button2 = 0x2000;
  button3 = 0x4000;
  wheel_flag = 0x200;
  wheel_negative = 0x100;
  wheel_rotation_mask = 0x1ff;
  down = 0x8000;
  move = 0x800;
  x_button1 = 1;
  x_button2 = 2;
  x_down = 0x8000;
  extended = 0x100;
  release = 0x8000;
  kbdext = 0x100;
}

abbrev tables : KeyTables
tables = record {
  virtual_key_code = λ code. code;
  keycode = λ code. code + 8;
  keysym = λ code. code;
}

abbrev codes : LinuxCodes
codes = record {
  btn_left = 0x110;
  btn_middle = 0x112;
  btn_right = 0x111;
  key_left_shift = 42;
  key_right_alt = 100;
}

abbrev screen : Screen
screen = record {
  has_stream = true;
  interface_active = true;
  size = record { width = pos 800; height = pos 600 };
  logical_size = record { width = pos 800; height = pos 600 };
}

abbrev scale : ℕ → ℤ → ℤ → ℕ
scale position size logical_size = position

typed-held_example :
    (held []
        (send_all scale codes keymap screen (typed scale codes keymap protocol tables 65 0 0x8000))
      ≡ [])
    × (held [] (
          send_all scale codes keymap screen
            (typed_unicode scale codes keymap protocol tables 65 0 0x8000))
        ≡ [])
typed-held_example = typed-held scale codes keymap protocol tables screen 65 0 0x8000 refl refl refl

abbrev with_monitor : PlasmaSession
with_monitor = record {
  session = record Abstract.initial {
    virtual_monitor = some (record {
      name = 1 ∷ [];
      size = record { width = pos 80; height = pos 60 };
      device_pixel_ratio = 1;
    });
  };
  last_error = [];
  node_id = 0;
  requests = [];
  errors = 0;
}

abbrev desktop : Desktop
desktop = record { active = true; screens = []; rects = rects }

virtual_monitor-ignores_input_example :
    (t : PlasmaSession) × (begin desktop [] 5 with_monitor ≡ some t)
    × (t.session.started ≡ true)
    × (send_event scale codes keymap (screen_of true screen.size t) (key true 30 65) ≡ [])
virtual_monitor-ignores_input_example =
    virtual_monitor-ignores_input scale codes keymap desktop [] 5 with_monitor _ true screen.size
      (key true 30 65) refl refl
