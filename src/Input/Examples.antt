-- ===== src/Input/Examples.antt =====
-- src/InputHandler.cpp: a wheel, a move, and keys, with the constants of the protocol and small key tables.
use kheadless_krdp.Prelude.{◌+◌, ◌≡◌, refl, true, List, [], ◌∷◌, length}
use kheadless_krdp.Prelude.Int.{pos, negsuc, ◌-ℤ◌}
use kheadless_krdp.Input.{
  InputConstants, KeyTables, InputHandler, wheel, initial, emit, set_enabled, mouse_event,
}
use kheadless_krdp.Input.Wheel.{mouse_event-wheel}
use kheadless_krdp.Input.Outcome.{
  InputCall, moves_mouse, moves_extended, types, handle, handle_outcome,
}

abbrev protocol : InputConstants
protocol = record {
  button1 = 0x1000;
  button2 = 0x2000;
  button3 = 0x4000;
  wheel_flag = 0x200;
  wheel_negative = 0x100;
  wheel_rotation_mask = 0x1ff;
  down = 0x8000;
  move = 0x800;
  x_button1 = 1;
  x_button2 = 2;
  x_down = 0x8000;
  extended = 0x100;
  release = 0x8000;
  kbdext = 0x100;
}

abbrev tables : KeyTables
tables = record { virtual_key_code = λ code. code; keycode = λ code. code + 8; keysym = λ code. 0 }

abbrev listening : InputHandler
listening = record { enabled = true; emitted = [] }

set_enabled_test : set_enabled true initial ≡ listening
unfolding set_enabled
set_enabled_test = refl

-- 0x388 is the wheel flag with the rotation -120.
mouse_event-wheel_example :
    mouse_event protocol tables 5 6 0x388 listening
    ≡ (emit (wheel (pos 0 -ℤ negsuc 119) 5 6) listening, true)
mouse_event-wheel_example =
    mouse_event-wheel protocol tables 5 6 0x388 listening refl refl refl refl

abbrev input : List InputCall
input = moves_mouse 5 6 0x8000 ∷ types 30 0 ∷ moves_extended 5 6 0x800 ∷ []

handle_outcome_example :
    (length (handle protocol tables (types 30 0) listening).0.emitted ≡ 1)
    × ((handle protocol tables (types 30 0) listening).1 ≡ true)
    × ((handle protocol tables (types 30 0) listening).0.enabled ≡ true)
handle_outcome_example = handle_outcome protocol tables (types 30 0) listening refl
