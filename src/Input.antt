-- ===== src/Input.antt =====
-- src/InputHandler.cpp. What inputEvent announces is appended to `emitted`. The constants of FreeRDP and WinPR and the
-- key tables of WinPR and xkbcommon are arguments.
pub mod Wheel
pub mod Outcome
mod Examples
use kheadless_krdp.Prelude.{
  ℕ, ◌+◌, ◌-◌, ◌^◌, Bool, true, false, ◌||◌, not, Option, none, some, List, [], ◌∷◌, ◌++◌, ◌==◌,
  bit_and, bit_or, if◌then◌else◌,
}
use kheadless_krdp.Prelude.Int.{ℤ, pos, ◌-ℤ◌}

pub data MouseButton : Type 0 where
  no_button : MouseButton
  left_button : MouseButton
  right_button : MouseButton
  middle_button : MouseButton
  back_button : MouseButton
  forward_button : MouseButton

pub data MouseEventType : Type 0 where
  mouse_button_press : MouseEventType
  mouse_move : MouseEventType
  mouse_button_release : MouseEventType

-- A QMouseEvent and a QWheelEvent with their position, and a QKeyEvent with its native scan code and its native virtual
-- key. `angle` is the vertical part of the angle delta.
pub data InputEvent : Type 0 where
  mouse : MouseEventType → MouseButton → (x y : ℕ) → InputEvent
  wheel : (angle : ℤ) (x y : ℕ) → InputEvent
  key : (pressed : Bool) (scan_code virtual_key : ℕ) → InputEvent

-- PTR_FLAGS_…, PTR_XFLAGS_…, KBD_FLAGS_… and KBDEXT.
pub record InputConstants : Type 0 where
  pub button1 : ℕ
  pub button2 : ℕ
  pub button3 : ℕ
  pub wheel_flag : ℕ
  pub wheel_negative : ℕ
  pub wheel_rotation_mask : ℕ
  pub down : ℕ
  pub move : ℕ
  pub x_button1 : ℕ
  pub x_button2 : ℕ
  pub x_down : ℕ
  pub extended : ℕ
  pub release : ℕ
  pub kbdext : ℕ

-- GetVirtualKeyCodeFromVirtualScanCode(code, 4), GetKeycodeFromVirtualKeyCode(code, WINPR_KEYCODE_TYPE_EVDEV), and
-- xkb_utf32_to_keysym of the first code point of the text that one UTF-16 code unit makes.
pub record KeyTables : Type 0 where
  pub virtual_key_code : ℕ → ℕ
  pub keycode : ℕ → ℕ
  pub keysym : ℕ → ℕ

pub record InputHandler : Type 0 where
  pub enabled : Bool
  pub emitted : List InputEvent

abbrev pub initial : InputHandler
initial = record { enabled = false; emitted = [] }

abbrev pub emit : InputEvent → InputHandler → InputHandler
emit event s = record s { emitted = s.emitted ++ event ∷ [] }

unfoldable pub set_enabled : Bool → InputHandler → InputHandler
set_enabled enabled s = record s { enabled = enabled }

-- `flags & flag` as a test.
abbrev pub has : ℕ → ℕ → Bool
has flags flag = not (bit_and flags flag == 0)

pub synchronize_event : InputHandler → InputHandler × Bool
synchronize_event s = if not s.enabled then (s, true) else (s, true)

module _ (c : InputConstants) (tables : KeyTables) where
  pub pointer_button : ℕ → MouseButton
  pointer_button flags =
      if has flags c.button1
      then left_button
      else if has flags c.button2
      then right_button
      else if has flags c.button3
      then middle_button
      else no_button

  -- The complement is taken of an int of 32 bits, and the magnitude is then given its sign.
  pub axis_magnitude : ℕ → ℕ
  axis_magnitude flags =
      let axis = bit_and flags c.wheel_rotation_mask in
      if has axis c.wheel_negative
      then bit_and (2 ^ 32 - 1 - axis) c.wheel_rotation_mask + 1
      else axis

  pub wheel_angle : ℕ → ℤ
  wheel_angle flags =
      if has flags c.wheel_negative
      then pos (axis_magnitude flags)
      else pos 0 -ℤ pos (axis_magnitude flags)

  pub pointer_type : ℕ → MouseEventType
  pointer_type flags =
      if has flags c.down
      then mouse_button_press
      else if has flags c.move
      then mouse_move
      else mouse_button_release

  unfoldable pub mouse_event : (x y flags : ℕ) → InputHandler → InputHandler × Bool
  unfolding pointer_button wheel_angle pointer_type
  mouse_event x y flags s =
      if not s.enabled
      then (s, true)
      else if has flags c.wheel_flag || has flags c.wheel_negative
      then (emit (wheel (wheel_angle flags) x y) s, true)
      else (emit (mouse (pointer_type flags) (pointer_button flags) x y) s, true)

  pub extended_button : ℕ → Option MouseButton
  extended_button flags =
      if has flags c.x_button1
      then some back_button
      else if has flags c.x_button2
      then some forward_button
      else none

  pub extended_mouse_event : (x y flags : ℕ) → InputHandler → InputHandler × Bool
  unfolding extended_button
  extended_mouse_event x y flags s =
      if not s.enabled
      then (s, true)
      else if has flags c.move
      then mouse_event x y c.move s
      else elim (extended_button flags) [
        | none ↦ (s, false)
        | some button ↦ (
          emit
              (mouse (if has flags c.x_down then mouse_button_press else mouse_button_release)
                button x y)
              s,
          true,
        )
      ]

  unfoldable pub key_code : (code flags : ℕ) → ℕ
  key_code code flags =
      let virtual_code =
        tables.virtual_key_code (if has flags c.extended then bit_or code c.kbdext else code) in
      tables.keycode (if has flags c.extended then bit_or virtual_code c.kbdext else virtual_code)

  unfoldable pub keyboard_event : (code flags : ℕ) → InputHandler → InputHandler × Bool
  unfolding key_code
  keyboard_event code flags s =
      if not s.enabled
      then (s, true)
      else (emit (key (not (has flags c.release)) (key_code code flags) 0) s, true)

  unfoldable pub unicode_keyboard_event : (code flags : ℕ) → InputHandler → InputHandler × Bool
  unicode_keyboard_event code flags s =
      if not s.enabled
      then (s, true)
      else if tables.keysym code == 0
      then (s, true)
      else (emit (key (not (has flags c.release)) 0 (tables.keysym code)) s, true)
