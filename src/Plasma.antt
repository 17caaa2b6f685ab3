-- ===== src/Plasma.antt =====
-- src/PlasmaScreencastV1Session.cpp: what a session with KWin's fake input makes of an event. xkbcommon's keymap, the key
-- codes of Linux and the arithmetic of doubles are arguments.
pub mod Lookup
pub mod Keys
pub mod Session
pub mod Casting
mod Examples
use kheadless_krdp.Prelude.{
  ℕ, suc, zero, ◌+◌, ◌-◌, ◌*◌, ◌/◌, ◌%◌, ◌^◌, Bool, true, false, ◌&&◌, ◌||◌, not, Option, none,
  some, List, [], ◌∷◌, ◌++◌, ◌==◌, any, if◌then◌else◌,
}
use kheadless_krdp.Prelude.Int.{ℤ, pos, negsuc, ◌-ℤ◌}
use kheadless_krdp.Geometry.{Size}
use kheadless_krdp.VideoStream.Submission.{is_empty}
use kheadless_krdp.Input.{
  InputEvent, mouse, wheel, key, MouseButton, left_button, middle_button, right_button, no_button,
  back_button, forward_button, MouseEventType, mouse_button_press, mouse_button_release, mouse_move,
}

-- The keymap with the layout in effect: the key symbols of each level of a key.
pub record Keymap : Type 0 where
  pub min_keycode : ℕ
  pub max_keycode : ℕ
  pub levels : ℕ → ℕ
  pub symbols : (keycode level : ℕ) → List ℕ

-- Xkb::Code.
pub record KeyCode : Type 0 where
  pub level : ℕ
  pub code : ℕ

abbrev pub has_symbol : Keymap → (keysym keycode level : ℕ) → Bool
has_symbol m keysym keycode level = any (λ symbol. symbol == keysym) (m.symbols keycode level)

-- The loop over `left` levels from the one given.
pub find_level : Keymap → (keysym keycode left level : ℕ) → Option ℕ
find_level m keysym keycode zero level = none
find_level m keysym keycode (suc left) level =
    let rest = find_level m keysym keycode left (suc level) in
    if has_symbol m keysym keycode level then some level else rest

-- The loop over `left` keycodes from the one given. EVDEV_OFFSET is 8, and it is subtracted in uint32_t.
pub find_keycode : Keymap → (keysym left keycode : ℕ) → Option KeyCode
unfolding find_level
find_keycode m keysym zero keycode = none
find_keycode m keysym (suc left) keycode =
    let rest = find_keycode m keysym left (suc keycode) in
    elim (find_level m keysym keycode (m.levels keycode) 0) [
      | none ↦ rest
      | some level ↦ some (record { level = level; code = (keycode + 2 ^ 32 - 8) % 2 ^ 32 })
    ]

-- The last keycode of the keymap is not looked at.
unfoldable pub keycode_from_keysym : Keymap → ℕ → Option KeyCode
unfolding find_keycode
keycode_from_keysym m keysym = find_keycode m keysym (m.max_keycode - m.min_keycode) m.min_keycode

-- BTN_… and KEY_… of Linux.
pub record LinuxCodes : Type 0 where
  pub btn_left : ℕ
  pub btn_middle : ℕ
  pub btn_right : ℕ
  pub key_left_shift : ℕ
  pub key_right_alt : ℕ

pub data FakeRequest {ℓ} (Real : Type ℓ) : Type ℓ where
  button : (code : ℕ) (pressed : Bool) → FakeRequest Real
  pointer_motion_absolute : Real → Real → FakeRequest Real
  axis : ℤ → FakeRequest Real
  keyboard_key : (code : ℕ) (pressed : Bool) → FakeRequest Real

-- What the session has to send events: a stream, an active interface, and the two sizes.
pub record Screen : Type 0 where
  pub has_stream : Bool
  pub interface_active : Bool
  pub size : Size
  pub logical_size : Size

-- The quotient of an int, toward 0.
abbrev pub notches : ℤ → ℤ
notches (pos n) = pos (n / 120)
notches (negsuc n) = pos 0 -ℤ pos (suc n / 120)

-- `scale position size logical_size` is (position / size) * logical_size.
module _ {ℓ} {Real : Type ℓ} (scale : ℕ → ℤ → ℤ → Real) (codes : LinuxCodes) (keymap : Keymap) where
  pub button_code : MouseButton → Option ℕ
  button_code left_button = some codes.btn_left
  button_code middle_button = some codes.btn_middle
  button_code right_button = some codes.btn_right
  button_code _ = none

  send_button : MouseButton → Bool → List (FakeRequest Real)
  unfolding button_code
  send_button b pressed = elim (button_code b) [ none ↦ [] | some code ↦ button code pressed ∷ [] ]

  -- A level above that of Shift or AltGr gets no modifier, and its key is sent all the same.
  pub modifiers : ℕ → List ℕ
  modifiers level =
      if level == 1
      then codes.key_left_shift ∷ []
      else if level == 2
      then codes.key_right_alt ∷ []
      else []

  pub send_keys : List ℕ → Bool → List (FakeRequest Real)
  send_keys [] pressed = []
  send_keys (code ∷ rest) pressed = keyboard_key code pressed ∷ send_keys rest pressed

  send_symbol : Option KeyCode → Bool → List (FakeRequest Real)
  unfolding modifiers send_keys
  send_symbol none pressed = []
  send_symbol (some k) pressed = send_keys (modifiers k.level ++ k.code ∷ []) pressed

  -- The switch on the event's type.
  pub send_typed : Screen → InputEvent → List (FakeRequest Real)
  unfolding send_button send_symbol
  send_typed screen (mouse mouse_button_press b x y) = send_button b true
  send_typed screen (mouse mouse_button_release b x y) = send_button b false
  send_typed screen (mouse mouse_move b x y) =
      pointer_motion_absolute (scale x screen.size.width screen.logical_size.width)
        (scale y screen.size.height screen.logical_size.height)
      ∷ []
  send_typed screen (wheel angle x y) = axis (notches angle) ∷ []
  send_typed screen (key pressed scan_code virtual_key) =
      if not (scan_code == 0)
      then keyboard_key scan_code pressed ∷ []
      else send_symbol (keycode_from_keysym keymap virtual_key) pressed

  -- The requests to KWin that an event leads to.
  unfoldable pub send_event : Screen → InputEvent → List (FakeRequest Real)
  unfolding send_typed
  send_event screen event =
      if not screen.has_stream
        || not screen.interface_active
        || is_empty screen.size
        || is_empty screen.logical_size
      then []
      else send_typed screen event
