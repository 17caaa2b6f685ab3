-- ===== src/Portal/Events.antt =====
-- src/PortalSession.cpp: what the session asks the portal to do for an event, and at its end. The key codes of Linux and
-- the arithmetic of doubles are arguments.
pub mod Modifiers
use kheadless_krdp.Prelude.{
  ℕ, Bool, true, false, not, Option, none, some, List, [], ◌∷◌, ◌++◌, ◌==◌, if◌then◌else◌,
}
use kheadless_krdp.Prelude.Int.{ℤ}
use kheadless_krdp.Geometry.{Size}
use kheadless_krdp.Input.{
  InputEvent, mouse, wheel, key, MouseButton, left_button, middle_button, right_button,
  mouse_button_press, mouse_button_release, mouse_move,
}
use kheadless_krdp.Plasma.{notches}

pub data PortalNotification {ℓ} (Real : Type ℓ) : Type ℓ where
  notify_pointer_button : (button : ℕ) (pressed : Bool) → PortalNotification Real
  notify_pointer_motion_absolute : (node_id : ℕ) → Real → Real → PortalNotification Real
  notify_pointer_axis_discrete : ℤ → PortalNotification Real
  notify_keyboard_keycode : (keycode : ℕ) (pressed : Bool) → PortalNotification Real
  notify_keyboard_keysym : (keysym : ℕ) (pressed : Bool) → PortalNotification Real

-- BTN_… and KEY_… of Linux.
pub record PortalCodes : Type 0 where
  pub btn_left : ℕ
  pub btn_middle : ℕ
  pub btn_right : ℕ
  pub key_leftctrl : ℕ
  pub key_rightctrl : ℕ
  pub key_leftshift : ℕ
  pub key_rightshift : ℕ
  pub key_leftalt : ℕ
  pub key_rightalt : ℕ
  pub key_leftmeta : ℕ
  pub key_rightmeta : ℕ

-- What the session has for an event: whether its stream is there and active, the stream's node, and the two sizes.
pub record PortalScreen : Type 0 where
  pub stream_active : Bool
  pub node_id : ℕ
  pub size : Size
  pub logical_size : Size

-- `scale position size logical_size` is (position / size) * logical_size.
module _ {ℓ} {Real : Type ℓ} (scale : ℕ → ℤ → ℤ → Real) (codes : PortalCodes) where
  pub button_code : MouseButton → Option ℕ
  button_code left_button = some codes.btn_left
  button_code middle_button = some codes.btn_middle
  button_code right_button = some codes.btn_right
  button_code _ = none

  pub notify_button : MouseButton → Bool → List (PortalNotification Real)
  unfolding button_code
  notify_button b pressed = elim (button_code b) [
    | none ↦ []
    | some code ↦ notify_pointer_button code pressed ∷ []
  ]

  -- The switch on the event's type.
  pub notify : PortalScreen → InputEvent → List (PortalNotification Real)
  unfolding notify_button
  notify screen (mouse mouse_button_press b x y) = notify_button b true
  notify screen (mouse mouse_button_release b x y) = notify_button b false
  notify screen (mouse mouse_move b x y) =
      notify_pointer_motion_absolute screen.node_id
        (scale x screen.size.width screen.logical_size.width)
        (scale y screen.size.height screen.logical_size.height)
      ∷ []
  notify screen (wheel angle x y) = notify_pointer_axis_discrete (notches angle) ∷ []
  notify screen (key pressed scan_code virtual_key) =
      if not (scan_code == 0)
      then notify_keyboard_keycode scan_code pressed ∷ []
      else notify_keyboard_keysym virtual_key pressed ∷ []

  unfoldable pub send_event : PortalScreen → InputEvent → List (PortalNotification Real)
  unfolding notify
  send_event screen event = if not screen.stream_active then [] else notify screen event

  -- The keys that the destructor lists.
  pub released_keys : List ℕ
  released_keys =
      codes.key_leftctrl ∷ codes.key_rightctrl ∷ codes.key_leftshift ∷ codes.key_rightshift
      ∷ codes.key_leftalt ∷ codes.key_rightalt ∷ codes.key_leftmeta ∷ codes.key_rightmeta ∷ []

  -- The loop of the destructor.
  pub release_all : List ℕ → List (PortalNotification Real)
  release_all [] = []
  release_all (keycode ∷ keycodes) = notify_keyboard_keycode keycode false ∷ release_all keycodes

  unfoldable pub destroy : List (PortalNotification Real)
  unfolding release_all released_keys
  destroy = release_all released_keys
