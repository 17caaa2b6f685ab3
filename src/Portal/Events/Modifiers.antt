-- ===== src/Portal/Events/Modifiers.antt =====
-- src/PortalSession.cpp: the modifier keys at the end of a session.
use kheadless_krdp.Prelude.{
  ℕ, ◌≡◌, refl, Bool, true, false, ◌||◌, ◌&&◌, not, Option-cases, Bool-cases, ap, ◌∙◌, inl, inr,
  List, [], ◌∷◌, ◌++◌, ◌==◌, if◌then◌else◌, arith,
}
use kheadless_krdp.Prelude.Int.{ℤ}
use kheadless_krdp.Input.{
  InputEvent, MouseEventType, mouse, wheel, key, MouseButton, mouse_button_press,
  mouse_button_release, mouse_move,
}
use kheadless_krdp.Portal.Events.{
  PortalNotification, notify_pointer_button, notify_pointer_motion_absolute,
  notify_pointer_axis_discrete, notify_keyboard_keysym, notify_keyboard_keycode, PortalCodes,
  PortalScreen, button_code, notify_button, notify, send_event, release_all, released_keys, destroy,
}

abbrev forget : ℕ → List ℕ → List ℕ
forget code [] = []
forget code (k ∷ keys) = let rest = forget code keys in if k == code then rest else k ∷ rest

abbrev pub is_down : ℕ → List ℕ → Bool
is_down code [] = false
is_down code (k ∷ keys) = k == code || is_down code keys

is_down-forget :
    (code other : ℕ) (keys : List ℕ)
    → is_down code (forget other keys) ≡ (if other == code then false else is_down code keys)
is_down-forget code other [] = ground arith
is_down-forget code other (k ∷ keys) = ground (arith, is_down-forget code other keys)

module _ {ℓ} {Real : Type ℓ} where
  -- The keys that are down for the desktop after the notifications, by their keycodes.
  abbrev pub held : List ℕ → List (PortalNotification Real) → List ℕ
  held keys [] = keys
  held keys (notify_keyboard_keycode code true ∷ rest) = held (code ∷ keys) rest
  held keys (notify_keyboard_keycode code false ∷ rest) = held (forget code keys) rest
  held keys (_ ∷ rest) = held keys rest

module _ {ℓ} {Real : Type ℓ} (scale : ℕ → ℤ → ℤ → Real) (codes : PortalCodes) where
  -- What the events of a session lead to, each with the screen that it finds.
  abbrev pub send_all : List (PortalScreen × InputEvent) → List (PortalNotification Real)
  send_all [] = []
  send_all ((screen, event) ∷ events) = send_event scale codes screen event ++ send_all events

  held-append :
      (keys : List ℕ) (first second : List (PortalNotification Real))
      → held keys (first ++ second) ≡ held (held keys first) second
  held-append keys [] second = refl
  held-append keys (notify_keyboard_keycode code true ∷ first) second =
      held-append (code ∷ keys) first second
  held-append keys (notify_keyboard_keycode code false ∷ first) second =
      held-append (forget code keys) first second
  held-append keys (notify_pointer_button b p ∷ first) second = held-append keys first second
  held-append keys (notify_pointer_motion_absolute n x y ∷ first) second =
      held-append keys first second
  held-append keys (notify_pointer_axis_discrete a ∷ first) second = held-append keys first second
  held-append keys (notify_keyboard_keysym k p ∷ first) second = held-append keys first second

  -- A button is no key.
  held-notify_button :
      (keys : List ℕ) (b : MouseButton) (pressed : Bool)
      → held keys (notify_button scale codes b pressed) ≡ keys
  unfolding notify_button
  held-notify_button keys b pressed = elim (Option-cases (button_code scale codes b)) [
    | inl e ↦ rw (notify_button, e) refl
    | inr (code, e) ↦ rw (notify_button, e) refl
  ]

  -- Whether a key is down by its keycode, from the events alone: what its last event to an active stream says.
  abbrev pub pressed_by : ℕ → Bool → List (PortalScreen × InputEvent) → Bool
  pressed_by code down [] = down
  pressed_by code down ((screen, key pressed scan_code virtual_key) ∷ events) =
      pressed_by code
        (if screen.stream_active && not (scan_code == 0) && scan_code == code
          then pressed
          else down)
        events
  pressed_by code down (_ ∷ events) = pressed_by code down events

  is_down-key :
      (code scan_code virtual_key : ℕ) (pressed : Bool) (screen : PortalScreen) (keys : List ℕ)
      → is_down code (held keys (send_event scale codes screen (key pressed scan_code virtual_key)))
        ≡ (if screen.stream_active && not (scan_code == 0) && scan_code == code
            then pressed
            else is_down code keys)
  unfolding send_event notify
  is_down-key code scan_code virtual_key true screen keys = ground arith
  is_down-key code scan_code virtual_key false screen keys =
      ground (arith, is_down-forget code scan_code keys)

  held-mouse :
      (keys : List ℕ) (screen : PortalScreen) (type : MouseEventType) (b : MouseButton) (x y : ℕ)
      → held keys (send_event scale codes screen (mouse type b x y)) ≡ keys
  unfolding send_event notify
  held-mouse keys screen mouse_button_press b x y = elim (Bool-cases screen.stream_active) [
    | inl e ↦ rw e (held-notify_button keys b true)
    | inr e ↦ rw e refl
  ]
  held-mouse keys screen mouse_button_release b x y = elim (Bool-cases screen.stream_active) [
    | inl e ↦ rw e (held-notify_button keys b false)
    | inr e ↦ rw e refl
  ]
  held-mouse keys screen mouse_move b x y = elim (Bool-cases screen.stream_active) [
    | inl e ↦ rw e refl
    | inr e ↦ rw e refl
  ]

  held-wheel :
      (keys : List ℕ) (screen : PortalScreen) (angle : ℤ) (x y : ℕ)
      → held keys (send_event scale codes screen (wheel angle x y)) ≡ keys
  unfolding send_event notify
  held-wheel keys screen angle x y = elim (Bool-cases screen.stream_active) [
    | inl e ↦ rw e refl
    | inr e ↦ rw e refl
  ]

  is_down-send_all :
      (code : ℕ) (keys : List ℕ) (events : List (PortalScreen × InputEvent))
      → is_down code (held keys (send_all events)) ≡ pressed_by code (is_down code keys) events
  is_down-send_all code keys [] = refl
  is_down-send_all code keys ((screen, mouse type b x y) ∷ events) =
      rw (held-append keys (send_event scale codes screen (mouse type b x y)) (send_all events))
        (rw (held-mouse keys screen type b x y) (is_down-send_all code keys events))
  is_down-send_all code keys ((screen, wheel angle x y) ∷ events) =
      rw (held-append keys (send_event scale codes screen (wheel angle x y)) (send_all events))
        (rw (held-wheel keys screen angle x y) (is_down-send_all code keys events))
  is_down-send_all code keys ((screen, key pressed scan_code virtual_key) ∷ events) =
      let sent = send_event scale codes screen (key pressed scan_code virtual_key) in
      ap (is_down code) (held-append keys sent (send_all events))
      ∙ is_down-send_all code (held keys sent) events
      ∙ ap (λ down. pressed_by code down events)
          (is_down-key code scan_code virtual_key pressed screen keys)

  is_down-release_all :
      (code : ℕ) (released keys : List ℕ)
      → is_down code (held keys (release_all scale codes released))
        ≡ (if is_down code released then false else is_down code keys)
  unfolding release_all
  is_down-release_all code [] keys = refl
  is_down-release_all code (c ∷ released) keys =
      ground (arith, is_down-release_all code released (forget c keys), is_down-forget code c keys)

  -- The modifier keys of Linux, on both sides.
  abbrev pub is_modifier : ℕ → Bool
  is_modifier code =
      code == codes.key_leftctrl
      || code == codes.key_rightctrl
      || code == codes.key_leftshift
      || code == codes.key_rightshift
      || code == codes.key_leftalt
      || code == codes.key_rightalt
      || code == codes.key_leftmeta
      || code == codes.key_rightmeta

  is_down-released_keys : (code : ℕ) → is_down code (released_keys scale codes) ≡ is_modifier code
  unfolding released_keys
  is_down-released_keys code = ground arith

  -- Whatever events a session was sent before it is destroyed: after it, none of the eight keys Ctrl, Shift, Alt and Meta
  -- on both sides is down by its keycode, and every other key is exactly if its last event with that scan code, other than
  -- 0, that found the stream active was a press.
  pub destroy-releases :
      (events : List (PortalScreen × InputEvent)) (code : ℕ)
      → is_down code (held [] (send_all events ++ destroy scale codes))
        ≡ (if is_modifier code then false else pressed_by code false events)
  unfolding destroy
  destroy-releases events code =
      ap (is_down code)
        (held-append [] (send_all events) (release_all scale codes (released_keys scale codes)))
      ∙ is_down-release_all code (released_keys scale codes) (held [] (send_all events))
      ∙ rw (is_down-released_keys code, is_down-send_all code [] events) refl
