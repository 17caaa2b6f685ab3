-- ===== src/Plasma/Keys.antt =====
-- src/InputHandler.cpp with src/PlasmaScreencastV1Session.cpp: keys from the client to KWin.
use kheadless_krdp.Prelude.{
  ℕ, ◌≡◌, refl, Bool, true, false, List, [], ◌∷◌, ◌++◌, ◌==◌, if◌then◌else◌, arith,
}
use kheadless_krdp.Prelude.Int.{ℤ}
use kheadless_krdp.Input.{
  InputConstants, KeyTables, InputHandler, InputEvent, key, has, key_code, keyboard_event,
  unicode_keyboard_event,
}
use kheadless_krdp.Plasma.{
  Keymap, LinuxCodes, FakeRequest, keyboard_key, Screen, modifiers, send_keys, send_symbol,
  send_typed, send_event,
}

abbrev forget : ℕ → List ℕ → List ℕ
forget code [] = []
forget code (k ∷ keys) = let rest = forget code keys in if k == code then rest else k ∷ rest

module _ {ℓ} {Real : Type ℓ} where
  -- The keys that are down for KWin after its requests.
  abbrev pub held : List ℕ → List (FakeRequest Real) → List ℕ
  held keys [] = keys
  held keys (keyboard_key code true ∷ requests) = held (code ∷ keys) requests
  held keys (keyboard_key code false ∷ requests) = held (forget code keys) requests
  held keys (_ ∷ requests) = held keys requests

module _ {ℓ} {Real : Type ℓ} (scale : ℕ → ℤ → ℤ → Real) (codes : LinuxCodes) (keymap : Keymap) where
  abbrev pub send_all : Screen → List InputEvent → List (FakeRequest Real)
  send_all screen [] = []
  send_all screen (event ∷ events) =
      send_event scale codes keymap screen event ++ send_all screen events

  event_pair :
      (screen : Screen) (scan_code virtual_key : ℕ)
      → held []
          (send_all screen (key true scan_code virtual_key ∷ key false scan_code virtual_key ∷ []))
        ≡ []
  unfolding send_event send_typed send_symbol send_keys modifiers
  event_pair screen scan_code virtual_key = ground arith

  module _ (c : InputConstants) (tables : KeyTables) where
    abbrev listening : InputHandler
    listening = record { enabled = true; emitted = [] }

    -- What an enabled handler announces for a key that goes down and up, by its scan code and as a Unicode key.
    abbrev pub typed : (code down up : ℕ) → List InputEvent
    typed code down up =
        (keyboard_event c tables code up (keyboard_event c tables code down listening).0).0.emitted

    abbrev pub typed_unicode : (code down up : ℕ) → List InputEvent
    typed_unicode code down up =
        (unicode_keyboard_event c tables code up
          (unicode_keyboard_event c tables code down listening).0).0.emitted

    typed_lem :
        (code down up : ℕ)
        → has down c.extended ≡ has up c.extended
        → has down c.release ≡ false
        → has up c.release ≡ true
        → typed code down up
          ≡ key true (key_code c tables code down) 0
            ∷ key false (key_code c tables code down) 0
            ∷ []
    unfolding keyboard_event key_code
    typed_lem code down up x d u = ground arith

    typed_unicode_lem :
        (code down up : ℕ)
        → has down c.release ≡ false
        → has up c.release ≡ true
        → typed_unicode code down up ≡ (
            if tables.keysym code == 0
            then []
            else key true 0 (tables.keysym code) ∷ key false 0 (tables.keysym code) ∷ [])
    unfolding unicode_keyboard_event
    typed_unicode_lem code down up d u = ground arith

    unless-held :
        (test : Bool) (screen : Screen) (keysym : ℕ)
        → held []
            (send_all screen (if test then [] else key true 0 keysym ∷ key false 0 keysym ∷ []))
          ≡ []
    unless-held true screen keysym = refl
    unless-held false screen keysym = event_pair screen 0 keysym

    -- A key that a client presses and releases, with the same extended flag both times, stays down for KWin neither when it
    -- is given by its scan code nor when it is a Unicode key, for which the session may also press Shift or AltGr; nor
    -- does any other. The session's sizes and interface are the same both times.
    pub typed-held :
        (screen : Screen) (code down up : ℕ)
        → has down c.extended ≡ has up c.extended
        → has down c.release ≡ false
        → has up c.release ≡ true
        → (held [] (send_all screen (typed code down up)) ≡ [])
          × (held [] (send_all screen (typed_unicode code down up)) ≡ [])
    typed-held screen code down up x d u = (
      rw (typed_lem code down up x d u) (event_pair screen (key_code c tables code down) 0),
      rw (typed_unicode_lem code down up d u)
          (unless-held (tables.keysym code == 0) screen (tables.keysym code)),
    )
