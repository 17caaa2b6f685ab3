-- ===== src/Input/Outcome.antt =====
-- src/InputHandler.cpp: what becomes of a client's input, handler by handler.
use kheadless_krdp.Prelude.{
  ℕ, ◌+◌, ◌≡◌, refl, Bool, true, false, ◌&&◌, ◌||◌, not, List, [], ◌∷◌, ◌==◌, length, length-append,
  if◌then◌else◌, arith,
}
use kheadless_krdp.Input.{
  InputConstants, KeyTables, InputHandler, InputEvent, mouse, mouse_move, no_button, key, emit, has,
  synchronize_event, mouse_event, extended_mouse_event, extended_button, keyboard_event,
  unicode_keyboard_event, key_code, pointer_button, pointer_type,
}

-- FreeRDP's calls of the five handlers.
pub data InputCall : Type 0 where
  synchronizes : InputCall
  moves_mouse : (x y flags : ℕ) → InputCall
  moves_extended : (x y flags : ℕ) → InputCall
  types : (code flags : ℕ) → InputCall
  types_unicode : (code flags : ℕ) → InputCall

module _ (c : InputConstants) (tables : KeyTables) where
  abbrev pub handle : InputCall → InputHandler → InputHandler × Bool
  handle synchronizes s = synchronize_event s
  handle (moves_mouse x y flags) s = mouse_event c tables x y flags s
  handle (moves_extended x y flags) s = extended_mouse_event c tables x y flags s
  handle (types code flags) s = keyboard_event c tables code flags s
  handle (types_unicode code flags) s = unicode_keyboard_event c tables code flags s

  abbrev pub handle_all : List InputCall → InputHandler → InputHandler
  handle_all [] s = s
  handle_all (call ∷ calls) s = handle_all calls (handle call s).0

  handle_disabled :
      (call : InputCall) (s : InputHandler) → s.enabled ≡ false → handle call s ≡ (s, true)
  unfolding synchronize_event mouse_event extended_mouse_event keyboard_event unicode_keyboard_event
  handle_disabled synchronizes s e = ground arith
  handle_disabled (moves_mouse x y flags) s e = ground arith
  handle_disabled (moves_extended x y flags) s e = ground arith
  handle_disabled (types code flags) s e = ground arith
  handle_disabled (types_unicode code flags) s e = ground arith

  -- A disabled handler takes any sequence of mouse and keyboard input and announces none of it.
  pub handle_all-disabled :
      (calls : List InputCall) (s : InputHandler) → s.enabled ≡ false → handle_all calls s ≡ s
  handle_all-disabled [] s e = refl
  handle_all-disabled (call ∷ calls) s e =
      rw (handle_disabled call s e) (handle_all-disabled calls s e)

  -- The calls that the code lets pass without an event.
  abbrev pub is_dropped : InputCall → Bool
  is_dropped synchronizes = true
  is_dropped (moves_mouse x y flags) = false
  is_dropped (moves_extended x y flags) =
      not (has flags c.move) && not (has flags c.x_button1 || has flags c.x_button2)
  is_dropped (types code flags) = false
  is_dropped (types_unicode code flags) = tables.keysym code == 0

  abbrev pub is_refused : InputCall → Bool
  is_refused (moves_extended x y flags) =
      not (has flags c.move) && not (has flags c.x_button1 || has flags c.x_button2)
  is_refused _ = false

  -- An enabled handler announces one event for each call and reports success, but none for a synchronisation, for an
  -- extended mouse call with neither a move nor a known button, which alone is reported as a failure, and for a
  -- Unicode key without a key symbol. It stays enabled.
  pub handle_outcome :
      (call : InputCall) (s : InputHandler)
      → s.enabled ≡ true
      → (length (handle call s).0.emitted ≡ length s.emitted + (if is_dropped call then 0 else 1))
        × ((handle call s).1 ≡ not (is_refused call))
        × ((handle call s).0.enabled ≡ true)
  unfolding synchronize_event mouse_event extended_mouse_event extended_button keyboard_event
      unicode_keyboard_event
  handle_outcome synchronizes s e =
      grind (arith, λ (event : InputEvent). length-append s.emitted (event ∷ []))
  handle_outcome (moves_mouse x y flags) s e =
      grind (arith, λ (event : InputEvent). length-append s.emitted (event ∷ []))
  handle_outcome (moves_extended x y flags) s e =
      grind (arith, λ (event : InputEvent). length-append s.emitted (event ∷ []))
  handle_outcome (types code flags) s e =
      grind (arith, λ (event : InputEvent). length-append s.emitted (event ∷ []))
  handle_outcome (types_unicode code flags) s e =
      grind (arith, λ (event : InputEvent). length-append s.emitted (event ∷ []))

  -- The flag of a move has no bit in common with those of the wheel and of the buttons. A move that comes as extended
  -- mouse input is announced as a plain move without a button, whatever other flags the client sets.
  pub extended_mouse_event-move :
      (x y flags : ℕ) (s : InputHandler)
      → (has c.move c.wheel_flag || has c.move c.wheel_negative) ≡ false
      → (has c.move c.button1 || has c.move c.button2 || has c.move c.button3) ≡ false
      → (has c.move c.down || not (has c.move c.move)) ≡ false
      → s.enabled ≡ true
      → has flags c.move ≡ true
      → extended_mouse_event c tables x y flags s ≡ (emit (mouse mouse_move no_button x y) s, true)
  unfolding mouse_event extended_mouse_event pointer_button pointer_type
  extended_mouse_event-move x y flags s w b d e m = ground arith

  -- A key that is pressed and released, with the same extended flag, is released under the code under which it was
  -- pressed.
  pub press-release :
      (code down up : ℕ) (s : InputHandler)
      → s.enabled ≡ true
      → has down c.extended ≡ has up c.extended
      → has down c.release ≡ false
      → has up c.release ≡ true
      → (keyboard_event c tables code up (keyboard_event c tables code down s).0).0
        ≡ emit
            (key false (key_code c tables code down) 0)
            (emit (key true (key_code c tables code down) 0) s)
  unfolding keyboard_event key_code
  press-release code down up s e x d u = ground arith
