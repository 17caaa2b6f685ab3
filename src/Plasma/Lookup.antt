-- ===== src/Plasma/Lookup.antt =====
-- src/PlasmaScreencastV1Session.cpp: the key for a key symbol, as the first of all places of the keymap.
use kheadless_krdp.Prelude.{
  ℕ, suc, zero, ◌+◌, ◌-◌, ◌%◌, ◌^◌, ◌≡◌, refl, Bool, Option, none, some, List, [], ◌∷◌, ◌++◌,
  if◌then◌else◌, Bool-cases, Option-cases, inl, inr,
}
use kheadless_krdp.Plasma.{
  Keymap, KeyCode, has_symbol, find_level, find_keycode, keycode_from_keysym,
}

abbrev pub find {ℓ} : {A : Type ℓ} → (A → Bool) → List A → Option A
find p [] = none
find p (x ∷ xs) = let rest = find p xs in if p x then some x else rest

-- The levels of a key, and all keys with theirs, in the order in which the loops visit them.
abbrev pub places_of : (keycode left level : ℕ) → List (ℕ × ℕ)
places_of keycode zero level = []
places_of keycode (suc left) level = (keycode, level) ∷ places_of keycode left (suc level)

abbrev pub places : Keymap → (left keycode : ℕ) → List (ℕ × ℕ)
places m zero keycode = []
places m (suc left) keycode = places_of keycode (m.levels keycode) 0 ++ places m left (suc keycode)

abbrev pub code_at : Option (ℕ × ℕ) → Option KeyCode
code_at none = none
code_at (some (keycode, level)) =
    some (record { level = level; code = (keycode + 2 ^ 32 - 8) % 2 ^ 32 })

abbrev pub has_symbol_at : Keymap → ℕ → ℕ × ℕ → Bool
has_symbol_at m keysym place = has_symbol m keysym place.0 place.1

-- What the inner loop finds, and else what the rest of the places has.
abbrev or_else : ℕ → Option ℕ → Option (ℕ × ℕ) → Option (ℕ × ℕ)
or_else keycode none rest = rest
or_else keycode (some level) rest = some (keycode, level)

find_level_lem :
    (m : Keymap) (keysym keycode left level : ℕ) (rest : List (ℕ × ℕ))
    → find (has_symbol_at m keysym) (places_of keycode left level ++ rest)
      ≡ or_else keycode
          (find_level m keysym keycode left level)
          (find (has_symbol_at m keysym) rest)
unfolding find_level
find_level_lem m keysym keycode zero level rest = refl
find_level_lem m keysym keycode (suc left) level rest =
    elim (Bool-cases (has_symbol m keysym keycode level)) [
      | inl e ↦ rw (find_level, e) refl
      | inr e ↦ rw (find_level, e) (find_level_lem m keysym keycode left (suc level) rest)
    ]

find_keycode_lem :
    (m : Keymap) (keysym left keycode : ℕ)
    → find_keycode m keysym left keycode
      ≡ code_at (find (has_symbol_at m keysym) (places m left keycode))
unfolding find_keycode
find_keycode_lem m keysym zero keycode = refl
find_keycode_lem m keysym (suc left) keycode =
    let rest = places m left (suc keycode) in
    elim (Option-cases (find_level m keysym keycode (m.levels keycode) 0)) [
      | inl e ↦
          rw (find_keycode, find_level_lem m keysym keycode (m.levels keycode) 0 rest, e)
            (find_keycode_lem m keysym left (suc keycode))
      | inr (level, e) ↦
          rw (find_keycode, find_level_lem m keysym keycode (m.levels keycode) 0 rest, e) refl
    ]

-- The two loops find the first place of the keymap, by its keycode and then by its level, that has the key symbol, over
-- all keycodes from the least up to but not including the greatest, and nothing if there is none. The code is the
-- keycode less 8.
pub keycode_from_keysym_lem :
    (m : Keymap) (keysym : ℕ)
    → keycode_from_keysym m keysym
      ≡ code_at
          (find (has_symbol_at m keysym) (places m (m.max_keycode - m.min_keycode) m.min_keycode))
unfolding keycode_from_keysym
keycode_from_keysym_lem m keysym =
    find_keycode_lem m keysym (m.max_keycode - m.min_keycode) m.min_keycode
