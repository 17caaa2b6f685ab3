-- ===== src/Input/Wheel.antt =====
-- src/InputHandler.cpp: the angle of a wheel event.
use kheadless_krdp.Prelude.{
  ℕ, ◌+◌, ◌-◌, ◌%◌, ◌^◌, ◌≡◌, refl, ◌∙◌, true, ◌||◌, not, ◌==◌, ltb, bit_and, if◌then◌else◌, arith,
}
use kheadless_krdp.Prelude.Int.{ℤ, pos, negsuc, ◌-ℤ◌}
use kheadless_krdp.Prelude.Bits.{bit_and-256, bit_and-511}
use kheadless_krdp.Input.{
  InputConstants, KeyTables, InputHandler, wheel, emit, has, axis_magnitude, wheel_angle,
  mouse_event,
}

-- The low nine bits as a two's complement number, which is how the protocol holds a rotation.
abbrev pub rotation : ℕ → ℤ
rotation flags = let bits = flags % 512 in if ltb bits 256 then pos bits else negsuc (511 - bits)

-- The magnitude and the sign with the protocol's two masks.
magnitude : ℕ → ℕ
magnitude flags =
    let axis = bit_and flags 511 in
    if not (bit_and axis 256 == 0) then bit_and (2 ^ 32 - 1 - axis) 511 + 1 else axis

angle : ℕ → ℤ
unfolding magnitude
angle flags =
    if not (bit_and flags 256 == 0) then pos (magnitude flags) else pos 0 -ℤ pos (magnitude flags)

angle_lem : (flags : ℕ) → angle flags ≡ pos 0 -ℤ rotation flags
unfolding angle magnitude ◌-ℤ◌
angle_lem flags =
    rw
      (
        bit_and-511 flags,
        bit_and-256 flags,
        bit_and-256 (flags % 512),
        bit_and-511 (2 ^ 32 - 1 - flags % 512),
      )
      (ground arith)

module _ (c : InputConstants) (tables : KeyTables) where
  wheel_angle-angle :
      (flags : ℕ)
      → c.wheel_rotation_mask ≡ 511
      → c.wheel_negative ≡ 256
      → wheel_angle c tables flags ≡ angle flags
  unfolding wheel_angle axis_magnitude angle magnitude
  wheel_angle-angle flags m n = rw (m, n) refl

  -- The rotation mask is 0x1ff and the sign flag 0x100. An enabled handler that is told of the wheel announces one wheel
  -- event, at the position given, whose angle is the rotation's nine bits read as a two's complement number and negated.
  pub mouse_event-wheel :
      (x y flags : ℕ) (s : InputHandler)
      → c.wheel_rotation_mask ≡ 511
      → c.wheel_negative ≡ 256
      → s.enabled ≡ true
      → (has flags c.wheel_flag || has flags c.wheel_negative) ≡ true
      → mouse_event c tables x y flags s ≡ (emit (wheel (pos 0 -ℤ rotation flags) x y) s, true)
  unfolding mouse_event
  mouse_event-wheel x y flags s m n e w =
      ground (arith, e, w, wheel_angle-angle flags m n ∙ angle_lem flags)
