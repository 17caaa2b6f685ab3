-- ===== src/Prelude/Bits.antt =====
-- Masks of consecutive ones, and single bits, by division.
use Prim.Native.Nat.{digits, bit_and-bitwise}
use kheadless_krdp.Prelude.{ℕ, zero, suc, ◌+◌, ◌*◌, ◌/◌, ◌%◌, ◌≤◌, ◌≡◌, refl, min, bit_and, arith}

abbrev common : ℕ → ℕ → ℕ → ℕ
common rounds x y = digits (λ d. zero) min rounds x y

zero-common : (rounds y : ℕ) → common rounds 0 y ≡ 0
zero-common zero y = refl
zero-common (suc rounds) y = refl

-- A number is more than its number of digits, so as many rounds are enough.
enough : (bound x rounds y : ℕ) → x ≤ bound → x ≤ rounds → common rounds x y ≡ common x x y
enough bound zero rounds y b r = zero-common rounds y
enough zero (suc x) rounds y b r = absurd (omega arith)
enough (suc bound) (suc x) zero y b r = absurd (omega arith)
enough (suc bound) (suc x) (suc rounds) y b r =
    let half = suc x / 2 in
    omega (
      arith,
      enough bound half rounds (y / 2) (omega arith) (omega arith),
      enough bound half x (y / 2) (omega arith) (omega arith),
    )

zero-bit_and : (y : ℕ) → bit_and 0 y ≡ 0
zero-bit_and y = bit_and-bitwise 0 y

-- The lowest digit, and the others.
pub bit_and-halves : (x y : ℕ) → bit_and x y ≡ bit_and (x / 2) (y / 2) * 2 + min (x % 2) (y % 2)
bit_and-halves zero y = omega (arith, zero-bit_and y, zero-bit_and (y / 2))
bit_and-halves (suc x) y =
    let half = suc x / 2 in
    omega (
      arith,
      bit_and-bitwise (suc x) y,
      bit_and-bitwise half (y / 2),
      enough x half x (y / 2) (omega arith) (omega arith),
    )

bit_and_nothing : (bound x : ℕ) → x ≤ bound → bit_and x 0 ≡ 0
bit_and_nothing bound zero b = zero-bit_and 0
bit_and_nothing zero (suc x) b = absurd (omega arith)
bit_and_nothing (suc bound) (suc x) b =
    omega (arith, bit_and-halves (suc x) 0, bit_and_nothing bound (suc x / 2) (omega arith))

pub bit_and-0 : (x : ℕ) → bit_and x 0 ≡ 0
bit_and-0 x = bit_and_nothing x x (omega arith)

bit_and-1 : (x : ℕ) → bit_and x 1 ≡ x % 2
bit_and-1 x = omega (arith, bit_and-halves x 1, bit_and-0 (x / 2))

bit_and-3 : (x : ℕ) → bit_and x 3 ≡ x % 4
bit_and-3 x = omega (arith, bit_and-halves x 3, bit_and-1 (x / 2))

bit_and-7 : (x : ℕ) → bit_and x 7 ≡ x % 8
bit_and-7 x = omega (arith, bit_and-halves x 7, bit_and-3 (x / 2))

bit_and-15 : (x : ℕ) → bit_and x 15 ≡ x % 16
bit_and-15 x = omega (arith, bit_and-halves x 15, bit_and-7 (x / 2))

bit_and-31 : (x : ℕ) → bit_and x 31 ≡ x % 32
bit_and-31 x = omega (arith, bit_and-halves x 31, bit_and-15 (x / 2))

bit_and-63 : (x : ℕ) → bit_and x 63 ≡ x % 64
bit_and-63 x = omega (arith, bit_and-halves x 63, bit_and-31 (x / 2))

bit_and-127 : (x : ℕ) → bit_and x 127 ≡ x % 128
bit_and-127 x = omega (arith, bit_and-halves x 127, bit_and-63 (x / 2))

bit_and-255 : (x : ℕ) → bit_and x 255 ≡ x % 256
bit_and-255 x = omega (arith, bit_and-halves x 255, bit_and-127 (x / 2))

pub bit_and-511 : (x : ℕ) → bit_and x 511 ≡ x % 512
bit_and-511 x = omega (arith, bit_and-halves x 511, bit_and-255 (x / 2))

bit_and-2 : (x : ℕ) → bit_and x 2 ≡ x / 2 % 2 * 2
bit_and-2 x = omega (arith, bit_and-halves x 2, bit_and-1 (x / 2))

bit_and-4 : (x : ℕ) → bit_and x 4 ≡ x / 4 % 2 * 4
bit_and-4 x = omega (arith, bit_and-halves x 4, bit_and-2 (x / 2))

bit_and-8 : (x : ℕ) → bit_and x 8 ≡ x / 8 % 2 * 8
bit_and-8 x = omega (arith, bit_and-halves x 8, bit_and-4 (x / 2))

bit_and-16 : (x : ℕ) → bit_and x 16 ≡ x / 16 % 2 * 16
bit_and-16 x = omega (arith, bit_and-halves x 16, bit_and-8 (x / 2))

bit_and-32 : (x : ℕ) → bit_and x 32 ≡ x / 32 % 2 * 32
bit_and-32 x = omega (arith, bit_and-halves x 32, bit_and-16 (x / 2))

bit_and-64 : (x : ℕ) → bit_and x 64 ≡ x / 64 % 2 * 64
bit_and-64 x = omega (arith, bit_and-halves x 64, bit_and-32 (x / 2))

bit_and-128 : (x : ℕ) → bit_and x 128 ≡ x / 128 % 2 * 128
bit_and-128 x = omega (arith, bit_and-halves x 128, bit_and-64 (x / 2))

pub bit_and-256 : (x : ℕ) → bit_and x 256 ≡ x / 256 % 2 * 256
bit_and-256 x = omega (arith, bit_and-halves x 256, bit_and-128 (x / 2))
