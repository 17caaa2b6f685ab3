-- ===== src/Geometry.antt =====
-- QPoint, QSize and QRect as values. Qt's operations on QRect are not code of this repository:
-- they are parameters of what uses them, with their documented behaviour as laws.
use kheadless_krdp.Prelude.{◌≡◌, ◌↔◌, Bool, true, ◌&&◌, arith}
use kheadless_krdp.Prelude.Int.{ℤ, ◌+ℤ◌, ◌≤ℤ◌, ◌<ℤ◌, eqb_ℤ, eq_of_parts}

pub record Point : Type 0 where
  pub x : ℤ
  pub y : ℤ

pub record Size : Type 0 where
  pub width : ℤ
  pub height : ℤ

-- QRect(position, size).
pub record Rect : Type 0 where
  pub position : Point
  pub size : Size

abbrev pub eq_point : Point → Point → Bool
eq_point a b = eqb_ℤ a.x b.x && eqb_ℤ a.y b.y

abbrev pub eq_size : Size → Size → Bool
eq_size a b = eqb_ℤ a.width b.width && eqb_ℤ a.height b.height

pub eq_point_iff : (a b : Point) → (eq_point a b ≡ true) ↔ (a ≡ b)
eq_point_iff a b = ground (arith, eq_of_parts a.x b.x, eq_of_parts a.y b.y)

pub eq_size_iff : (a b : Size) → (eq_size a b ≡ true) ↔ (a ≡ b)
eq_size_iff a b = ground (arith, eq_of_parts a.width b.width, eq_of_parts a.height b.height)

-- The pixels of a rectangle, by its left, top, width and height.
abbrev pub Covers : Rect → Point → Type 0
Covers r p =
    (r.position.x ≤ℤ p.x)
    × (p.x <ℤ r.position.x +ℤ r.size.width)
    × (r.position.y ≤ℤ p.y)
    × (p.y <ℤ r.position.y +ℤ r.size.height)
