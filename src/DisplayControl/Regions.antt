-- ===== src/DisplayControl/Regions.antt =====
-- The regions of the monitors: what adjacency means, and that accepted monitors share no pixel.
use kheadless_krdp.Prelude.{◌≡◌, ◌↔◌, Bool, true, ◌&&◌, ◌||◌, arith}
use kheadless_krdp.Prelude.Int.{
  ℤ, pos, ◌+ℤ◌, ◌≤ℤ◌, ◌<ℤ◌, leb_ℤ, eqb_ℤ, min_ℤ, max_ℤ, max_ℤ-≤, int_laws,
}
use kheadless_krdp.Geometry.{Point, Rect, Covers}
use kheadless_krdp.Monitor.{DisplayMonitor, monitor_rect}
use kheadless_krdp.DisplayControl.{adjacent}

-- The points of a rectangle with its right and bottom edges.
abbrev pub Borders : Rect → Point → Type 0
Borders r p =
    (r.position.x ≤ℤ p.x)
    × (p.x ≤ℤ r.position.x +ℤ r.size.width)
    × (r.position.y ≤ℤ p.y)
    × (p.y ≤ℤ r.position.y +ℤ r.size.height)

abbrev corner : DisplayMonitor → DisplayMonitor → Point
corner a b = record { x = max_ℤ a.position.x b.position.x; y = max_ℤ a.position.y b.position.y }

range_test :
    (l r l' r' : ℤ)
    → (leb_ℤ (max_ℤ l l') (min_ℤ r r') ≡ true) ↔ ((l ≤ℤ r) × (l ≤ℤ r') × (l' ≤ℤ r) × (l' ≤ℤ r'))
unfolding max_ℤ min_ℤ
range_test l r l' r' = ground arith

max_ℤ-least : (a b c : ℤ) → a ≤ℤ c → b ≤ℤ c → max_ℤ a b ≤ℤ c
unfolding max_ℤ
max_ℤ-least a b c h k = ground arith

max_ℤ-lt : (a b c : ℤ) → a <ℤ c → b <ℤ c → max_ℤ a b <ℤ c
unfolding max_ℤ
max_ℤ-lt a b c h k = ground arith

-- The test in terms of the four edges on each axis: (l, r) and (l', r') across, (t, b) and (t', b')
-- down.
module _ (l r l' r' t b t' b' : ℤ) where
  abbrev edge_test : Bool
  edge_test =
      ((eqb_ℤ r l' || eqb_ℤ r' l) && leb_ℤ (max_ℤ t t') (min_ℤ b b'))
      || ((eqb_ℤ b t' || eqb_ℤ b' t) && leb_ℤ (max_ℤ l l') (min_ℤ r r'))

  abbrev Meet : Type 0
  Meet = (l' ≤ℤ r) × (l ≤ℤ r') × (t' ≤ℤ b) × (t ≤ℤ b')

  edges→meet : l <ℤ r → l' <ℤ r' → t <ℤ b → t' <ℤ b' → edge_test ≡ true → Meet
  edges→meet h1 h2 h3 h4 e = ground (arith, range_test l r l' r', range_test t b t' b')

  meet→edges :
      l <ℤ r
      → l' <ℤ r'
      → t <ℤ b
      → t' <ℤ b'
      → ¬ ((l' <ℤ r) × (l <ℤ r') × (t' <ℤ b) × (t <ℤ b'))
      → Meet
      → edge_test ≡ true
  meet→edges h1 h2 h3 h4 apart m = ground (arith, range_test l r l' r', range_test t b t' b', apart)

abbrev pub HasExtent : DisplayMonitor → Type 0
HasExtent m = (pos 0 <ℤ m.size.width) × (pos 0 <ℤ m.size.height)

abbrev pub IsCommon : (Rect → Point → Type 0) → DisplayMonitor → DisplayMonitor → Type 0
IsCommon Of a b = (p : Point) × Of (monitor_rect a) p × Of (monitor_rect b) p

module _ (a b : DisplayMonitor) where
  abbrev right_a : ℤ
  right_a = a.position.x +ℤ a.size.width

  abbrev bottom_a : ℤ
  bottom_a = a.position.y +ℤ a.size.height

  abbrev right_b : ℤ
  right_b = b.position.x +ℤ b.size.width

  abbrev bottom_b : ℤ
  bottom_b = b.position.y +ℤ b.size.height

  abbrev MeetEdges : Type 0
  MeetEdges =
      Meet a.position.x right_a b.position.x right_b a.position.y bottom_a b.position.y bottom_b

  meet→common : HasExtent a → HasExtent b → MeetEdges → IsCommon Borders a b
  meet→common ha hb m = (
    record { x = max_ℤ a.position.x b.position.x; y = max_ℤ a.position.y b.position.y },
    (
      x.0,
      max_ℤ-least _ _ right_a (omega int_laws) m.0,
      y.0,
      max_ℤ-least _ _ bottom_a (omega int_laws) m.2,
    ),
    (
      x.1,
      max_ℤ-least _ _ right_b m.1 (omega int_laws),
      y.1,
      max_ℤ-least _ _ bottom_b m.3 (omega int_laws),
    ),
  )
    where
      x :
          (a.position.x ≤ℤ max_ℤ a.position.x b.position.x)
          × (b.position.x ≤ℤ max_ℤ a.position.x b.position.x)
      x = max_ℤ-≤ a.position.x b.position.x

      y :
          (a.position.y ≤ℤ max_ℤ a.position.y b.position.y)
          × (b.position.y ≤ℤ max_ℤ a.position.y b.position.y)
      y = max_ℤ-≤ a.position.y b.position.y

  overlap→pixel :
      HasExtent a
      → HasExtent b
      → (b.position.x <ℤ right_a)
        × (a.position.x <ℤ right_b)
        × (b.position.y <ℤ bottom_a)
        × (a.position.y <ℤ bottom_b)
      → IsCommon Covers a b
  overlap→pixel ha hb m = (
    record { x = max_ℤ a.position.x b.position.x; y = max_ℤ a.position.y b.position.y },
    (
      x.0,
      max_ℤ-lt _ _ right_a (omega int_laws) m.0,
      y.0,
      max_ℤ-lt _ _ bottom_a (omega int_laws) m.2,
    ),
    (
      x.1,
      max_ℤ-lt _ _ right_b m.1 (omega int_laws),
      y.1,
      max_ℤ-lt _ _ bottom_b m.3 (omega int_laws),
    ),
  )
    where
      x :
          (a.position.x ≤ℤ max_ℤ a.position.x b.position.x)
          × (b.position.x ≤ℤ max_ℤ a.position.x b.position.x)
      x = max_ℤ-≤ a.position.x b.position.x

      y :
          (a.position.y ≤ℤ max_ℤ a.position.y b.position.y)
          × (b.position.y ≤ℤ max_ℤ a.position.y b.position.y)
      y = max_ℤ-≤ a.position.y b.position.y

  -- Of two monitors with a positive size that share no pixel, `adjacent` says whether their
  -- rectangles, taken with their edges and corners, have a point in common.
  pub adjacent_iff :
      HasExtent a
      → HasExtent b
      → ¬ IsCommon Covers a b
      → (adjacent a b ≡ true) ↔ IsCommon Borders a b
  unfolding adjacent
  adjacent_iff ha hb apart = (forth, back)
    where
      forth : adjacent a b ≡ true → IsCommon Borders a b
      forth h = meet→common ha hb (
          edges→meet _ right_a _ right_b _ bottom_a _ bottom_b (omega int_laws) (omega int_laws)
            (omega int_laws) (omega int_laws) h)

      back : IsCommon Borders a b → adjacent a b ≡ true
      back (p, in_a, in_b) =
          meet→edges _ right_a _ right_b _ bottom_a _ bottom_b (omega int_laws) (omega int_laws)
            (omega int_laws) (omega int_laws) (λ m. apart (overlap→pixel ha hb m)) (omega arith)
