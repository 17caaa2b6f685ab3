-- ===== src/Cursor/Examples.antt =====
-- src/Cursor.cpp: a first cursor, and another one that takes its place in a cache of one.
use kheadless_krdp.Prelude.{◌≡◌, refl, true, false, some, [], ◌∷◌, arith}
use kheadless_krdp.Prelude.Int.{pos}
use kheadless_krdp.Geometry.{Point}
use kheadless_krdp.Cursor.{
  Image, Cursor, bitmap_image, pointer_new, pointer_cached, initial, update, add_new, erase, add,
}
use kheadless_krdp.Cursor.Shown.{Shows, requested, update-Shows}

abbrev tip : Point
tip = record { x = pos 1; y = pos 2 }

abbrev arrow : Image
arrow = record { null = false; width = 24; height = 24; pixels = 7 }

abbrev hand : Image
hand = record { null = false; width = 32; height = 32; pixels = 8 }

abbrev with_arrow : Cursor
with_arrow = record initial {
  cursor_type = bitmap_image;
  last_used_cursor = some 0;
  cursor_cache = record { hotspot = tip; image = arrow; cache_id = 0; last_used = 50 } ∷ [];
  sent = pointer_new 0 tip arrow ∷ pointer_cached 0 ∷ [];
}

with_arrow_test : update true 1 50 tip arrow initial ≡ some with_arrow
unfolding update add_new erase add
with_arrow_test = refl

update-Shows_example :
    (t : Cursor) × (update true 1 60 tip hand with_arrow ≡ some t) × Shows (requested tip hand) t
update-Shows_example =
    update-Shows 1 60 tip hand with_arrow (omega arith) refl ((refl, tt), refl, tt)
