-- ===== src/Cursor/Client.antt =====
-- The client's side of src/Cursor.cpp: what it has cached and what it shows after the pointer updates that it was sent.
use kheadless_krdp.Prelude.{ℕ, ◌≡◌, refl, Option, none, some, List, [], ◌∷◌, ◌++◌}
use kheadless_krdp.Prelude.Assoc.{lookup, insert}
use kheadless_krdp.Geometry.{Point}
use kheadless_krdp.Cursor.{
  Image, CursorType, PointerPdu, pointer_new, pointer_large, pointer_cached, pointer_system,
}

pub data Shown : Type 0 where
  system : CursorType → Shown
  bitmap : Point → Image → Shown
  unknown : Shown

pub record Client : Type 0 where
  pub cache : List (ℕ × (Point × Image))
  pub shown : Shown

abbrev pub show : Option (Point × Image) → Shown
show none = unknown
show (some (hotspot, image)) = bitmap hotspot image

abbrev pub receive : PointerPdu → Client → Client
receive (pointer_new id hotspot image) c = record {
  cache = insert id (hotspot, image) c.cache;
  shown = bitmap hotspot image;
}
receive (pointer_large id hotspot image) c = record {
  cache = insert id (hotspot, image) c.cache;
  shown = bitmap hotspot image;
}
receive (pointer_cached id) c = record c { shown = show (lookup id c.cache) }
receive (pointer_system type) c = record c { shown = system type }

abbrev pub receive_all : Client → List PointerPdu → Client
receive_all c [] = c
receive_all c (x ∷ xs) = receive_all (receive x c) xs

pub receive_all-append :
    (c : Client) (xs ys : List PointerPdu)
    → receive_all c (xs ++ ys) ≡ receive_all (receive_all c xs) ys
receive_all-append c [] ys = refl
receive_all-append c (x ∷ xs) ys = receive_all-append (receive x c) xs ys
