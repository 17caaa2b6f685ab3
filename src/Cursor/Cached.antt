-- ===== src/Cursor/Cached.antt =====
-- The entries of the cache of src/Cursor.cpp that the client has cached, and how they stay so.
use kheadless_krdp.Prelude.{
  ℕ, ◌≡◌, ◌↔◌, inl, inr, true, Option, none, some, List, [], ◌∷◌, ◌==◌, ==_iff, All, arith,
  Bool-cases,
}
use kheadless_krdp.Prelude.Assoc.{lookup, insert, lookup-remove}
use kheadless_krdp.Geometry.{Point, eq_point_iff}
use kheadless_krdp.Cursor.{
  narrowed, Image, eq_image, CursorType, system_default, bitmap_image, CursorUpdate, PointerPdu,
  Cursor, is_equal, find_entry, find_equal, touch, erase,
}
use kheadless_krdp.Cursor.Client.{Client, Shown, system, show, receive_all}

eq_image_iff : (a b : Image) → (eq_image a b ≡ true) ↔ (a ≡ b)
eq_image_iff a b = ground arith

pub is_equal→ :
    (hotspot : Point) (image : Image) (e : CursorUpdate)
    → is_equal hotspot image e ≡ true
    → (e.hotspot ≡ hotspot) × (e.image ≡ image)
is_equal→ hotspot image e h =
    ground (arith, eq_point_iff hotspot e.hotspot, eq_image_iff image e.image)

-- What the client was left with, from nothing cached and the system's cursor.
abbrev pub client : List PointerPdu → Client
client sent = receive_all (record { cache = []; shown = system system_default }) sent

-- The client has cached the entry under its key.
abbrev pub IsCached : Client → CursorUpdate → Type 0
IsCached c e = lookup e.cache_id c.cache ≡ some (narrowed e.hotspot, e.image)

abbrev pub IsCurrent : Client → Option ℕ → Type 0
IsCurrent c none = Unit
IsCurrent c (some id) = c.shown ≡ show (lookup id c.cache)

abbrev pub IsOfType : Client → CursorType → Type 0
IsOfType c bitmap_image = Unit
IsOfType c type = c.shown ≡ system type

-- The client has cached all the entries of the server's cache, shows the one last used if there is one, and
-- shows the system's cursor of the current type if that is not an image.
abbrev pub Agrees : Cursor → Type 0
Agrees s =
    All (IsCached (client s.sent)) s.cursor_cache
    × IsCurrent (client s.sent) s.last_used_cursor
    × IsOfType (client s.sent) s.cursor_type

pub touch-IsCached :
    (c : Client) (id now : ℕ) (es : List CursorUpdate)
    → All (IsCached c) es
    → All (IsCached c) (touch id now es)
unfolding touch
touch-IsCached c id now [] h = tt
touch-IsCached c id now (e ∷ es) h = ground (arith, touch-IsCached c id now es h.1)

pub find_entry-IsCached :
    (c : Client) (id : ℕ) (es : List CursorUpdate) {e : CursorUpdate}
    → All (IsCached c) es
    → find_entry id es ≡ some e
    → lookup id c.cache ≡ some (narrowed e.hotspot, e.image)
unfolding find_entry
find_entry-IsCached c id [] h f = absurd (cc)
find_entry-IsCached c id (x ∷ es) {e} h f = elim (Bool-cases (x.cache_id == id)) [
  | inl same ↦
      let g : some x ≡ some e = rw same at f in
      let k : x ≡ e = cc in
      let i : x.cache_id ≡ id = (==_iff x.cache_id id).0 same in cc (h.0, i, k)
  | inr other ↦ find_entry-IsCached c id es h.1 (rw other at f)
]

pub find_equal-IsCached :
    (c : Client) (hotspot : Point) (image : Image) (es : List CursorUpdate) {e : CursorUpdate}
    → All (IsCached c) es
    → find_equal hotspot image es ≡ some e
    → lookup e.cache_id c.cache ≡ some (narrowed hotspot, image)
unfolding find_equal
find_equal-IsCached c hotspot image [] h f = absurd (cc)
find_equal-IsCached c hotspot image (x ∷ es) {e} h f =
    elim (Bool-cases (is_equal hotspot image x)) [
      | inl same ↦
          let g : some x ≡ some e = rw same at f in
          let k : x ≡ e = cc in let (p, q) = is_equal→ hotspot image x same in cc (h.0, p, q, k)
      | inr other ↦ find_equal-IsCached c hotspot image es h.1 (rw other at f)
    ]

-- Under a new key, the other entries stay cached.
pub erase-IsCached :
    (c : Client) (id : ℕ) (v : Point × Image) (shown : Shown) (es : List CursorUpdate)
    → All (IsCached c) es
    → All (IsCached (record { cache = insert id v c.cache; shown = shown })) (erase id es)
unfolding erase
erase-IsCached c id v shown [] h = tt
erase-IsCached c id v shown (e ∷ es) h =
    ground (arith, erase-IsCached c id v shown es h.1, lookup-remove id e.cache_id c.cache)

pub erase-All :
    (c : Client) (id : ℕ) (es : List CursorUpdate)
    → All (IsCached c) es
    → All (IsCached c) (erase id es)
unfolding erase
erase-All c id [] h = tt
erase-All c id (e ∷ es) h = ground (arith, erase-All c id es h.1)
