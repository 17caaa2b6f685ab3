-- ===== src/Cursor.antt =====
-- src/Cursor.cpp: the cursor that the client shows, and the cache of cursor images. A QImage is given by its size and
-- a number that stands for its pixels; times of steady_clock and the client's cache size are arguments.
pub mod Client
pub mod Cached
pub mod Shown
mod Examples
use kheadless_krdp.Prelude.{
  ℕ, ◌-◌, ◌%◌, ◌^◌, Bool, true, false, ◌&&◌, ◌||◌, not, Option, none, some, List, [], ◌∷◌, ◌++◌,
  ltb, leb, ◌==◌, if◌then◌else◌, length,
}
use kheadless_krdp.Prelude.Int.{ℤ, pos, negsuc}
use kheadless_krdp.Geometry.{Point, eq_point}

pub record Image : Type 0 where
  pub null : Bool
  pub width : ℕ
  pub height : ℕ
  pub pixels : ℕ

abbrev same_bool : Bool → Bool → Bool
same_bool true b = b
same_bool false b = not b

-- QImage's `operator==`.
abbrev pub eq_image : Image → Image → Bool
eq_image a b =
    same_bool a.null b.null && a.width == b.width && a.height == b.height && a.pixels == b.pixels

pub data CursorType : Type 0 where
  hidden system_default bitmap_image : CursorType

pub record CursorUpdate : Type 0 where
  pub hotspot : Point
  pub image : Image
  pub cache_id : ℕ
  pub last_used : ℕ

-- What is handed to FreeRDP's pointer updates.
pub data PointerPdu : Type 0 where
  pointer_new : (cache_index : ℕ) → Point → Image → PointerPdu
  pointer_large : (cache_index : ℕ) → Point → Image → PointerPdu
  pointer_cached : (cache_index : ℕ) → PointerPdu
  pointer_system : CursorType → PointerPdu

-- Cursor::Private. `last_used_cursor` is the key of the entry that the pointer points to. The order of the
-- list stands for that in which the QHash is iterated.
pub record Cursor : Type 0 where
  pub cursor_type : CursorType
  pub last_used_cursor : Option ℕ
  pub cursor_cache : List CursorUpdate
  pub sent : List PointerPdu

abbrev pub initial : Cursor
initial = record {
  cursor_type = system_default;
  last_used_cursor = none;
  cursor_cache = [];
  sent = [];
}

abbrev pub same_type : CursorType → CursorType → Bool
same_type hidden hidden = true
same_type system_default system_default = true
same_type bitmap_image bitmap_image = true
same_type _ _ = false

switch_to : CursorType → Cursor → Cursor
switch_to bitmap_image s = record s { cursor_type = bitmap_image }
switch_to type s = record s {
  cursor_type = type;
  last_used_cursor = none;
  sent = s.sent ++ pointer_system type ∷ [];
}

unfoldable pub set_cursor_type : CursorType → Cursor → Cursor
unfolding switch_to
set_cursor_type type s = if same_type s.cursor_type type then s else switch_to type s

-- CursorUpdate's `operator==`.
abbrev pub is_equal : Point → Image → CursorUpdate → Bool
is_equal hotspot image cached = eq_point hotspot cached.hotspot && eq_image image cached.image

-- The entry of a key, and the entry that is equal to the new cursor.
pub find_entry : ℕ → List CursorUpdate → Option CursorUpdate
find_entry id [] = none
find_entry id (e ∷ es) = if e.cache_id == id then some e else find_entry id es

pub find_equal : Point → Image → List CursorUpdate → Option CursorUpdate
find_equal hotspot image [] = none
find_equal hotspot image (e ∷ es) =
    if is_equal hotspot image e then some e else find_equal hotspot image es

pub touch : ℕ → ℕ → List CursorUpdate → List CursorUpdate
touch id now [] = []
touch id now (e ∷ es) =
    (if e.cache_id == id then record e { last_used = now } else e) ∷ touch id now es

pub erase : ℕ → List CursorUpdate → List CursorUpdate
erase id [] = []
erase id (e ∷ es) = let rest = erase id es in if e.cache_id == id then rest else e ∷ rest

-- std::min_element by lastUsed.
pub least_recent : CursorUpdate → List CursorUpdate → CursorUpdate
least_recent best [] = best
least_recent best (e ∷ es) = least_recent (if ltb e.last_used best.last_used then e else best) es

-- `*d->lastUsedCursor == update`, false for a null pointer.
pub is_showing : Point → Image → Option ℕ → List CursorUpdate → Bool
unfolding find_entry
is_showing hotspot image none cache = false
is_showing hotspot image (some id) cache = elim (find_entry id cache) [
  | none ↦ false
  | some e ↦ is_equal hotspot image e
]

-- FreeRDP takes the coordinates of a hotspot as UINT16.
abbrev pub to_u16 : ℤ → ℕ
to_u16 (pos n) = n % 2 ^ 16
to_u16 (negsuc n) = 2 ^ 16 - 1 - n % 2 ^ 16

abbrev pub narrowed : Point → Point
narrowed p = record { x = pos (to_u16 p.x); y = pos (to_u16 p.y) }

-- A small image goes out as POINTER_NEW_UPDATE, another one as POINTER_LARGE_UPDATE.
abbrev pub image_pdu : ℕ → Point → Image → PointerPdu
image_pdu id hotspot image =
    if ltb image.width 96 && ltb image.height 96
    then pointer_new id (narrowed hotspot) image
    else pointer_large id (narrowed hotspot) image

-- The new cursor is sent and inserted under `id` into what is left of the cache.
pub add : ℕ → ℕ → Point → Image → List CursorUpdate → Cursor → Cursor
unfolding erase
add id now hotspot image left s = record s {
  last_used_cursor = some id;
  cursor_cache =
      erase id left
      ++ record { hotspot = hotspot; image = image; cache_id = id; last_used = now } ∷ [];
  sent = s.sent ++ image_pdu id hotspot image ∷ pointer_cached id ∷ [];
}

-- `none` stands for the dereferencing of end() in an empty cache.
pub evict : ℕ → Point → Image → List CursorUpdate → Cursor → Option Cursor
unfolding add erase least_recent
evict now hotspot image [] s = none
evict now hotspot image (e ∷ es) s =
    let id = (least_recent e es).cache_id in some (add id now hotspot image (erase id (e ∷ es)) s)

pub add_new : ℕ → ℕ → Point → Image → Cursor → Option Cursor
unfolding evict
add_new limit now hotspot image s =
    if leb limit (length s.cursor_cache)
    then evict now hotspot image s.cursor_cache s
    else some (add (length s.cursor_cache) now hotspot image s.cursor_cache s)

abbrev touch_last : Option ℕ → ℕ → List CursorUpdate → List CursorUpdate
touch_last none now cache = cache
touch_last (some id) now cache = touch id now cache

-- The part of update behind setCursorType(CursorType::Image).
pub show_image : ℕ → ℕ → Point → Image → Cursor → Option Cursor
unfolding is_showing find_equal add_new touch
show_image limit now hotspot image s =
    if is_showing hotspot image s.last_used_cursor s.cursor_cache
    then some (record s { cursor_cache = touch_last s.last_used_cursor now s.cursor_cache })
    else elim (find_equal hotspot image s.cursor_cache) [
      | some e ↦ some (record s {
        last_used_cursor = some e.cache_id;
        cursor_cache = touch e.cache_id now s.cursor_cache;
        sent = s.sent ++ pointer_cached e.cache_id ∷ [];
      })
      | none ↦ add_new limit now hotspot image s
    ]

-- `limit` is the setting FreeRDP_PointerCacheSize.
unfoldable pub update : Bool → ℕ → ℕ → Point → Image → Cursor → Option Cursor
unfolding set_cursor_type show_image
update streaming limit now hotspot image s =
    if not streaming || image.null
    then some s
    else if ltb 384 image.width || ltb 384 image.height
    then some (set_cursor_type system_default s)
    else show_image limit now hotspot image (set_cursor_type bitmap_image s)
