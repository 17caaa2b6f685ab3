-- ===== src/Cursor/Shown.antt =====
-- That the client shows the cursor that src/Cursor.cpp was last asked for.
use kheadless_krdp.Prelude.{
  ℕ, ◌<◌, ◌≡◌, inl, inr, refl, sym, ◌∙◌, subst, true, false, ◌&&◌, ◌||◌, Option, none, some, List,
  [], ◌∷◌, ◌++◌, ltb, leb, ◌==◌, if◌then◌else◌, length, All, All-append, arith, Bool-cases,
  Option-cases,
}
use kheadless_krdp.Prelude.Assoc.{insert}
use kheadless_krdp.Geometry.{Point}
use kheadless_krdp.Cursor.{
  narrowed, Image, CursorType, hidden, system_default, bitmap_image, CursorUpdate, PointerPdu,
  pointer_cached, pointer_system, Cursor, set_cursor_type, switch_to, same_type, is_equal,
  find_entry, find_equal, touch, erase, is_showing, image_pdu, least_recent, add, evict, add_new,
  touch_last, show_image, update,
}
use kheadless_krdp.Cursor.Client.{
  Client, Shown, bitmap, system, receive, receive_all, receive_all-append,
}
use kheadless_krdp.Cursor.Cached.{
  client, IsCached, IsCurrent, IsOfType, Agrees, touch-IsCached, find_entry-IsCached,
  find_equal-IsCached, erase-IsCached, erase-All, is_equal→,
}

client-append :
    (sent more : List PointerPdu) → client (sent ++ more) ≡ receive_all (client sent) more
client-append sent more = receive_all-append _ sent more

receive-image_pdu :
    (id : ℕ) (hotspot : Point) (image : Image) (c : Client)
    → receive (image_pdu id hotspot image) c ≡ record {
      cache = insert id (narrowed hotspot, image) c.cache;
      shown = bitmap (narrowed hotspot) image;
    }
receive-image_pdu id hotspot image c =
    elim (Bool-cases (ltb image.width 96 && ltb image.height 96)) [
      | inl e ↦ rw e refl
      | inr e ↦ rw e refl
    ]

-- The client that has been sent a new cursor.
abbrev with_new : ℕ → Point → Image → Client → Client
with_new id hotspot image c = record {
  cache = insert id (narrowed hotspot, image) c.cache;
  shown = bitmap (narrowed hotspot) image;
}

same_key : (id : ℕ) → (id == id) ≡ true
same_key id = ground arith

client-add :
    (id : ℕ) (hotspot : Point) (image : Image) (sent : List PointerPdu)
    → client (sent ++ image_pdu id hotspot image ∷ pointer_cached id ∷ [])
      ≡ with_new id hotspot image (client sent)
client-add id hotspot image sent =
    client-append sent (image_pdu id hotspot image ∷ pointer_cached id ∷ [])
    ∙ rw (receive-image_pdu id hotspot image (client sent), same_key id) refl

-- An image is being shown.
abbrev pub Shows : Shown → Cursor → Type 0
Shows shown s = Agrees s × ((client s.sent).shown ≡ shown)

add-Shows :
    (id now : ℕ) (hotspot : Point) (image : Image) (left : List CursorUpdate) (s : Cursor)
    → s.cursor_type ≡ bitmap_image
    → All (IsCached (client s.sent)) left
    → Shows (bitmap (narrowed hotspot) image) (add id now hotspot image left s)
unfolding add
add-Shows id now hotspot image left s type h =
    rw (client-add id hotspot image s.sent, type, same_key id)
      (
        (
          All-append _ (erase id left) _
              (erase-IsCached (client s.sent) id (narrowed hotspot, image)
                (bitmap (narrowed hotspot) image) left h)
              (rw (same_key id) refl, tt),
          refl,
          tt,
        ),
        refl,
      )

evict-Shows :
    (now : ℕ) (hotspot : Point) (image : Image) (cache : List CursorUpdate) (s : Cursor)
    → s.cursor_type ≡ bitmap_image
    → All (IsCached (client s.sent)) cache
    → 0 < length cache
    → (t : Cursor) × (evict now hotspot image cache s ≡ some t)
      × Shows (bitmap (narrowed hotspot) image) t
unfolding evict
evict-Shows now hotspot image [] s type h ne = absurd (omega arith)
evict-Shows now hotspot image (e ∷ es) s type h ne = (
  _,
  refl,
  add-Shows (least_recent e es).cache_id now hotspot image
      (erase (least_recent e es).cache_id (e ∷ es)) s type
      (erase-All (client s.sent) (least_recent e es).cache_id (e ∷ es) h),
)

add_new-Shows :
    (limit now : ℕ) (hotspot : Point) (image : Image) (s : Cursor)
    → 0 < limit
    → s.cursor_type ≡ bitmap_image
    → All (IsCached (client s.sent)) s.cursor_cache
    → (t : Cursor) × (add_new limit now hotspot image s ≡ some t)
      × Shows (bitmap (narrowed hotspot) image) t
unfolding add_new
add_new-Shows limit now hotspot image s positive type h =
    elim (Bool-cases (leb limit (length s.cursor_cache))) [
      | inl e ↦
          let (t, made, shows) =
            evict-Shows now hotspot image s.cursor_cache s type h (ground arith) in
          (t, rw e made, shows)
      | inr e ↦ (
        add (length s.cursor_cache) now hotspot image s.cursor_cache s,
        rw e refl,
        add-Shows (length s.cursor_cache) now hotspot image s.cursor_cache s type h,
      )
    ]

is_showing-Shows :
    (hotspot : Point) (image : Image) (last : Option ℕ) (cache : List CursorUpdate) (c : Client)
    → is_showing hotspot image last cache ≡ true
    → All (IsCached c) cache
    → IsCurrent c last
    → c.shown ≡ bitmap (narrowed hotspot) image
unfolding is_showing
is_showing-Shows hotspot image none cache c h cached current = absurd (cc)
is_showing-Shows hotspot image (some id) cache c h cached current =
    elim (Option-cases (find_entry id cache)) [
      | inl e ↦ let k : false ≡ true = rw (e, is_showing) at h in absurd (cc)
      | inr (entry, e) ↦
          let k : is_equal hotspot image entry ≡ true = rw (e, is_showing) at h in
          let (p, q) = is_equal→ hotspot image entry k in
          current ∙ rw (find_entry-IsCached c id cache cached e, p, q) refl
    ]

touch_last-IsCached :
    (c : Client) (last : Option ℕ) (now : ℕ) (es : List CursorUpdate)
    → All (IsCached c) es
    → All (IsCached c) (touch_last last now es)
touch_last-IsCached c none now es h = h
touch_last-IsCached c (some id) now es h = touch-IsCached c id now es h

show_image-Shows :
    (limit now : ℕ) (hotspot : Point) (image : Image) (s : Cursor)
    → 0 < limit
    → s.cursor_type ≡ bitmap_image
    → Agrees s
    → (t : Cursor) × (show_image limit now hotspot image s ≡ some t)
      × Shows (bitmap (narrowed hotspot) image) t
unfolding show_image
show_image-Shows limit now hotspot image s positive type (cached, current, of_type) =
    elim (Bool-cases (is_showing hotspot image s.last_used_cursor s.cursor_cache)) [
      | inl e ↦ (
        record s { cursor_cache = touch_last s.last_used_cursor now s.cursor_cache },
        rw e refl,
        (
          (
            touch_last-IsCached (client s.sent) s.last_used_cursor now s.cursor_cache cached,
            current,
            of_type,
          ),
          is_showing-Shows hotspot image s.last_used_cursor s.cursor_cache (client s.sent) e cached
              current,
        ),
      )
      | inr e ↦ elim (Option-cases (find_equal hotspot image s.cursor_cache)) [
        | inl f ↦
            let (t, made, shows) = add_new-Shows limit now hotspot image s positive type cached in
            (t, rw (e, f) made, shows)
        | inr (entry, f) ↦ (
          record s {
            last_used_cursor = some entry.cache_id;
            cursor_cache = touch entry.cache_id now s.cursor_cache;
            sent = s.sent ++ pointer_cached entry.cache_id ∷ [];
          },
          rw (e, f) refl,
          rw (client-append s.sent (pointer_cached entry.cache_id ∷ []), type)
              (
                (touch-IsCached (client s.sent) entry.cache_id now s.cursor_cache cached, refl, tt),
                rw (find_equal-IsCached (client s.sent) hotspot image s.cursor_cache cached f) refl,
              ),
        )
      ]
    ]

-- The cursor that an update with an image asks for: an image beyond 384 pixels is replaced by the default.
abbrev pub requested : Point → Image → Shown
requested hotspot image =
    if ltb 384 image.width || ltb 384 image.height
    then system system_default
    else bitmap (narrowed hotspot) image

is_default : (type : CursorType) → same_type type system_default ≡ true → type ≡ system_default
is_default system_default h = refl
is_default hidden h = absurd (cc)
is_default bitmap_image h = absurd (cc)

set_default-Shows :
    (s : Cursor) → Agrees s → Shows (system system_default) (set_cursor_type system_default s)
unfolding set_cursor_type switch_to
set_default-Shows s v = elim (Bool-cases (same_type s.cursor_type system_default)) [
  | inl same ↦
      let unchanged : set_cursor_type system_default s ≡ s = rw same refl in
      subst (Shows (system system_default)) (sym unchanged)
        (v, subst (IsOfType (client s.sent)) (is_default s.cursor_type same) v.2)
  | inr other ↦
      let changed : set_cursor_type system_default s ≡ told = rw other refl in
      subst (Shows (system system_default)) (sym changed)
        (rw (client-append s.sent (pointer_system system_default ∷ [])) ((v.0, tt, refl), refl))
]
  where
    told : Cursor
    told = record s {
      cursor_type = system_default;
      last_used_cursor = none;
      sent = s.sent ++ pointer_system system_default ∷ [];
    }

set_image-Agrees :
    (s : Cursor)
    → Agrees s
    → Agrees (set_cursor_type bitmap_image s)
      × ((set_cursor_type bitmap_image s).cursor_type ≡ bitmap_image)
unfolding set_cursor_type switch_to
set_image-Agrees s v = ground arith

-- While the session streams, the cache may hold a cursor and the client agrees with the server,
-- every update with an image makes the client show that image with its hotspot, whose coordinates are taken modulo
-- 2^16, or the default cursor for an image that is too large, whether the image was shown, was cached, is new, or takes the place
-- of another one; and the client still agrees with the server.
pub update-Shows :
    (limit now : ℕ) (hotspot : Point) (image : Image) (s : Cursor)
    → 0 < limit
    → image.null ≡ false
    → Agrees s
    → (t : Cursor) × (update true limit now hotspot image s ≡ some t)
      × Shows (requested hotspot image) t
unfolding update
update-Shows limit now hotspot image s positive not_null v =
    elim (Bool-cases (ltb 384 image.width || ltb 384 image.height)) [
      | inl e ↦ (
        set_cursor_type system_default s,
        not_ignored (set_cursor_type system_default s) (rw e refl),
        rw e (set_default-Shows s v),
      )
      | inr e ↦
          let (w, type) = set_image-Agrees s v in
          let (t, made, shows) =
            show_image-Shows limit now hotspot image (set_cursor_type bitmap_image s) positive type
              w in
          (t, not_ignored t (rw e made), rw e shows)
    ]
  where
    not_ignored :
        (t : Cursor)
        → (if ltb 384 image.width || ltb 384 image.height
            then some (set_cursor_type system_default s)
            else show_image limit now hotspot image (set_cursor_type bitmap_image s))
          ≡ some t
        → update true limit now hotspot image s ≡ some t
    not_ignored t h =
        subst
          (λ ignored.
            (if ignored
              then some s
              else if ltb 384 image.width || ltb 384 image.height
              then some (set_cursor_type system_default s)
              else show_image limit now hotspot image (set_cursor_type bitmap_image s))
            ≡ some t)
          (sym not_null) h
