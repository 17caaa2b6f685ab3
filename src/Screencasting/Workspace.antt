-- ===== src/Screencasting/Workspace.antt =====
-- src/screencasting.cpp: what a stream of the workspace shows.
use kheadless_krdp.Prelude.{ℕ, zero, suc, ◌≡◌, refl, subst, true, some, List, [], ◌∷◌, get_elem?}
use kheadless_krdp.Geometry.{Point, Rect, Covers}
use kheadless_krdp.VideoStream.{RectOperations}
use kheadless_krdp.Screencasting.{
  OutputScreen, ScreencastingStream, stream_region, unite_screens, create_workspace_stream,
}

-- What Qt documents of QRect::united: the rectangle has both.
pub record IsUnion (rects : RectOperations) : Type 0 where
  pub has_left : (r s : Rect) (p : Point) → Covers r p → Covers (rects.united r s) p
  pub has_right : (r s : Rect) (p : Point) → Covers s p → Covers (rects.united r s) p

module _ (rects : RectOperations) (u : IsUnion rects) where
  unite_screens-has :
      (screens : List OutputScreen) (r : Rect) (p : Point)
      → Covers r p
      → Covers (unite_screens rects r screens) p
  unfolding unite_screens
  unite_screens-has [] r p c = c
  unite_screens-has (screen ∷ screens) r p c =
      unite_screens-has screens (rects.united r screen.geometry) p
        (u.has_left r screen.geometry p c)

  unite_screens-get_elem? :
      (screens : List OutputScreen) (r : Rect) (i : ℕ) {screen : OutputScreen} (p : Point)
      → get_elem? screens i ≡ some screen
      → Covers screen.geometry p
      → Covers (unite_screens rects r screens) p
  unfolding unite_screens
  unite_screens-get_elem? [] r i p e c = absurd (cc)
  unite_screens-get_elem? (s ∷ screens) r zero {screen} p e c =
      let same : screen ≡ s = cc in
      unite_screens-has screens (rects.united r s.geometry) p
        (u.has_right r s.geometry p (subst (λ t. Covers t.geometry p) same c))
  unite_screens-get_elem? (s ∷ screens) r (suc i) p e c =
      unite_screens-get_elem? screens (rects.united r s.geometry) i p e c

  -- QRect::united covers what both rectangles cover. Where there are several screens and the extension is active, a
  -- stream of the workspace is one of a region that covers every pixel of every screen, and has the region's size.
  pub create_workspace_stream-Covers :
      (a b : OutputScreen) (rest : List OutputScreen) (i : ℕ) (screen : OutputScreen) (p : Point)
      → get_elem? (a ∷ b ∷ rest) i ≡ some screen
      → Covers screen.geometry p
      → (s : ScreencastingStream) × (g : Rect) × (create_workspace_stream true rects (a ∷ b ∷ rest)
          ≡ some s)
        × (s.request ≡ stream_region g.position g.size 1)
        × (s.size ≡ g.size)
        × Covers g p
  unfolding create_workspace_stream
  create_workspace_stream-Covers a b rest i screen p e c =
      let g = unite_screens rects rects.null_rect (a ∷ b ∷ rest) in
      (_, g, refl, refl, refl, unite_screens-get_elem? (a ∷ b ∷ rest) rects.null_rect i p e c)
