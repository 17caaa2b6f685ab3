-- ===== src/VideoStream/Send/Resets.antt =====
-- What performReset of src/VideoStream.cpp makes: the surfaces for a frame, and the members that it leaves alone.
use kheadless_krdp.Prelude.{
  ℕ, ◌+◌, ◌%◌, ◌^◌, ◌≡◌, refl, sym, Bool, true, false, Option, List, [], ◌∷◌, ◌++◌, arith,
}
use mathlib.Core.List.{append-nil, append_assoc}
use kheadless_krdp.Geometry.{Point, Size}
use kheadless_krdp.Monitor.{DisplayMonitor}
use kheadless_krdp.VideoStream.{
  RectOperations, Surface, VideoFrame, Pdu, Sent, VideoStream, create_surface,
}
use kheadless_krdp.VideoStream.Send.{
  call, delete_surfaces, create_one, create_surfaces, rebuild, perform_reset, prepare, targets,
  effective_layout, output, fits_layout, cleared, reset_pdu,
}

-- The surfaces of the given sizes with the next ids, from `id` on.
abbrev pub numbered : ℕ → List (Size × Point) → List Surface
numbered id [] = []
numbered id ((size, position) ∷ ts) =
    record { id = id; size = size } ∷ numbered ((id + 1) % 2 ^ 16) ts

-- The members that only the sending of a frame changes.
abbrev pub SameCounters : VideoStream → VideoStream → Type 0
SameCounters s t =
    s.frame_id ≡ t.frame_id
    × s.encoded_frames ≡ t.encoded_frames
    × s.pending_frames ≡ t.pending_frames

module _ (answers : List Sent → Pdu → Bool) where
  create_one-next :
      (size : Size) (position : Point) (s : VideoStream)
      → (create_one answers size position s).0.next_surface_id ≡ (s.next_surface_id + 1) % 2 ^ 16
  unfolding create_one
  create_one-next size position s = ground arith

  create_one-surfaces :
      (size : Size) (position : Point) (s : VideoStream)
      → (create_one answers size position s).1 ≡ true
      → (create_one answers size position s).0.surfaces
        ≡ s.surfaces ++ record { id = s.next_surface_id; size = size } ∷ []
  unfolding create_one
  create_one-surfaces size position s h = ground arith

  create_surfaces-numbered :
      (ts : List (Size × Point)) (s : VideoStream)
      → (create_surfaces answers ts s).1 ≡ true
      → (create_surfaces answers ts s).0.surfaces ≡ s.surfaces ++ numbered s.next_surface_id ts
  unfolding create_surfaces
  create_surfaces-numbered [] s h = sym (append-nil s.surfaces)
  create_surfaces-numbered ((size, position) ∷ ts) s h = ground (
    arith,
    create_one-next size position s,
    create_one-surfaces size position s,
    create_surfaces-numbered ts (create_one answers size position s).0,
    append_assoc s.surfaces (record { id = s.next_surface_id; size = size } ∷ [])
        (numbered ((s.next_surface_id + 1) % 2 ^ 16) ts),
  )

  create_one-same :
      (size : Size) (position : Point) (s : VideoStream)
      → SameCounters s (create_one answers size position s).0
  unfolding create_one
  create_one-same size position s = ground arith

  create_surfaces-same :
      (ts : List (Size × Point)) (s : VideoStream) → SameCounters s (create_surfaces answers ts s).0
  unfolding create_surfaces
  create_surfaces-same [] s = (refl, refl, refl)
  create_surfaces-same ((size, position) ∷ ts) s = ground (
    arith,
    create_one-same size position s,
    create_surfaces-same ts (create_one answers size position s).0,
  )

  delete_surfaces-same :
      (xs : List Surface) (s : VideoStream)
      → SameCounters s (delete_surfaces answers xs s)
        × (delete_surfaces answers xs s).next_surface_id ≡ s.next_surface_id
  unfolding delete_surfaces
  delete_surfaces-same [] s = ((refl, refl, refl), refl)
  delete_surfaces-same (x ∷ xs) s =
      delete_surfaces-same xs (call answers (Pdu.delete_surface x.id) s)

  -- FreeRDP accepts every call.
  abbrev pub AllAccepted : Type 0
  AllAccepted = (past : List Sent) (pdu : Pdu) → answers past pdu ≡ true

  create_one-succeeds :
      (size : Size) (position : Point) (s : VideoStream)
      → AllAccepted
      → (create_one answers size position s).1 ≡ true
  unfolding create_one
  create_one-succeeds size position s ok =
      rw (ok s.sent (create_surface s.next_surface_id size)) (ok _ _)

  create_surfaces-succeeds :
      (ts : List (Size × Point)) (s : VideoStream)
      → AllAccepted
      → (create_surfaces answers ts s).1 ≡ true
  unfolding create_surfaces
  create_surfaces-succeeds [] s ok = refl
  create_surfaces-succeeds ((size, position) ∷ ts) s ok =
      rw (create_surfaces, create_one-succeeds size position s ok)
        (create_surfaces-succeeds ts (create_one answers size position s).0 ok)

  module _ (rects : RectOperations) where
    pub rebuild-same :
        (layout : List DisplayMonitor) (index : Option ℕ) (s : VideoStream)
        → SameCounters s (rebuild answers rects layout index s).0
    unfolding rebuild
    rebuild-same layout index s = ground (
      arith,
      delete_surfaces-same s.surfaces s,
      create_surfaces-same (targets rects layout index)
          (call answers (reset_pdu answers rects layout) (cleared answers rects s)),
    )

    pub rebuild-numbered :
        (layout : List DisplayMonitor) (index : Option ℕ) (s : VideoStream)
        → (rebuild answers rects layout index s).1 ≡ true
        → (rebuild answers rects layout index s).0.surfaces
          ≡ numbered s.next_surface_id (targets rects layout index)
    unfolding rebuild
    rebuild-numbered layout index s h = ground (
      arith,
      delete_surfaces-same s.surfaces s,
      create_surfaces-numbered (targets rects layout index)
          (call answers (reset_pdu answers rects layout) (cleared answers rects s)),
    )

    pub rebuild-succeeds :
        (layout : List DisplayMonitor) (index : Option ℕ) (s : VideoStream)
        → AllAccepted
        → (rebuild answers rects layout index s).1 ≡ true
    unfolding rebuild
    rebuild-succeeds layout index s ok = ground (
      arith,
      ok (cleared answers rects s).sent (reset_pdu answers rects layout),
      create_surfaces-succeeds (targets rects layout index)
          (call answers (reset_pdu answers rects layout) (cleared answers rects s)) ok,
    )

    pub prepare-same :
        (frame : VideoFrame) (s : VideoStream) → SameCounters s (prepare answers rects frame s).0
    unfolding prepare perform_reset
    prepare-same frame s = ground (
      arith,
      rebuild-same (effective_layout s.monitor_layout frame.size) (output frame.output_index) s,
    )

    -- What the stream has prepared once it is to send the frame: after a reset, a fresh surface for each target of the
    -- layout, which the frame fits.
    pub prepare-numbered :
        (frame : VideoFrame) (s : VideoStream)
        → s.pending_reset ≡ true
        → (prepare answers rects frame s).1 ≡ true
        → (prepare answers rects frame s).0.surfaces
            ≡ numbered s.next_surface_id (
                targets rects
                  (effective_layout s.monitor_layout frame.size)
                  (output frame.output_index))
          × fits_layout rects
              (effective_layout s.monitor_layout frame.size)
              (output frame.output_index)
              frame.size
            ≡ true
          × (prepare answers rects frame s).0.pending_reset ≡ false
    unfolding prepare perform_reset
    prepare-numbered frame s pending h = ground (
      arith,
      rebuild-numbered (effective_layout s.monitor_layout frame.size) (output frame.output_index) s,
    )

    pub prepare-succeeds :
        (frame : VideoFrame) (s : VideoStream)
        → AllAccepted
        → s.pending_reset ≡ true
        → fits_layout rects
            (effective_layout s.monitor_layout frame.size)
            (output frame.output_index)
            frame.size
          ≡ true
        → (prepare answers rects frame s).1 ≡ true
    unfolding prepare perform_reset
    prepare-succeeds frame s ok pending fits = ground (
      arith,
      rebuild-succeeds (effective_layout s.monitor_layout frame.size) (output frame.output_index) s
          ok,
    )
