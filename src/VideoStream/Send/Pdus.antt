-- ===== src/VideoStream/Send/Pdus.antt =====
-- src/VideoStream.cpp: what performReset and sendFrame send, with the calls for frames apart from the others.
use kheadless_krdp.Prelude.{
  ℕ, ◌≡◌, refl, sym, ◌∙◌, ap, Bool, true, false, Option, if◌then◌else◌, List, [], ◌∷◌, ◌++◌,
  Bool-cases, inl, inr, arith,
}
use mathlib.Core.List.{append-nil, append_assoc}
use kheadless_krdp.Geometry.{Point, Size}
use kheadless_krdp.Monitor.{DisplayMonitor}
use kheadless_krdp.VideoStream.{
  RectOperations, Surface, VideoFrame, Pdu, delete_surface, create_surface, map_surface_to_output,
  start_frame, surface_command, end_frame, Sent, VideoStream,
}
use kheadless_krdp.VideoStream.Send.{
  call, delete_surfaces, create_one, create_surfaces, rebuild, perform_reset, prepare, submit,
  targets, effective_layout, output, cleared, reset_pdu,
}

abbrev pub pdus : List Sent → List Pdu
pdus [] = []
pdus (x ∷ xs) = x.pdu ∷ pdus xs

-- Of what was sent, the starts, the commands and the ends of frames, in their order.
abbrev pub frame_part : Pdu → List Pdu
frame_part (start_frame id time) = start_frame id time ∷ []
frame_part (surface_command id size payload) = surface_command id size payload ∷ []
frame_part (end_frame id) = end_frame id ∷ []
frame_part _ = []

abbrev pub frame_pdus : List Pdu → List Pdu
frame_pdus [] = []
frame_pdus (pdu ∷ rest) = frame_part pdu ++ frame_pdus rest

pub pdus-append : (xs ys : List Sent) → pdus (xs ++ ys) ≡ pdus xs ++ pdus ys
pdus-append [] ys = refl
pdus-append (x ∷ xs) ys = ap (λ rest. x.pdu ∷ rest) (pdus-append xs ys)

frame_pdus-append : (xs ys : List Pdu) → frame_pdus (xs ++ ys) ≡ frame_pdus xs ++ frame_pdus ys
frame_pdus-append [] ys = refl
frame_pdus-append (x ∷ xs) ys =
    ap (λ rest. frame_part x ++ rest) (frame_pdus-append xs ys)
    ∙ sym (append_assoc (frame_part x) (frame_pdus xs) (frame_pdus ys))

-- The calls for frames are the same.
abbrev pub SameFrames : VideoStream → VideoStream → Type 0
SameFrames s t = frame_pdus (pdus t.sent) ≡ frame_pdus (pdus s.sent)

either-SameFrames :
    (test : Bool) (s : VideoStream) (r t : VideoStream × Bool)
    → SameFrames s r.0
    → SameFrames s t.0
    → SameFrames s (if test then r else t).0
either-SameFrames true s r t f g = f
either-SameFrames false s r t f g = g

module _ (answers : List Sent → Pdu → Bool) where
  call-SameFrames :
      (pdu : Pdu) (s : VideoStream) → frame_part pdu ≡ [] → SameFrames s (call answers pdu s)
  call-SameFrames pdu s none =
      ap frame_pdus (pdus-append s.sent _)
      ∙ frame_pdus-append (pdus s.sent) (pdu ∷ [])
      ∙ ap (λ part. frame_pdus (pdus s.sent) ++ (part ++ [])) none
      ∙ append-nil (frame_pdus (pdus s.sent))

  delete_surfaces-SameFrames :
      (xs : List Surface) (s : VideoStream) → SameFrames s (delete_surfaces answers xs s)
  unfolding delete_surfaces
  delete_surfaces-SameFrames [] s = refl
  delete_surfaces-SameFrames (x ∷ xs) s =
      delete_surfaces-SameFrames xs (call answers (delete_surface x.id) s)
      ∙ call-SameFrames (delete_surface x.id) s refl

  create_one-SameFrames :
      (size : Size) (position : Point) (s : VideoStream)
      → SameFrames s (create_one answers size position s).0
  unfolding create_one
  create_one-SameFrames size position s =
      let id = s.next_surface_id in
      let pdu = create_surface id size in
      let made = call-SameFrames pdu s refl in
      either-SameFrames (answers s.sent pdu) s _ _
        (call-SameFrames (map_surface_to_output id position) (call answers pdu s) refl ∙ made) made

  create_surfaces-SameFrames :
      (list : List (Size × Point)) (s : VideoStream)
      → SameFrames s (create_surfaces answers list s).0
  unfolding create_surfaces
  create_surfaces-SameFrames [] s = refl
  create_surfaces-SameFrames ((size, position) ∷ rest) s =
      let t = (create_one answers size position s).0 in
      elim (Bool-cases (create_one answers size position s).1) [
        | inl e ↦
            rw (create_surfaces, e)
              (create_surfaces-SameFrames rest t ∙ create_one-SameFrames size position s)
        | inr e ↦ rw (create_surfaces, e) (create_one-SameFrames size position s)
      ]

  module _ (rects : RectOperations) where
    rebuild-SameFrames :
        (layout : List DisplayMonitor) (index : Option ℕ) (s : VideoStream)
        → SameFrames s (rebuild answers rects layout index s).0
    unfolding rebuild
    rebuild-SameFrames layout index s =
        let emptied = cleared answers rects s in
        let pdu = reset_pdu answers rects layout in
        let t = call answers pdu emptied in
        let reset : SameFrames s t =
          call-SameFrames pdu emptied refl ∙ delete_surfaces-SameFrames s.surfaces s in
        either-SameFrames (answers emptied.sent pdu) s _ (t, false)
          (create_surfaces-SameFrames (targets rects layout index) t ∙ reset) reset

    -- A reset sends nothing of a frame.
    pub prepare-SameFrames :
        (frame : VideoFrame) (s : VideoStream) → SameFrames s (prepare answers rects frame s).0
    unfolding prepare perform_reset
    prepare-SameFrames frame s =
        let layout = effective_layout s.monitor_layout frame.size in
        let index = output frame.output_index in ground (arith, rebuild-SameFrames layout index s)

    -- The calls for a frame.
    abbrev pub frame_calls : ℕ → ℕ → Surface → VideoFrame → List Pdu
    frame_calls id time surface frame =
        start_frame id time
        ∷ surface_command surface.id frame.size frame.payload
        ∷ end_frame id
        ∷ []

    pub submit-pdus :
        (time : ℕ) (frame : VideoFrame) (surface : Surface) (s : VideoStream)
        → pdus (submit answers rects time frame surface s).sent
          ≡ pdus s.sent ++ frame_calls s.frame_id time surface frame
    unfolding submit
    submit-pdus time frame surface s =
        let begin = start_frame s.frame_id time in
        let command = surface_command surface.id frame.size frame.payload in
        let end = end_frame s.frame_id in
        pdus-append _ _
        ∙ ap (λ xs. xs ++ end ∷ [])
            (pdus-append _ _ ∙ ap (λ xs. xs ++ command ∷ []) (pdus-append s.sent _))
        ∙ append_assoc (pdus s.sent ++ begin ∷ []) (command ∷ []) (end ∷ [])
        ∙ append_assoc (pdus s.sent) (begin ∷ []) (command ∷ end ∷ [])
