-- ===== src/VideoStream/Send/Surfaces.antt =====
-- The surfaces that the client holds, read off what it was sent, against those that the stream lists.
use kheadless_krdp.Prelude.{
  ℕ, ◌+◌, ◌%◌, ◌^◌, ◌≡◌, refl, sym, ◌∙◌, ap, Bool, true, false, ◌||◌, Option, List, [], ◌∷◌, ◌++◌,
  map, ◌==◌, if◌then◌else◌, arith, All, All-map, Bool-cases, inl, inr, Option-cases,
}
use mathlib.Core.List.{map-append}
use kheadless_krdp.Geometry.{Point, Size}
use kheadless_krdp.Monitor.{DisplayMonitor}
use kheadless_krdp.NetworkDetection.{NetworkDetection}
use kheadless_krdp.VideoStream.{
  RectOperations, Surface, VideoFrame, Pdu, delete_surface, create_surface, map_surface_to_output,
  start_frame, surface_command, end_frame, Sent, VideoStream, acknowledge,
}
use kheadless_krdp.VideoStream.Send.{
  call, delete_surfaces, create_one, create_surfaces, rebuild, perform_reset, prepare, submit,
  deliver, surface_for, send_frame, targets, cleared, reset_pdu, effective_layout, output,
}

abbrev forget : ℕ → List ℕ → List ℕ
forget id [] = []
forget id (j ∷ js) = let rest = forget id js in if j == id then rest else j ∷ rest

-- A client creates and deletes surfaces as it is told; a call that FreeRDP refuses does not reach it.
abbrev tell : Bool → Pdu → List ℕ → List ℕ
tell true (delete_surface id) held = forget id held
tell true (create_surface id size) held = held ++ id ∷ []
tell accepted pdu held = held

abbrev pub holds : List ℕ → List Sent → List ℕ
holds held [] = held
holds held (x ∷ xs) = holds (tell x.accepted x.pdu held) xs

abbrev pub ids : List Surface → List ℕ
ids = map (λ surface. surface.id)

abbrev pub IsShown : VideoStream → Type 0
IsShown s = holds [] s.sent ≡ ids s.surfaces

holds-snoc :
    (held : List ℕ) (xs : List Sent) (x : Sent)
    → holds held (xs ++ x ∷ []) ≡ tell x.accepted x.pdu (holds held xs)
holds-snoc held [] x = refl
holds-snoc held (y ∷ xs) x = holds-snoc (tell y.accepted y.pdu held) xs x

abbrev mem : ℕ → List ℕ → Bool
mem i [] = false
mem i (j ∷ js) = j == i || mem i js

forget_all : List ℕ → List ℕ → List ℕ
forget_all [] held = held
forget_all (i ∷ is) held = forget_all is (forget i held)

forget-within :
    (i : ℕ) (is held : List ℕ)
    → All (λ h. mem h (i ∷ is) ≡ true) held
    → All (λ h. mem h is ≡ true) (forget i held)
forget-within i is [] h = tt
forget-within i is (j ∷ js) h = ground (arith, forget-within i is js h.1)

forget_all-nil : (is held : List ℕ) → All (λ h. mem h is ≡ true) held → forget_all is held ≡ []
unfolding forget_all
forget_all-nil [] [] h = refl
forget_all-nil [] (j ∷ js) h = cc
forget_all-nil (i ∷ is) held h = forget_all-nil is (forget i held) (forget-within i is held h)

All-within : (is : List ℕ) → All (λ h. mem h is ≡ true) is
All-within [] = tt
All-within (i ∷ is) = (ground arith, All-map (λ h k. ground arith) is (All-within is))

module _ (answers : List Sent → Pdu → Bool) where
  -- Deletions are never refused. (The code does not look at their status.)
  abbrev pub DeletesAreAccepted : Type 0
  DeletesAreAccepted = (past : List Sent) (id : ℕ) → answers past (delete_surface id) ≡ true

  holds-call :
      (pdu : Pdu) (s : VideoStream)
      → holds [] (call answers pdu s).sent ≡ tell (answers s.sent pdu) pdu (holds [] s.sent)
  holds-call pdu s = holds-snoc [] s.sent (record { pdu = pdu; accepted = answers s.sent pdu })

  holds-delete :
      (xs : List Surface) (s : VideoStream)
      → DeletesAreAccepted
      → holds [] (delete_surfaces answers xs s).sent ≡ forget_all (ids xs) (holds [] s.sent)
  unfolding delete_surfaces forget_all
  holds-delete [] s ok = refl
  holds-delete (x ∷ xs) s ok =
      holds-delete xs (call answers (delete_surface x.id) s) ok
      ∙ ap (forget_all (ids xs)) (rw (holds-call (delete_surface x.id) s, ok s.sent x.id))

  -- Deleting what the stream lists leaves the client with nothing.
  cleared-IsShown :
      (s : VideoStream)
      → DeletesAreAccepted
      → IsShown s
      → holds [] (delete_surfaces answers s.surfaces s).sent ≡ []
  cleared-IsShown s ok v =
      holds-delete s.surfaces s ok
      ∙ rw v (forget_all-nil (ids s.surfaces) (ids s.surfaces) (All-within (ids s.surfaces)))

  -- A call that neither creates nor deletes.
  abbrev IsQuiet : Pdu → Type 0
  IsQuiet pdu = (held : List ℕ) → tell true pdu held ≡ held

  quiet-snoc :
      (accepted : Bool) (pdu : Pdu) (xs : List Sent)
      → IsQuiet pdu
      → holds [] (xs ++ record { pdu = pdu; accepted = accepted } ∷ []) ≡ holds [] xs
  quiet-snoc true pdu xs quiet = holds-snoc [] xs (record { pdu = pdu; accepted = true }) ∙ quiet _
  quiet-snoc false pdu xs quiet = holds-snoc [] xs (record { pdu = pdu; accepted = false })

  call-IsShown :
      (pdu : Pdu) (s : VideoStream) → IsQuiet pdu → IsShown s → IsShown (call answers pdu s)
  call-IsShown pdu s quiet v = quiet-snoc (answers s.sent pdu) pdu s.sent quiet ∙ v

  create_one-IsShown :
      (size : Size) (position : Point) (s : VideoStream)
      → IsShown s
      → IsShown (create_one answers size position s).0
  unfolding create_one
  create_one-IsShown size position s v =
      elim (Bool-cases (answers s.sent (create_surface s.next_surface_id size))) [
        | inl e ↦ rw e (
            quiet-snoc _ (map_surface_to_output s.next_surface_id position)
              (s.sent ++ created true ∷ []) (λ held. refl)
            ∙ holds-snoc [] s.sent (created true)
            ∙ rw v (sym (map-append _ s.surfaces (surface ∷ []))))
        | inr e ↦ rw e (holds-snoc [] s.sent (created false) ∙ v)
      ]
    where
      surface : Surface
      surface = record { id = s.next_surface_id; size = size }

      created : Bool → Sent
      created accepted = record { pdu = create_surface s.next_surface_id size; accepted = accepted }

  create_surfaces-IsShown :
      (ts : List (Size × Point)) (s : VideoStream)
      → IsShown s
      → IsShown (create_surfaces answers ts s).0
  unfolding create_surfaces
  create_surfaces-IsShown [] s v = v
  create_surfaces-IsShown ((size, position) ∷ ts) s v =
      let v' = create_one-IsShown size position s v in
      elim (Bool-cases (create_one answers size position s).1) [
        | inl e ↦
            rw (e, create_surfaces)
              (create_surfaces-IsShown ts (create_one answers size position s).0 v')
        | inr e ↦ rw (e, create_surfaces) v'
      ]

module _ (answers : List Sent → Pdu → Bool) (rects : RectOperations) where
  rebuild-IsShown :
      (layout : List DisplayMonitor) (index : Option ℕ) (s : VideoStream)
      → DeletesAreAccepted answers
      → IsShown s
      → IsShown (rebuild answers rects layout index s).0
  unfolding rebuild
  rebuild-IsShown layout index s ok v = ground (
    arith,
    reset,
    create_surfaces-IsShown answers (targets rects layout index) (call answers pdu emptied) reset,
  )
    where
      emptied : VideoStream
      emptied = cleared answers rects s

      pdu : Pdu
      pdu = reset_pdu answers rects layout

      reset : IsShown (call answers pdu emptied)
      reset = quiet-snoc answers _ pdu emptied.sent (λ held. refl) ∙ cleared-IsShown answers s ok v

  perform_reset-IsShown :
      (frame : VideoFrame) (s : VideoStream)
      → DeletesAreAccepted answers
      → IsShown s
      → IsShown (perform_reset answers rects frame s).0
  unfolding perform_reset
  perform_reset-IsShown frame s ok v = ground (
    arith,
    rebuild-IsShown (effective_layout s.monitor_layout frame.size) (output frame.output_index) s ok
        v,
  )

  submit-IsShown :
      (time : ℕ) (frame : VideoFrame) (surface : Surface) (s : VideoStream)
      → IsShown s
      → IsShown (submit answers rects time frame surface s)
  unfolding submit
  submit-IsShown time frame surface s v =
      call-IsShown answers (end_frame s.frame_id) drawn (λ held. refl)
        (call-IsShown answers (surface_command surface.id frame.size frame.payload) started
          (λ held. refl)
          (call-IsShown answers (start_frame s.frame_id time) counted (λ held. refl) v))
    where
      counted : VideoStream
      counted = record s {
        frame_id = (s.frame_id + 1) % 2 ^ 32;
        encoded_frames = s.encoded_frames + 1;
        pending_frames = s.frame_id ∷ acknowledge s.frame_id s.pending_frames;
      }

      started : VideoStream
      started = call answers (start_frame s.frame_id time) counted

      drawn : VideoStream
      drawn = call answers (surface_command surface.id frame.size frame.payload) started

  prepare-IsShown :
      (frame : VideoFrame) (s : VideoStream)
      → DeletesAreAccepted answers
      → IsShown s
      → IsShown (prepare answers rects frame s).0
  unfolding prepare
  prepare-IsShown frame s ok v = ground (arith, perform_reset-IsShown frame s ok v)

  deliver-IsShown :
      (time : ℕ) (frame : VideoFrame) (s : VideoStream) (network : NetworkDetection)
      → IsShown s
      → IsShown (deliver answers rects time frame s network).0
  unfolding deliver
  deliver-IsShown time frame s network v =
      elim (Option-cases (surface_for answers rects frame s.surfaces)) [
        | inl e ↦ rw (e, deliver) v
        | inr (surface, e) ↦ rw (e, deliver) (submit-IsShown time frame surface s v)
      ]

  -- If FreeRDP accepts every deletion, the surfaces that the client holds stay exactly those that
  -- the stream lists, in order, whatever else FreeRDP refuses while the frame is sent.
  pub send_frame-IsShown :
      (time : ℕ) (frame : VideoFrame) (s : VideoStream) (network : NetworkDetection)
      → DeletesAreAccepted answers
      → IsShown s
      → IsShown (send_frame answers rects time frame s network).0
  unfolding send_frame
  send_frame-IsShown time frame s network ok v = ground (
    arith,
    prepare-IsShown frame s ok v,
    deliver-IsShown time frame (prepare answers rects frame s).0 network
        (prepare-IsShown frame s ok v),
  )
