-- ===== src/DisplayControl/Requests/Pending.antt =====
-- Which layouts reach the video stream of src/VideoStream.cpp through src/DisplayControl.cpp.
use kheadless_krdp.Prelude.{
  ◌≡◌, ◌↔◌, ◌⊎◌, inl, inr, refl, Bool, true, false, Option, none, some, List, [], ◌∷◌, map, ok,
  Bool-cases, arith, All, All-append,
}
use kheadless_krdp.Geometry.{Rect}
use kheadless_krdp.Monitor.{DisplayMonitor, eq_layout, eq_layout→eq, eq_layout_refl}
use kheadless_krdp.DisplayControl.{
  DispConstants, WireMonitor, LayoutPdu, Error, decoded_monitor, decode_monitor_layout,
}
use kheadless_krdp.DisplayControl.Spec.{IsValidLayout}
use kheadless_krdp.DisplayControl.Decoder.{decode_monitor_layout_iff}
use kheadless_krdp.DisplayControl.Requests.{
  DisplayRequests, MonitorSettings, initial, request_monitor_layout,
  reject_requested_monitor_layout, accept_from, accept_requested_monitor_layout, receive_decoded,
  receive_monitor_layout, request_initial_monitor_layout, initial_pdu, initialize, close,
}
use kheadless_krdp.VideoStream.{VideoStream, set_monitor_layout}
use kheadless_krdp.VideoStream.Updates.{set_monitor_layout_lem}

accept_from_iff :
    (pending : Option (List DisplayMonitor)) (ms : List DisplayMonitor) (s t : DisplayRequests)
    (video w : VideoStream)
    → (accept_from pending ms s video ≡ ok (t, w)) ↔ (
        (pending ≡ some ms)
        × (t ≡ record s { requested_monitor_layout = none })
        × (w ≡ set_monitor_layout ms video))
unfolding accept_from
accept_from_iff none ms s t video w = (λ h. absurd (cc), λ h. absurd (cc (h.0)))
accept_from_iff (some requested) ms s t video w = (forth, back)
  where
    forth :
        accept_from (some requested) ms s video ≡ ok (t, w)
        → (some requested ≡ some ms)
          × (t ≡ record s { requested_monitor_layout = none })
          × (w ≡ set_monitor_layout ms video)
    forth h = elim (Bool-cases (eq_layout requested ms)) [
      | inl e ↦
          let k = rw (e, accept_from) at h in let same = eq_layout→eq requested ms e in (cc, cc, cc)
      | inr e ↦ let k = rw (e, accept_from) at h in absurd (cc)
    ]

    back :
        (some requested ≡ some ms)
          × (t ≡ record s { requested_monitor_layout = none })
          × (w ≡ set_monitor_layout ms video)
        → accept_from (some requested) ms s video ≡ ok (t, w)
    back (e, et, ew) = let same : requested ≡ ms = cc in rw (same, eq_layout_refl ms, et, ew) refl

-- A layout is accepted exactly when it is the pending one. To accept it uses the request up and makes
-- the layout the video stream's.
pub accept_requested_monitor_layout_iff :
    (ms : List DisplayMonitor) (s t : DisplayRequests) (video w : VideoStream)
    → (accept_requested_monitor_layout ms s video ≡ ok (t, w)) ↔ (
        (s.requested_monitor_layout ≡ some ms)
        × (t ≡ record s { requested_monitor_layout = none })
        × (w ≡ set_monitor_layout ms video))
unfolding accept_requested_monitor_layout
accept_requested_monitor_layout_iff ms s t video w =
    accept_from_iff s.requested_monitor_layout ms s t video w

module _ (c : DispConstants) (intersects : Rect → Rect → Bool) where
  -- A layout that was decoded from a valid wire layout.
  abbrev pub IsDecoded : List DisplayMonitor → Type 0
  IsDecoded ms =
      (ws : List WireMonitor) × IsValidLayout c intersects ws × (ms ≡ map (decoded_monitor c) ws)

  -- The calls of DisplayControl, with the video stream that it hands layouts to.
  pub data Reach : DisplayRequests → VideoStream → Type 0 where
    started : (video : VideoStream) → video.monitor_layout ≡ [] → Reach initial video
    initialized :
        {s : DisplayRequests} {video : VideoStream} (created opened advertised : Bool)
        (settings : MonitorSettings)
        → Reach s video
        → Reach (initialize c intersects created opened advertised settings s).0 video
    received :
        {s : DisplayRequests} {video : VideoStream} (has_control : Bool) (pdu : Option LayoutPdu)
        → Reach s video
        → Reach (receive_monitor_layout c intersects has_control pdu s).0 video
    rejected :
        {s : DisplayRequests} {video : VideoStream}
        → Reach s video
        → Reach (reject_requested_monitor_layout s) video
    accepted :
        {s t : DisplayRequests} {video w : VideoStream} (ms : List DisplayMonitor)
        → accept_requested_monitor_layout ms s video ≡ ok (t, w)
        → Reach s video
        → Reach t w
    closed : {s : DisplayRequests} {video : VideoStream} → Reach s video → Reach (close s) video

  abbrev pub IsPendingDecoded : Option (List DisplayMonitor) → Type 0
  IsPendingDecoded none = Unit
  IsPendingDecoded (some ms) = IsDecoded ms

  abbrev pub AreDecoded : DisplayRequests → Type 0
  AreDecoded s = IsPendingDecoded s.requested_monitor_layout × All IsDecoded s.announced

  outcome-AreDecoded :
      (outcome : Option (List DisplayMonitor) × Option Error) (s : DisplayRequests)
      → ((ms : List DisplayMonitor) → outcome ≡ (some ms, none) → IsDecoded ms)
      → AreDecoded s
      → AreDecoded (receive_decoded c intersects outcome s).0
  unfolding request_monitor_layout
  outcome-AreDecoded (none, e) s decoded v = v
  outcome-AreDecoded (some ms, some e) s decoded v = v
  outcome-AreDecoded (some ms, none) s decoded v =
      (decoded ms refl, All-append IsDecoded s.announced (ms ∷ []) v.1 (decoded ms refl, tt))

  receive_decoded-AreDecoded :
      (pdu : LayoutPdu) (s : DisplayRequests)
      → AreDecoded s
      → AreDecoded
          (receive_decoded c intersects (decode_monitor_layout c intersects pdu (some [])) s).0
  receive_decoded-AreDecoded pdu s v =
      outcome-AreDecoded (decode_monitor_layout c intersects pdu (some [])) s
        (λ ms e.
          let (ws, announces, valid, result) =
            (decode_monitor_layout_iff c intersects pdu [] ms).0 e in
          (ws, valid, result))
        v

  initialize-AreDecoded :
      (created opened advertised : Bool) (settings : MonitorSettings) (s : DisplayRequests)
      → AreDecoded s
      → AreDecoded (initialize c intersects created opened advertised settings s).0
  unfolding initialize close request_initial_monitor_layout
  initialize-AreDecoded created opened advertised settings s v = ground (
    arith,
    receive_decoded-AreDecoded (initial_pdu c intersects settings) (record s { has_context = true })
        v,
  )

  -- Whatever the client sends and the application answers, in whatever order: every layout that is announced to the
  -- application, the pending one, and the one that the video stream gets was decoded from a valid wire layout.
  pub Reach-AreDecoded :
      {s : DisplayRequests} {video : VideoStream}
      → Reach s video
      → AreDecoded s × ((video.monitor_layout ≡ []) ⊎ IsDecoded video.monitor_layout)
  unfolding initialize receive_monitor_layout reject_requested_monitor_layout close
  Reach-AreDecoded (started video e) = ((tt, tt), inl e)
  Reach-AreDecoded (initialized {s} {video} created opened advertised settings r) =
      let (v, layout) = Reach-AreDecoded r in
      (initialize-AreDecoded created opened advertised settings s v, layout)
  Reach-AreDecoded (received true (some pdu) r) =
      let (v, layout) = Reach-AreDecoded r in (receive_decoded-AreDecoded pdu _ v, layout)
  Reach-AreDecoded (received false pdu r) = Reach-AreDecoded r
  Reach-AreDecoded (received true none r) = Reach-AreDecoded r
  Reach-AreDecoded (rejected r) =
      let ((_, announced), layout) = Reach-AreDecoded r in ((tt, announced), layout)
  Reach-AreDecoded (accepted {s} {t} {video} {w} ms e r) =
      let ((pending, announced), layout) = Reach-AreDecoded r in
      let (p, et, ew) = (accept_requested_monitor_layout_iff ms s t video w).0 e in
      rw (et, ew, (set_monitor_layout_lem ms video).0) ((tt, announced), inr (rw p at pending))
  Reach-AreDecoded (closed r) = Reach-AreDecoded r
