-- ===== src/DisplayControl/Accepts.antt =====
-- The decoder accepts exactly the valid layouts, and stores what it says it stores.
use kheadless_krdp.Prelude.{
  ◌<◌, ◌≡◌, ◌↔◌, ◌∙◌, refl, sym, Bool, false, List, [], ◌∷◌, ◌++◌, map, arith, ok, All, length,
  length-map, ◌>>=◌, >>=-eq-ok,
}
use kheadless_krdp.Geometry.{Rect}
use kheadless_krdp.Monitor.{DisplayMonitor}
use kheadless_krdp.DisplayControl.{
  DispConstants, WireMonitor, Decoding, wire_rect, decoded_monitor, extend, start, read_monitors,
  check_layout, check_adjacent, desktop_too_large_test,
}
use kheadless_krdp.DisplayControl.Spec.{
  IsSupported, IsAtOrigin, AreSeparate, IsValidLayout, IsConnected, Fits, primaries,
}
use kheadless_krdp.DisplayControl.Loop.{extend_all, IsClear, Reads, read_monitors_iff}
use kheadless_krdp.DisplayControl.Extent.{extent_iff}
use kheadless_krdp.DisplayControl.Neighbours.{check_adjacent_iff}
use kheadless_krdp.DisplayControl.Variables.{decoded-extend_all, primary_count-extend_all}

check_layout_iff :
    (a : Decoding) (ms : List DisplayMonitor)
    → (check_layout a ≡ ok ms) ↔ (
        (a.primary_count ≡ 1)
        × (desktop_too_large_test a ≡ false)
        × (1 < length a.decoded → check_adjacent a.decoded 0 a.decoded ≡ ok tt)
        × (ms ≡ a.decoded))
unfolding check_layout
check_layout_iff a ms = ground arith

module _ (c : DispConstants) (intersects : Rect → Rect → Bool) where
  IsClear-push :
      (w v : WireMonitor) (ms : List DisplayMonitor)
      → IsClear c intersects w (ms ++ decoded_monitor c v ∷ [])
        ↔ (IsClear c intersects w ms × (intersects (wire_rect w) (wire_rect v) ≡ false))
  unfolding decoded_monitor
  IsClear-push w v [] = ground arith
  IsClear-push w v (m ∷ ms) = ground (arith, IsClear-push w v ms)

  All-IsClear_push :
      (v : WireMonitor) (ms : List DisplayMonitor) (ws : List WireMonitor)
      → All (λ w. IsClear c intersects w (ms ++ decoded_monitor c v ∷ [])) ws ↔ (
          All (λ w. IsClear c intersects w ms) ws
          × All (λ w. intersects (wire_rect w) (wire_rect v) ≡ false) ws)
  All-IsClear_push v ms [] = ground arith
  All-IsClear_push v ms (w ∷ ws) = ground (arith, IsClear-push w v ms, All-IsClear_push v ms ws)

  abbrev Apart : Decoding → List WireMonitor → Type 0
  Apart a ws =
      All (IsSupported c) ws
      × All (IsAtOrigin c) ws
      × All (λ w. IsClear c intersects w a.decoded) ws
      × AreSeparate intersects ws

  -- The checks against the growing list are the checks of all pairs.
  reads→apart : (a : Decoding) (ws : List WireMonitor) → Reads c intersects a ws → Apart a ws
  unfolding extend
  reads→apart a [] h = (tt, tt, tt, tt)
  reads→apart a (w ∷ ws) h =
      let (s, o, d, p) = reads→apart (extend c a w) ws h.3 in
      let (d', q) = (All-IsClear_push w a.decoded ws).0 d in ((h.0, s), (h.1, o), (h.2, d'), (q, p))

  apart→reads : (a : Decoding) (ws : List WireMonitor) → Apart a ws → Reads c intersects a ws
  unfolding extend
  apart→reads a [] h = tt
  apart→reads a (w ∷ ws) ((s, ss), (o, os), (d, ds), (q, ps)) = (
    s,
    o,
    d,
    apart→reads (extend c a w) ws (ss, os, (All-IsClear_push w a.decoded ws).1 (ds, q), ps),
  )

  Reads-iff :
      (ws : List WireMonitor)
      → Reads c intersects start ws
        ↔ (All (IsSupported c) ws × All (IsAtOrigin c) ws × AreSeparate intersects ws)
  unfolding start
  Reads-iff ws = (λ h. let (s, o, d, p) = reads→apart start ws h in (s, o, p), back)
    where
      clear : (vs : List WireMonitor) → All (λ w. IsClear c intersects w []) vs
      clear [] = tt
      clear (v ∷ vs) = (tt, clear vs)

      back :
          All (IsSupported c) ws × All (IsAtOrigin c) ws × AreSeparate intersects ws
          → Reads c intersects start ws
      back (s, o, p) = apart→reads start ws (s, o, clear ws, p)

  final_decoded :
      (ws : List WireMonitor) → (extend_all c start ws).decoded ≡ map (decoded_monitor c) ws
  unfolding start
  final_decoded ws = decoded-extend_all c start ws

  final_primaries : (ws : List WireMonitor) → (extend_all c start ws).primary_count ≡ primaries c ws
  unfolding start
  final_primaries ws = omega (arith, primary_count-extend_all c start ws)

  check_iff :
      (ws : List WireMonitor) (ms : List DisplayMonitor)
      → All (IsAtOrigin c) ws
      → (check_layout (extend_all c start ws) ≡ ok ms) ↔ (
          (primaries c ws ≡ 1)
          × Fits ws
          × (1 < length ws → IsConnected c ws)
          × (ms ≡ map (decoded_monitor c) ws))
  check_iff ws ms o = (forth, back)
    where
      after : Decoding
      after = extend_all c start ws

      joined : (check_adjacent after.decoded 0 after.decoded ≡ ok tt) ↔ IsConnected c ws
      joined = rw (final_decoded ws) (check_adjacent_iff c ws)

      count : length after.decoded ≡ length ws
      count = rw (final_decoded ws) (length-map ws (decoded_monitor c))

      forth :
          check_layout after ≡ ok ms
          → (primaries c ws ≡ 1)
            × Fits ws
            × (1 < length ws → IsConnected c ws)
            × (ms ≡ map (decoded_monitor c) ws)
      forth h =
          let (one, test, adj, e) = (check_layout_iff after ms).0 h in
          let one' : primaries c ws ≡ 1 = omega (arith, final_primaries ws) in
          (
            one',
            (extent_iff c ws o one').0 test,
            (λ l. joined.0 (adj (omega (arith, count)))),
            e ∙ final_decoded ws,
          )

      back :
          (primaries c ws ≡ 1)
            × Fits ws
            × (1 < length ws → IsConnected c ws)
            × (ms ≡ map (decoded_monitor c) ws)
          → check_layout after ≡ ok ms
      back (one, fits, connected, e) = (check_layout_iff after ms).1 (
        omega (arith, final_primaries ws),
        (extent_iff c ws o one).1 fits,
        (λ l. joined.1 (connected (omega (arith, count)))),
        e ∙ sym (final_decoded ws),
      )

  -- On a list of wire monitors the checks pass exactly when the layout is valid.
  pub list_iff :
      (ws : List WireMonitor) (ms : List DisplayMonitor)
      → ((read_monitors c intersects 0 ws start >>= check_layout) ≡ ok ms)
        ↔ (IsValidLayout c intersects ws × (ms ≡ map (decoded_monitor c) ws))
  list_iff ws ms = (forth, back)
    where
      forth :
          (read_monitors c intersects 0 ws start >>= check_layout) ≡ ok ms
          → IsValidLayout c intersects ws × (ms ≡ map (decoded_monitor c) ws)
      forth h =
          let (a, loop, checks) =
            >>=-eq-ok (read_monitors c intersects 0 ws start) check_layout h in
          let (reads, e) = (read_monitors_iff c intersects 0 ws start a).0 loop in
          let (s, o, p) = (Reads-iff ws).0 reads in
          let (one, fits, connected, e') = (check_iff ws ms o).0 (rw e at checks) in
          (
            record {
              supported = s;
              at_origin = o;
              separate = p;
              one_primary = one;
              fits = fits;
              connected = connected;
            },
            e',
          )

      back :
          IsValidLayout c intersects ws × (ms ≡ map (decoded_monitor c) ws)
          → (read_monitors c intersects 0 ws start >>= check_layout) ≡ ok ms
      back (v, e) =
          let reads = (Reads-iff ws).1 (v.supported, v.at_origin, v.separate) in
          rw ((read_monitors_iff c intersects 0 ws start _).1 (reads, refl))
            ((check_iff ws ms v.at_origin).1 (v.one_primary, v.fits, v.connected, e))
