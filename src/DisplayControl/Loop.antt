-- ===== src/DisplayControl/Loop.antt =====
-- What the loop over the wire monitors accepts, and what it leaves in its variables.
use kheadless_krdp.Prelude.{
  ℕ, suc, ◌≡◌, ◌↔◌, refl, Bool, false, List, [], ◌∷◌, arith, ok, All, >>=-eq-ok,
}
use kheadless_krdp.Prelude.Int.{pos, eq_of_parts}
use kheadless_krdp.Geometry.{Rect}
use kheadless_krdp.Monitor.{DisplayMonitor, monitor_rect}
use kheadless_krdp.DisplayControl.{
  DispConstants, WireMonitor, Decoding, wire_rect, unsupported_size, off_origin, overlaps, extend,
  read_monitor, read_monitors,
}
use kheadless_krdp.DisplayControl.Spec.{IsSupported, IsAtOrigin}

module _ (c : DispConstants) where
  -- The variables after a successful loop.
  abbrev pub extend_all : Decoding → List WireMonitor → Decoding
  extend_all a [] = a
  extend_all a (w ∷ ws) = extend_all (extend c a w) ws

  pub unsupported_size_iff : (w : WireMonitor) → (unsupported_size c w ≡ false) ↔ IsSupported c w
  unfolding unsupported_size
  unsupported_size_iff w = ground arith

  pub off_origin_iff : (w : WireMonitor) → (off_origin c w ≡ false) ↔ IsAtOrigin c w
  unfolding off_origin
  off_origin_iff w = ground (arith, eq_of_parts w.left (pos 0), eq_of_parts w.top (pos 0))

module _ (c : DispConstants) (intersects : Rect → Rect → Bool) where
  abbrev pub IsClear : WireMonitor → List DisplayMonitor → Type 0
  IsClear w = All (λ other. intersects (wire_rect w) (monitor_rect other) ≡ false)

  overlaps_iff :
      (w : WireMonitor) (ms : List DisplayMonitor)
      → (overlaps c intersects w ms ≡ false) ↔ IsClear w ms
  unfolding overlaps
  overlaps_iff w [] = (λ _. tt, λ _. refl)
  overlaps_iff w (m ∷ ms) = ground (arith, overlaps_iff w ms)

  -- The checks of each pass, against the variables as they are then.
  abbrev pub Reads : Decoding → List WireMonitor → Type 0
  Reads a [] = Unit
  Reads a (w ∷ ws) =
      IsSupported c w × IsAtOrigin c w × IsClear w a.decoded × Reads (extend c a w) ws

  read_monitor-eq-ok :
      (i : ℕ) (w : WireMonitor) (a : Decoding) {b : Decoding}
      → read_monitor c intersects i w a ≡ ok b
      → IsSupported c w × IsAtOrigin c w × IsClear w a.decoded × (b ≡ extend c a w)
  unfolding read_monitor
  read_monitor-eq-ok i w a h =
      ground (arith, unsupported_size_iff c w, off_origin_iff c w, overlaps_iff w a.decoded)

  read_monitor_ok :
      (i : ℕ) (w : WireMonitor) (a : Decoding)
      → IsSupported c w
      → IsAtOrigin c w
      → IsClear w a.decoded
      → read_monitor c intersects i w a ≡ ok (extend c a w)
  unfolding read_monitor
  read_monitor_ok i w a s o d =
      rw ((unsupported_size_iff c w).1 s, (off_origin_iff c w).1 o, (overlaps_iff w a.decoded).1 d)

  read_monitors-eq-ok :
      (i : ℕ) (ws : List WireMonitor) (a : Decoding) {b : Decoding}
      → read_monitors c intersects i ws a ≡ ok b
      → Reads a ws × (b ≡ extend_all c a ws)
  unfolding read_monitors
  read_monitors-eq-ok i [] a h = (tt, cc)
  read_monitors-eq-ok i (w ∷ ws) a {b} h =
      let (a', first, rest) = >>=-eq-ok (read_monitor c intersects i w a) _ h in
      let (s, o, d, e) = read_monitor-eq-ok i w a first in
      let (reads, final) = read_monitors-eq-ok (suc i) ws (extend c a w) (rw e at rest) in
      ((s, o, d, reads), final)

  read_monitors_ok :
      (i : ℕ) (ws : List WireMonitor) (a : Decoding)
      → Reads a ws
      → read_monitors c intersects i ws a ≡ ok (extend_all c a ws)
  unfolding read_monitors
  read_monitors_ok i [] a h = refl
  read_monitors_ok i (w ∷ ws) a h =
      rw (read_monitor_ok i w a h.0 h.1 h.2) (read_monitors_ok (suc i) ws (extend c a w) h.3)

  -- The loop ends normally exactly when every pass finds nothing to refuse.
  pub read_monitors_iff :
      (i : ℕ) (ws : List WireMonitor) (a b : Decoding)
      → (read_monitors c intersects i ws a ≡ ok b) ↔ (Reads a ws × (b ≡ extend_all c a ws))
  read_monitors_iff i ws a b =
      (read_monitors-eq-ok i ws a, λ h. rw h.1 (read_monitors_ok i ws a h.0))
