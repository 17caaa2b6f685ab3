-- ===== src/DisplayControl/Decoder.antt =====
-- decodeMonitorLayout of src/DisplayControl.cpp as a whole: what it accepts and what a refusal leaves.
use kheadless_krdp.Prelude.{
  ℕ, ◌≤◌, ◌≡◌, ◌↔◌, refl, Bool, Option, none, some, List, [], map, arith, Result, ok, ◌>>=◌,
}
use kheadless_krdp.Geometry.{Rect}
use kheadless_krdp.Monitor.{DisplayMonitor}
use kheadless_krdp.DisplayControl.{
  DispConstants, WireMonitor, LayoutPdu, Error, decoded_monitor, start, records,
  maximum_monitor_count, decode_array, stored, read_monitors, check_layout, decode,
  decode_monitor_layout,
}
use kheadless_krdp.DisplayControl.Spec.{IsValidLayout}
use kheadless_krdp.DisplayControl.Accepts.{list_iff}

module _ (c : DispConstants) (intersects : Rect → Rect → Bool) where
  -- The wire monitors that the header lets the decoder read, and nothing for a header it refuses.
  abbrev pub Announces : LayoutPdu → List WireMonitor → Type 0
  Announces pdu ws =
      (pdu.monitor_layout_size ≡ c.layout_size)
      × (1 ≤ pdu.num_monitors)
      × (pdu.num_monitors ≤ maximum_monitor_count)
      × ((monitors : ℕ → WireMonitor) × (pdu.monitors ≡ some monitors)
          × (ws ≡ records pdu.num_monitors 0 monitors))

  decode_array_iff :
      (pdu : LayoutPdu) (monitors : ℕ → WireMonitor) (ms : List DisplayMonitor)
      → (decode_array c intersects pdu (some monitors) ≡ ok ms) ↔ (
          (1 ≤ pdu.num_monitors)
          × (pdu.num_monitors ≤ maximum_monitor_count)
          × ((read_monitors c intersects 0 (records pdu.num_monitors 0 monitors) start
                >>= check_layout)
              ≡ ok ms))
  unfolding decode_array
  decode_array_iff pdu monitors ms = ground arith

  stored_iff :
      (r : Result Error (List DisplayMonitor)) (ms : List DisplayMonitor)
      → (stored r ≡ (some ms, none)) ↔ (r ≡ ok ms)
  unfolding stored
  stored_iff r ms = ground arith

  decode_iff :
      (pdu : LayoutPdu) (ms : List DisplayMonitor)
      → (decode c intersects pdu ≡ ok ms) ↔ (
          (pdu.monitor_layout_size ≡ c.layout_size)
          × (decode_array c intersects pdu pdu.monitors ≡ ok ms))
  unfolding decode
  decode_iff pdu ms = ground arith

  decode→valid :
      (pdu : LayoutPdu) (array : Option (ℕ → WireMonitor)) (ms : List DisplayMonitor)
      → pdu.monitors ≡ array
      → pdu.monitor_layout_size ≡ c.layout_size
      → decode_array c intersects pdu array ≡ ok ms
      → (ws : List WireMonitor) × Announces pdu ws
        × IsValidLayout c intersects ws
        × (ms ≡ map (decoded_monitor c) ws)
  unfolding decode_array
  decode→valid pdu none ms e size h = absurd (cc)
  decode→valid pdu (some monitors) ms e size h =
      let (one, sixteen, run) = (decode_array_iff pdu monitors ms).0 h in
      let (valid, result) =
        (list_iff c intersects (records pdu.num_monitors 0 monitors) ms).0 run in
      (
        records pdu.num_monitors 0 monitors,
        (size, one, sixteen, (monitors, e, refl)),
        valid,
        result,
      )

  -- Behind a non-null destination the decoder accepts exactly the PDUs whose header is in order and
  -- whose wire monitors form a valid layout, and it then stores the decoded wire monitors in order.
  pub decode_monitor_layout_iff :
      (pdu : LayoutPdu) (old ms : List DisplayMonitor)
      → (decode_monitor_layout c intersects pdu (some old) ≡ (some ms, none)) ↔ (
          (ws : List WireMonitor) × Announces pdu ws
          × IsValidLayout c intersects ws
          × (ms ≡ map (decoded_monitor c) ws))
  unfolding decode_monitor_layout decode_array
  decode_monitor_layout_iff pdu old ms = (forth, back)
    where
      forth :
          decode_monitor_layout c intersects pdu (some old) ≡ (some ms, none)
          → (ws : List WireMonitor) × Announces pdu ws
            × IsValidLayout c intersects ws
            × (ms ≡ map (decoded_monitor c) ws)
      forth h =
          let (size, run) = (decode_iff pdu ms).0 ((stored_iff (decode c intersects pdu) ms).0 h) in
          decode→valid pdu pdu.monitors ms refl size run

      back :
          ((ws : List WireMonitor) × Announces pdu ws
            × IsValidLayout c intersects ws
            × (ms ≡ map (decoded_monitor c) ws))
          → decode_monitor_layout c intersects pdu (some old) ≡ (some ms, none)
      back (ws, (size, one, sixteen, (monitors, at, e)), valid, result) =
          let run = (list_iff c intersects _ ms).1 (rw e at valid, rw e at result) in
          let array = (decode_array_iff pdu monitors ms).1 (one, sixteen, run) in
          (stored_iff (decode c intersects pdu) ms).1 ((decode_iff pdu ms).1 (size, rw at array))

  -- Every refusal of a non-null destination leaves it empty, whatever it held.
  pub decode_monitor_layout_refusal :
      (pdu : LayoutPdu) (old : List DisplayMonitor) (e : Error)
      → (decode_monitor_layout c intersects pdu (some old)).1 ≡ some e
      → (decode_monitor_layout c intersects pdu (some old)).0 ≡ some []
  unfolding decode_monitor_layout stored
  decode_monitor_layout_refusal pdu old e h = ground arith
