-- ===== src/NetworkDetection/Average.antt =====
-- The round trip statistics that updateAverageRtt leaves.
use native.Mathlib.Nat.{le-div_iff_mul-le, div-le_of_le-mul}
use kheadless_krdp.Prelude.{
  ℕ, ◌+◌, ◌*◌, max, ◌≤◌, ◌<◌, ◌≡◌, ap, false, true, ◌≢◌, refl, sym, subst, inl, inr, some, List, [],
  ◌∷◌, ltb, if◌then◌else◌, arith, All, All-map, length,
}
use kheadless_krdp.NetworkDetection.{
  NetworkDetection, RttMeasurement, rtt_average_interval, duration_max, recent, least_rtt,
  total_rtt, summarise, publish, average_over, update_average_rtt,
}
use kheadless_krdp.NetworkDetection.Sequence.{publish-cases}

-- Of a list of measurements, those that were taken at most 500 ms before, each once and in their order. The clock counts
-- nanoseconds.
pub data KeepsRecent (now : ℕ) : List RttMeasurement → List RttMeasurement → Type 0 where
  ends : KeepsRecent now [] []
  keeps :
      {m : RttMeasurement} {ms ks : List RttMeasurement}
      → now ≤ m.measurement_time + 500000000
      → KeepsRecent now ms ks
      → KeepsRecent now (m ∷ ms) (m ∷ ks)
  drops :
      {m : RttMeasurement} {ms ks : List RttMeasurement}
      → m.measurement_time + 500000000 < now
      → KeepsRecent now ms ks
      → KeepsRecent now (m ∷ ms) ks

KeepsRecent-recent :
    {now : ℕ} {ms ks : List RttMeasurement} → KeepsRecent now ms ks → recent now ms ≡ ks
unfolding recent
KeepsRecent-recent ends = refl
KeepsRecent-recent {now} (keeps {m} {ms} {ks} h k) =
    let stays : ltb (m.measurement_time + rtt_average_interval) now ≡ false = ground arith in
    rw (recent, stays) (ap (λ rest. m ∷ rest) (KeepsRecent-recent k))
KeepsRecent-recent {now} (drops {m} {ms} {ks} h k) =
    let goes : ltb (m.measurement_time + rtt_average_interval) now ≡ true = ground arith in
    rw (recent, goes) (KeepsRecent-recent k)

least_rtt-le :
    (least : ℕ) (ms : List RttMeasurement)
    → (least_rtt least ms ≤ least) × All (λ m. least_rtt least ms ≤ m.round_trip_time) ms
unfolding least_rtt
least_rtt-le least [] = (omega arith, tt)
least_rtt-le least (m ∷ ms) =
    ground
      (arith, least_rtt-le (if ltb m.round_trip_time least then m.round_trip_time else least) ms)

total_rtt_bounds :
    (total low high : ℕ) (ms : List RttMeasurement)
    → All (λ m. low ≤ m.round_trip_time) ms
    → All (λ m. m.round_trip_time ≤ high) ms
    → (total + low * length ms ≤ total_rtt total ms)
      × (total_rtt total ms ≤ total + high * length ms)
unfolding total_rtt
total_rtt_bounds total low high [] lo hi = omega arith
total_rtt_bounds total low high (m ∷ ms) lo hi =
    omega (arith, total_rtt_bounds (total + m.round_trip_time) low high ms lo.1 hi.1)

abbrev pub greatest : List RttMeasurement → ℕ
greatest [] = 0
greatest (m ∷ ms) = max m.round_trip_time (greatest ms)

greatest-le :
    (high : ℕ) (ms : List RttMeasurement)
    → greatest ms ≤ high
    → All (λ m. m.round_trip_time ≤ high) ms
greatest-le high [] h = tt
greatest-le high (m ∷ ms) h = (omega arith, greatest-le high ms (omega arith))

-- What the statistics say of the measurements that they are taken from.
pub record Summarises (ms : List RttMeasurement) (d : NetworkDetection) : Type 0 where
  pub kept : d.rtt_measurements ≡ ms
  pub minimum_below : All (λ m. d.minimum_rtt ≤ m.round_trip_time) ms
  pub minimum_average : d.minimum_rtt ≤ d.average_rtt
  pub average_below : d.average_rtt ≤ greatest ms

summarise-Summarises :
    (ms : List RttMeasurement) (d : NetworkDetection)
    → All (λ m. m.round_trip_time ≤ duration_max) ms
    → ms ≢ []
    → Summarises ms (summarise ms d)
summarise-Summarises [] d cap ne = absurd (ne refl)
summarise-Summarises (m ∷ ms) d cap ne = record {
  kept = refl;
  minimum_below = lows;
  minimum_average = (le-div_iff_mul-le (omega arith)).1 (omega (arith, low_total));
  average_below =
      div-le_of_le-mul (length (m ∷ ms))
        (high_total (greatest (m ∷ ms)) (greatest-le (greatest (m ∷ ms)) (m ∷ ms) (omega arith)));
}
  where
    lows : All (λ n. least_rtt duration_max (m ∷ ms) ≤ n.round_trip_time) (m ∷ ms)
    lows = (least_rtt-le duration_max (m ∷ ms)).1

    low_total : least_rtt duration_max (m ∷ ms) * length (m ∷ ms) ≤ total_rtt 0 (m ∷ ms)
    low_total = omega (arith, total_rtt_bounds 0 _ duration_max (m ∷ ms) lows cap)

    high_total :
        (high : ℕ)
        → All (λ n. n.round_trip_time ≤ high) (m ∷ ms)
        → total_rtt 0 (m ∷ ms) ≤ length (m ∷ ms) * high
    high_total high highs = omega (
      arith,
      total_rtt_bounds 0 0 high (m ∷ ms) (All-map (λ n k. omega arith) (m ∷ ms) highs) highs,
    )

publish-Summarises :
    (now : ℕ) (ms : List RttMeasurement) (d : NetworkDetection) {d' : NetworkDetection}
    → All (λ m. m.round_trip_time ≤ duration_max) ms
    → ms ≢ []
    → publish now ms d ≡ some d'
    → Summarises ms d'
publish-Summarises now ms d {d'} cap ne h =
    let v = summarise-Summarises ms d cap ne in
    elim (publish-cases now ms d h) [
      | inl e ↦ subst (Summarises ms) (sym e) v
      | inr (r, e) ↦ subst (Summarises ms) (sym e) (record {
        kept = v.kept;
        minimum_below = v.minimum_below;
        minimum_average = v.minimum_average;
        average_below = v.average_below;
      })
    ]

over-Summarises :
    (now : ℕ) (ms : List RttMeasurement) (d : NetworkDetection) {d' : NetworkDetection}
    → All (λ m. m.round_trip_time ≤ duration_max) ms
    → ms ≢ []
    → average_over now ms d ≡ some d'
    → Summarises ms d'
unfolding average_over
over-Summarises now [] d cap ne h = absurd (ne refl)
over-Summarises now (m ∷ ms) d cap ne h = publish-Summarises now (m ∷ ms) d cap ne h

-- When measurements of the last 500 ms are left, and they are values of the duration type, the update keeps exactly
-- those, in their order, the minimum is below each of them and below the average, and the average is not above the
-- greatest of them.
pub update_average_rtt-Summarises :
    (now : ℕ) (d d' : NetworkDetection) (left : List RttMeasurement)
    → KeepsRecent now d.rtt_measurements left
    → All (λ m. m.round_trip_time ≤ duration_max) left
    → left ≢ []
    → update_average_rtt now d ≡ some d'
    → Summarises left d'
unfolding update_average_rtt
update_average_rtt-Summarises now d d' left k cap ne h =
    over-Summarises now left d cap ne
      (subst (λ ms. average_over now ms d ≡ some d') (KeepsRecent-recent k) h)

-- Without a measurement of the last 500 ms, the statistics stay as they are and nothing is sent.
pub update_average_rtt-idle :
    (now : ℕ) (d : NetworkDetection)
    → recent now d.rtt_measurements ≡ []
    → update_average_rtt now d ≡ some (record d { rtt_measurements = [] })
unfolding update_average_rtt
update_average_rtt-idle now d h = rw (h, average_over)
