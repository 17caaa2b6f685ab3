-- ===== src/NetworkDetection/Examples.antt =====
-- src/NetworkDetection.cpp on short runs.
use kheadless_krdp.Prelude.{List, ℕ, ◌<◌, ◌^◌, ◌≡◌, ◌≢◌, refl, false, some, [], ◌∷◌, arith}
use kheadless_krdp.Prelude.Assoc.{contains}
use kheadless_krdp.NetworkDetection.{
  RttMeasurement, NetworkDetection, initial, rtt_changed, recent, next_sequence_number,
  update_average_rtt, on_rtt_measure_response, start_bandwidth_measure, stop_bandwidth_measure,
}
use kheadless_krdp.NetworkDetection.Sequence.{next_sequence_number_total}
use kheadless_krdp.NetworkDetection.Average.{
  KeepsRecent, ends, keeps, drops, Summarises, update_average_rtt-Summarises,
}
use kheadless_krdp.NetworkDetection.Protocol.{begins, then, starts, stops, IsInTurn, Reach-IsInTurn}

-- Two requests wait, and the counter has come to one of them.
abbrev waiting : NetworkDetection
waiting = record initial { sequence_number = 7; rtt_requests = (7, 100) ∷ (70000, 90) ∷ [] }

next_sequence_number_total_example :
    (d' : NetworkDetection) × (r : ℕ) × (next_sequence_number waiting ≡ some (d', r))
    × (0 < r)
    × (r < 2 ^ 32)
    × (contains r waiting.rtt_requests ≡ false)
    × (d'.rtt_requests ≡ waiting.rtt_requests)
next_sequence_number_total_example =
    next_sequence_number_total waiting (omega arith) (omega arith, (omega arith, tt)) (omega arith)

abbrev measured : NetworkDetection
measured = record initial {
  rtt_measurements =
      record { measurement_time = 100; round_trip_time = 30000000 }
      ∷ record { measurement_time = 900000000; round_trip_time = 20000000 }
      ∷ record { measurement_time = 950000000; round_trip_time = 40000000 }
      ∷ [];
  last_network_result = 999000000;
}

abbrev summarised : NetworkDetection
summarised = record measured {
  rtt_measurements =
      record { measurement_time = 900000000; round_trip_time = 20000000 }
      ∷ record { measurement_time = 950000000; round_trip_time = 40000000 }
      ∷ [];
  minimum_rtt = 20000000;
  average_rtt = 30000000;
  sent = rtt_changed ∷ [];
}

summarises_test : update_average_rtt 1000000000 measured ≡ some summarised
unfolding update_average_rtt
summarises_test = refl

abbrev last_two : List RttMeasurement
last_two = summarised.rtt_measurements

last_two-KeepsRecent : KeepsRecent 1000000000 measured.rtt_measurements last_two
last_two-KeepsRecent = drops (omega arith) (keeps (omega arith) (keeps (omega arith) ends))

not_idle : last_two ≢ []
not_idle e = cc

update_average_rtt-Summarises_example : Summarises last_two summarised
update_average_rtt-Summarises_example =
    update_average_rtt-Summarises 1000000000 measured summarised last_two last_two-KeepsRecent
      (omega arith, (omega arith, tt)) not_idle summarises_test

idle_test : recent 2000000000 measured.rtt_measurements ≡ []
unfolding recent
idle_test = refl

-- The response to request 70000 comes with its low 16 bits.
abbrev answered : NetworkDetection
answered = waiting

answered_test : on_rtt_measure_response 4464 1000000000 1000000000 waiting ≡ some answered
unfolding on_rtt_measure_response
answered_test = refl

Reach-IsInTurn_example : IsInTurn (stop_bandwidth_measure (start_bandwidth_measure initial))
Reach-IsInTurn_example = Reach-IsInTurn (then (then begins starts refl) stops refl)
