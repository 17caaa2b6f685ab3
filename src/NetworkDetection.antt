-- ===== src/NetworkDetection.antt =====
-- src/NetworkDetection.cpp. A time is a number of nanoseconds since the epoch of system_clock, read
-- by the caller; `a - b < p` is written `a < b + p`, which is the same of signed durations. What is
-- handed to FreeRDP's autodetect callbacks is appended to `sent`.
pub mod Sequence
pub mod Average
pub mod Protocol
mod Examples
use kheadless_krdp.Prelude.{
  ℕ, zero, suc, ◌+◌, ◌-◌, ◌/◌, ◌%◌, ◌^◌, min, Bool, true, false, ◌||◌, not, Option, none, some,
  List, [], ◌∷◌, ◌++◌, ltb, leb, ◌==◌, if◌then◌else◌, length,
}
use kheadless_krdp.Prelude.Assoc.{contains, lookup, remove, insert}

abbrev pub u32 : ℕ → ℕ
u32 n = n % 2 ^ 32

-- 70 ms, 500 ms and 1 s.
abbrev pub rtt_update_interval : ℕ
rtt_update_interval = 70000000

abbrev pub rtt_average_interval : ℕ
rtt_average_interval = 500000000

abbrev pub network_result_interval : ℕ
network_result_interval = 1000000000

abbrev pub duration_max : ℕ
duration_max = 9223372036854775807

-- `no_measure` is the source's None.
pub data State : Type 0 where
  no_measure pending_stop queued_stop pending_results : State

pub record RttMeasurement : Type 0 where
  pub measurement_time : ℕ
  pub round_trip_time : ℕ

pub data Message : Type 0 where
  bandwidth_measure_start bandwidth_measure_stop rtt_changed : Message
  rtt_measure_request : ℕ → Message
  network_characteristics_result : (sequence base average bandwidth : ℕ) → Message

pub record NetworkDetection : Type 0 where
  pub state : State
  pub sequence_number : ℕ
  pub last_bandwidth_measurement : ℕ
  pub last_rtt_update : ℕ
  pub rtt_requests : List (ℕ × ℕ)
  pub rtt_measurements : List RttMeasurement
  pub minimum_rtt : ℕ
  pub average_rtt : ℕ
  pub last_network_result : ℕ
  pub sent : List Message

-- A value-initialised Private.
abbrev pub initial : NetworkDetection
initial = record {
  state = no_measure;
  sequence_number = 0;
  last_bandwidth_measurement = 0;
  last_rtt_update = 0;
  rtt_requests = [];
  rtt_measurements = [];
  minimum_rtt = 0;
  average_rtt = 0;
  last_network_result = 0;
  sent = [];
}

abbrev pub send : Message → NetworkDetection → NetworkDetection
send m d = record d { sent = d.sent ++ m ∷ [] }

start_from : State → NetworkDetection → NetworkDetection
start_from no_measure d = send bandwidth_measure_start (record d { state = pending_stop })
start_from _ d = d

unfoldable pub start_bandwidth_measure : NetworkDetection → NetworkDetection
unfolding start_from
start_bandwidth_measure d = start_from d.state d

stop_from : State → NetworkDetection → NetworkDetection
stop_from pending_stop d = send bandwidth_measure_stop (record d { state = pending_results })
stop_from _ d = d

unfoldable pub stop_bandwidth_measure : NetworkDetection → NetworkDetection
unfolding stop_from
stop_bandwidth_measure d = stop_from d.state d

-- The loop `while (sequence == 0 || rttRequests.contains(sequence)) ++sequence`; `none` says that
-- the fuel ran out.
pub free_sequence : ℕ → ℕ → List (ℕ × ℕ) → Option ℕ
free_sequence zero sequence requests = none
free_sequence (suc fuel) sequence requests = elim (sequence == 0 || contains sequence requests) [
  | true ↦ free_sequence fuel (u32 (sequence + 1)) requests
  | false ↦ some sequence
]

-- One more round than there are values to skip.
pub next_sequence_number : NetworkDetection → Option (NetworkDetection × ℕ)
unfolding free_sequence
next_sequence_number d =
    elim (free_sequence (length d.rtt_requests + 2) d.sequence_number d.rtt_requests) [
      | none ↦ none
      | some sequence ↦ some (record d { sequence_number = u32 (sequence + 1) }, sequence)
    ]

-- What the code does with the number that it was given; `none` stands for a loop that does not end.
pub with_sequence :
    (NetworkDetection → ℕ → NetworkDetection) → NetworkDetection → Option NetworkDetection
unfolding next_sequence_number
with_sequence f d = elim (next_sequence_number d) [
  | none ↦ none
  | some (d', sequence) ↦ some (f d' sequence)
]

abbrev request_rtt : ℕ → NetworkDetection → ℕ → NetworkDetection
request_rtt now d sequence =
    send (rtt_measure_request sequence)
      (record d { rtt_requests = insert sequence now d.rtt_requests })

unfoldable pub update : Bool → ℕ → NetworkDetection → Option NetworkDetection
unfolding with_sequence
update false now d = some d
update true now d =
    if ltb now (d.last_rtt_update + rtt_update_interval)
    then some d
    else with_sequence (request_rtt now) (record d { last_rtt_update = now })

-- remove_if of the measurements that are too old.
pub recent : ℕ → List RttMeasurement → List RttMeasurement
recent now [] = []
recent now (m ∷ ms) =
    let rest = recent now ms in
    if ltb (m.measurement_time + rtt_average_interval) now then rest else m ∷ rest

pub least_rtt : ℕ → List RttMeasurement → ℕ
least_rtt least [] = least
least_rtt least (m ∷ ms) =
    least_rtt (if ltb m.round_trip_time least then m.round_trip_time else least) ms

pub total_rtt : ℕ → List RttMeasurement → ℕ
total_rtt total [] = total
total_rtt total (m ∷ ms) = total_rtt (total + m.round_trip_time) ms

abbrev report : NetworkDetection → ℕ → NetworkDetection
report d sequence =
    send
      (network_characteristics_result sequence (d.minimum_rtt / 1000000) (d.average_rtt / 1000000)
        d.last_bandwidth_measurement)
      d

-- The statistics of a list that is not empty. (`lastBandwithMeasurement < 0` is never true of a
-- uint32_t, so nothing hangs on it.)
abbrev summarise : List RttMeasurement → NetworkDetection → NetworkDetection
summarise ms d = send rtt_changed (record d {
  rtt_measurements = ms;
  minimum_rtt = least_rtt duration_max ms;
  average_rtt = total_rtt 0 ms / length ms;
})

pub publish : ℕ → List RttMeasurement → NetworkDetection → Option NetworkDetection
unfolding with_sequence
publish now ms d =
    if ltb now (d.last_network_result + network_result_interval)
    then some (summarise ms d)
    else with_sequence report (record (summarise ms d) { last_network_result = now })

average_over : ℕ → List RttMeasurement → NetworkDetection → Option NetworkDetection
average_over now [] d = some (record d { rtt_measurements = [] })
average_over now (m ∷ ms) d = publish now (m ∷ ms) d

unfoldable pub update_average_rtt : ℕ → NetworkDetection → Option NetworkDetection
unfolding average_over publish recent least_rtt total_rtt
update_average_rtt now d = average_over now (recent now d.rtt_measurements) d

-- `now` is read for the measurement, `later` by updateAverageRtt.
unfoldable pub on_rtt_measure_response : ℕ → ℕ → ℕ → NetworkDetection → Option NetworkDetection
unfolding update_average_rtt
on_rtt_measure_response sequence now later d = elim (lookup sequence d.rtt_requests) [
  | none ↦ some d
  | some started ↦
      (let d' = record d { rtt_requests = remove sequence d.rtt_requests } in
        if leb now started
        then some d'
        else update_average_rtt later (record d' {
          rtt_measurements =
              d.rtt_measurements
              ++ record { measurement_time = now; round_trip_time = now - started } ∷ [];
        }))
]

-- `bandwidth` is FreeRDP's netCharBandwidth, a UINT32.
results_from : State → ℕ → ℕ → NetworkDetection → Option NetworkDetection
unfolding update_average_rtt
results_from pending_results bandwidth now d =
    let d' = record d { state = no_measure } in
    if bandwidth == 0
    then some d'
    else update_average_rtt now (record d' { last_bandwidth_measurement = bandwidth })
results_from _ bandwidth now d = some d

unfoldable pub on_bandwidth_measure_results : ℕ → ℕ → NetworkDetection → Option NetworkDetection
unfolding results_from
on_bandwidth_measure_results bandwidth now d = results_from d.state bandwidth now d
