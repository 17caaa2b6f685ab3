-- ===== src/NetworkDetection/Protocol.antt =====
-- Bandwidth measurements as FreeRDP sees them: started and stopped in turn.
use kheadless_krdp.Prelude.{
  ℕ, ◌≡◌, refl, Bool, true, false, Option, none, some, ◌+◌, inl, inr, ◌/◌, ◌-◌, subst, sym, ltb,
  Bool-cases, List, [], ◌∷◌, ◌++◌, arith,
}
use kheadless_krdp.Prelude.Assoc.{lookup, remove}
use mathlib.Core.Option.{some-injective}
use kheadless_krdp.NetworkDetection.Sequence.{publish-cases, with_sequence-eq-some}
use kheadless_krdp.NetworkDetection.{
  NetworkDetection, State, no_measure, pending_stop, RttMeasurement, Message,
  bandwidth_measure_start, bandwidth_measure_stop, rtt_changed, rtt_measure_request,
  network_characteristics_result, initial, start_bandwidth_measure, stop_bandwidth_measure, update,
  recent, request_rtt, u32, report, summarise, rtt_update_interval, publish, average_over,
  update_average_rtt, on_rtt_measure_response, on_bandwidth_measure_results,
}

-- One message, seen by somebody who knows whether a measurement is running; `none` is a start in a
-- running measurement or a stop outside of one.
abbrev observe : Bool → Message → Option Bool
observe true bandwidth_measure_start = none
observe false bandwidth_measure_start = some true
observe true bandwidth_measure_stop = some false
observe false bandwidth_measure_stop = none
observe running _ = some running

abbrev pub observe_all : Option Bool → List Message → Option Bool
observe_all running [] = running
observe_all none (m ∷ ms) = observe_all none ms
observe_all (some running) (m ∷ ms) = observe_all (observe running m) ms

abbrev then_observe : Option Bool → Message → Option Bool
then_observe none m = none
then_observe (some running) m = observe running m

observe_all-snoc :
    (o : Option Bool) (ms : List Message) (m : Message)
    → observe_all o (ms ++ m ∷ []) ≡ then_observe (observe_all o ms) m
observe_all-snoc none [] m = refl
observe_all-snoc (some r) [] m = refl
observe_all-snoc none (x ∷ ms) m = observe_all-snoc none ms m
observe_all-snoc (some r) (x ∷ ms) m = observe_all-snoc (observe r x) ms m

abbrev is_measuring : State → Bool
is_measuring pending_stop = true
is_measuring _ = false

abbrev pub IsInTurn : NetworkDetection → Type 0
IsInTurn d = observe_all (some false) d.sent ≡ some (is_measuring d.state)

start-InTurn : (d : NetworkDetection) → IsInTurn d → IsInTurn (start_bandwidth_measure d)
unfolding start_bandwidth_measure
start-InTurn d v = ground (arith, observe_all-snoc (some false) d.sent bandwidth_measure_start)

stop-InTurn : (d : NetworkDetection) → IsInTurn d → IsInTurn (stop_bandwidth_measure d)
unfolding stop_bandwidth_measure
stop-InTurn d v = ground (arith, observe_all-snoc (some false) d.sent bandwidth_measure_stop)

request-InTurn : (now r : ℕ) (d : NetworkDetection) → IsInTurn d → IsInTurn (request_rtt now d r)
request-InTurn now r d v =
    ground (arith, observe_all-snoc (some false) d.sent (rtt_measure_request r))

report-InTurn : (r : ℕ) (d : NetworkDetection) → IsInTurn d → IsInTurn (report d r)
report-InTurn r d v = ground (
  arith,
  observe_all-snoc (some false) d.sent (
      network_characteristics_result r (d.minimum_rtt / 1000000) (d.average_rtt / 1000000)
        d.last_bandwidth_measurement),
)

summarise-InTurn :
    (ms : List RttMeasurement) (d : NetworkDetection) → IsInTurn d → IsInTurn (summarise ms d)
summarise-InTurn ms d v = ground (arith, observe_all-snoc (some false) d.sent rtt_changed)

update-InTurn :
    (streaming : Bool) (now : ℕ) (d : NetworkDetection) {d' : NetworkDetection}
    → IsInTurn d
    → update streaming now d ≡ some d'
    → IsInTurn d'
unfolding update
update-InTurn false now d v h = ground arith
update-InTurn true now d {d'} v h =
    elim (Bool-cases (ltb now (d.last_rtt_update + rtt_update_interval))) [
      | inl e ↦
          let same : some d ≡ some d' = rw e at h in subst IsInTurn (some-injective d d' same) v
      | inr e ↦
          let asked : NetworkDetection = record d { last_rtt_update = now } in
          let (r, done) = with_sequence-eq-some (request_rtt now) asked {d' = d'} (rw e at h) in
          subst IsInTurn (sym done)
            (request-InTurn now r (record asked { sequence_number = u32 (r + 1) }) v)
    ]

publish-InTurn :
    (now : ℕ) (ms : List RttMeasurement) (d : NetworkDetection) {d' : NetworkDetection}
    → IsInTurn d
    → publish now ms d ≡ some d'
    → IsInTurn d'
publish-InTurn now ms d v h = elim (publish-cases now ms d h) [
  | inl e ↦ subst IsInTurn (sym e) (summarise-InTurn ms d v)
  | inr (r, e) ↦ subst IsInTurn (sym e) (
      report-InTurn r
        (record (summarise ms d) { last_network_result = now; sequence_number = u32 (r + 1) })
        (summarise-InTurn ms d v))
]

average-InTurn :
    (now : ℕ) (ms : List RttMeasurement) (d : NetworkDetection) {d' : NetworkDetection}
    → IsInTurn d
    → average_over now ms d ≡ some d'
    → IsInTurn d'
unfolding average_over
average-InTurn now [] d v h = ground arith
average-InTurn now (m ∷ ms) d v h = publish-InTurn now (m ∷ ms) d v h

update_average-InTurn :
    (now : ℕ) (d : NetworkDetection) {d' : NetworkDetection}
    → IsInTurn d
    → update_average_rtt now d ≡ some d'
    → IsInTurn d'
unfolding update_average_rtt
update_average-InTurn now d v h = average-InTurn now (recent now d.rtt_measurements) d v h

-- When the request was sent, where there is one.
abbrev started : ℕ → NetworkDetection → ℕ
started sequence d = elim (lookup sequence d.rtt_requests) [ none ↦ 0 | some t ↦ t ]

response-InTurn :
    (sequence now later : ℕ) (d : NetworkDetection) {d' : NetworkDetection}
    → IsInTurn d
    → on_rtt_measure_response sequence now later d ≡ some d'
    → IsInTurn d'
unfolding on_rtt_measure_response
response-InTurn sequence now later d {d'} v h = ground (
  arith,
  update_average-InTurn later
      (record d {
        rtt_requests = remove sequence d.rtt_requests;
        rtt_measurements =
            d.rtt_measurements
            ++ record { measurement_time = now; round_trip_time = now - started sequence d } ∷ [];
      })
      {d' = d'},
)

results-InTurn :
    (bandwidth now : ℕ) (d : NetworkDetection) {d' : NetworkDetection}
    → IsInTurn d
    → on_bandwidth_measure_results bandwidth now d ≡ some d'
    → IsInTurn d'
unfolding on_bandwidth_measure_results
results-InTurn bandwidth now d {d'} v h = ground (
  arith,
  update_average-InTurn now
      (record d { state = no_measure; last_bandwidth_measurement = bandwidth }) {d' = d'},
)

-- What drives the class: sendFrame, the session's loop, and FreeRDP's callbacks.
pub data Event : Type 0 where
  starts stops : Event
  updates : Bool → ℕ → Event
  rtt_response : (sequence now later : ℕ) → Event
  bandwidth_results : (bandwidth now : ℕ) → Event

abbrev pub handle : Event → NetworkDetection → Option NetworkDetection
handle starts d = some (start_bandwidth_measure d)
handle stops d = some (stop_bandwidth_measure d)
handle (updates streaming now) d = update streaming now d
handle (rtt_response sequence now later) d = on_rtt_measure_response sequence now later d
handle (bandwidth_results bandwidth now) d = on_bandwidth_measure_results bandwidth now d

pub data Reach : NetworkDetection → Type 0 where
  begins : Reach initial
  then : {d d' : NetworkDetection} → Reach d → (e : Event) → handle e d ≡ some d' → Reach d'

handle-InTurn :
    (e : Event) (d : NetworkDetection) {d' : NetworkDetection}
    → IsInTurn d
    → handle e d ≡ some d'
    → IsInTurn d'
handle-InTurn starts d v h = ground (arith, start-InTurn d v)
handle-InTurn stops d v h = ground (arith, stop-InTurn d v)
handle-InTurn (updates streaming now) d v h = update-InTurn streaming now d v h
handle-InTurn (rtt_response sequence now later) d v h = response-InTurn sequence now later d v h
handle-InTurn (bandwidth_results bandwidth now) d v h = results-InTurn bandwidth now d v h

-- Whatever events arrive, FreeRDP is told to start and to stop measuring in turn, beginning with a
-- start, and a measurement is running exactly in the state PendingStop.
pub Reach-IsInTurn : {d : NetworkDetection} → Reach d → IsInTurn d
Reach-IsInTurn begins = refl
Reach-IsInTurn (then {d} r e h) = handle-InTurn e d (Reach-IsInTurn r) h
