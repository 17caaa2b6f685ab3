-- ===== src/FrameRate.antt =====
-- src/VideoStream.cpp, updateRequestedFrameRate: the frame rate that the stream asks of its sources. Times are
-- nanoseconds since the epoch of system_clock; a difference of times is compared with a positive period, where a
-- negative difference does as well as 0.
pub mod Range
mod Examples
use kheadless_krdp.Prelude.{
  ℕ, zero, suc, ◌+◌, ◌-◌, ◌*◌, ◌/◌, min, max, Bool, not, List, [], ◌∷◌, ◌++◌, ltb, ◌==◌,
  if◌then◌else◌, length,
}
use kheadless_krdp.Prelude.Int.{ℤ, pos, negsuc}

pub record FrameRateEstimate : Type 0 where
  pub time_stamp : ℕ
  pub estimate : ℕ

-- The members of VideoStream::Private on the frame rate. `announced` counts the requestedFrameRateChanged signals.
pub record FrameRate : Type 0 where
  pub maximum_frame_rate : ℕ
  pub requested_frame_rate : ℕ
  pub frame_rate_estimates : List FrameRateEstimate
  pub last_frame_rate_estimation : ℕ
  pub announced : ℕ

abbrev pub initial : FrameRate
initial = record {
  maximum_frame_rate = 120;
  requested_frame_rate = 60;
  frame_rate_estimates = [];
  last_frame_rate_estimation = 0;
  announced = 0;
}

-- FrameRateEstimateAveragePeriod, 1 s.
abbrev pub average_period : ℕ
average_period = 1000000000

-- std::max(frameDelay, 1).
abbrev pub at_least_one : ℤ → ℕ
at_least_one (pos n) = max n 1
at_least_one (negsuc n) = 1

-- `average_rtt` in nanoseconds.
abbrev pub estimated_rate : ℕ → ℤ → ℕ → ℕ
estimated_rate average_rtt frame_delay maximum =
    min (1000 / (max (average_rtt / 1000000) 1 * at_least_one frame_delay)) maximum

-- std::remove_if with `(estimate.timeStamp - now) > FrameRateEstimateAveragePeriod`.
pub remove_old : ℕ → List FrameRateEstimate → List FrameRateEstimate
remove_old now [] = []
remove_old now (e ∷ es) =
    let rest = remove_old now es in
    if ltb average_period (e.time_stamp - now) then rest else e ∷ rest

-- The sum of the source is an int, which overflows from 2^31 on, a case that is left out: with estimates of at most 120,
-- some 18 million of them are needed for it.
pub sum_estimates : ℕ → List FrameRateEstimate → ℕ
sum_estimates acc [] = acc
sum_estimates acc (e ∷ es) = sum_estimates (acc + e.estimate) es

-- The rate max(1.0, average * 0.5) is a multiple of one half; this is its double.
abbrev pub double_rate : List FrameRateEstimate → ℕ
double_rate es = max 2 (sum_estimates 0 es / length es)

-- Stored in an int, the rate is rounded down. It is compared before that.
request : ℕ → FrameRate → FrameRate
request double f =
    if not (double == 2 * f.requested_frame_rate)
    then record f { requested_frame_rate = double / 2; announced = f.announced + 1 }
    else f

unfoldable pub update_requested_frame_rate : ℕ → ℕ → ℤ → FrameRate → FrameRate
unfolding request remove_old sum_estimates
update_requested_frame_rate now average_rtt frame_delay f =
    let appended =
      f.frame_rate_estimates
      ++ record {
        time_stamp = now;
        estimate = estimated_rate average_rtt frame_delay f.maximum_frame_rate;
      }
        ∷ [] in
    if ltb (now - f.last_frame_rate_estimation) average_period
    then record f { frame_rate_estimates = appended }
    else (let kept = remove_old now appended in
        request (double_rate kept)
          (record f { frame_rate_estimates = kept; last_frame_rate_estimation = now }))
