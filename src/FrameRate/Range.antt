-- ===== src/FrameRate/Range.antt =====
-- The range of the frame rate that src/VideoStream.cpp requests, and the estimates that it averages.
use native.Mathlib.Nat.{div-le_of_le-mul}
use kheadless_krdp.Prelude.{
  ℕ, ◌+◌, ◌-◌, ◌*◌, ◌/◌, ◌≤◌, ◌≡◌, refl, List, [], ◌∷◌, ◌++◌, ltb, ◌==◌, length, arith, All,
  All-append, All-map, Bool-cases, inl, inr,
}
use kheadless_krdp.Prelude.Int.{ℤ}
use kheadless_krdp.FrameRate.{
  FrameRate, FrameRateEstimate, average_period, estimated_rate, remove_old, sum_estimates,
  double_rate, request, update_requested_frame_rate,
}

-- The estimates were made by the time `now`, at most at the maximum rate, and the request is in range.
pub record IsSound (now : ℕ) (f : FrameRate) : Type 0 where
  pub maximum : f.maximum_frame_rate ≡ 120
  pub made : All (λ e. (e.time_stamp ≤ now) × (e.estimate ≤ 120)) f.frame_rate_estimates
  pub in_range : (1 ≤ f.requested_frame_rate) × (f.requested_frame_rate ≤ 60)

remove_old-keeps :
    (now : ℕ) (es : List FrameRateEstimate)
    → All (λ e. (e.time_stamp ≤ now) × (e.estimate ≤ 120)) es
    → remove_old now es ≡ es
unfolding remove_old
remove_old-keeps now [] h = refl
remove_old-keeps now (e ∷ es) h = ground (arith, remove_old-keeps now es h.1)

sum_estimates-le :
    (acc now : ℕ) (es : List FrameRateEstimate)
    → All (λ e. (e.time_stamp ≤ now) × (e.estimate ≤ 120)) es
    → sum_estimates acc es ≤ acc + 120 * length es
unfolding sum_estimates
sum_estimates-le acc now [] h = omega arith
sum_estimates-le acc now (e ∷ es) h =
    omega (arith, sum_estimates-le (acc + e.estimate) now es h.1, h.0.1)

double_rate-le :
    (now : ℕ) (es : List FrameRateEstimate)
    → All (λ e. (e.time_stamp ≤ now) × (e.estimate ≤ 120)) es
    → double_rate es ≤ 120
unfolding sum_estimates
double_rate-le now [] h = omega arith
double_rate-le now (e ∷ es) h = omega (arith, average)
  where
    total : sum_estimates 0 (e ∷ es) ≤ length (e ∷ es) * 120
    total = omega (arith, sum_estimates-le 0 now (e ∷ es) h)

    average : sum_estimates 0 (e ∷ es) / length (e ∷ es) ≤ 120
    average = div-le_of_le-mul (length (e ∷ es)) total

request-IsSound :
    (now double : ℕ) (f : FrameRate)
    → 2 ≤ double
    → double ≤ 120
    → IsSound now f
    → IsSound now (request double f)
      × (request double f).frame_rate_estimates ≡ f.frame_rate_estimates
unfolding request
request-IsSound now double f low high v = elim (Bool-cases (double == 2 * f.requested_frame_rate)) [
  | inl e ↦ rw e (v, refl)
  | inr e ↦
      rw e (
        record { maximum = v.maximum; made = v.made; in_range = (ground arith, ground arith) },
        refl,
      )
]

-- The requested rate stays between 1 and 60 frames a second, and no update ever takes an estimate away, however old
-- it is: when the clock does not run backwards, each one adds its estimate to all those before.
pub update_requested_frame_rate-IsSound :
    (before now average_rtt : ℕ) (frame_delay : ℤ) (f : FrameRate)
    → before ≤ now
    → IsSound before f
    → IsSound now (update_requested_frame_rate now average_rtt frame_delay f)
      × (update_requested_frame_rate now average_rtt frame_delay f).frame_rate_estimates
        ≡ f.frame_rate_estimates
          ++ record { time_stamp = now; estimate = estimated_rate average_rtt frame_delay 120 } ∷ []
unfolding update_requested_frame_rate
update_requested_frame_rate-IsSound before now average_rtt frame_delay f le v =
    rw v.maximum (elim (Bool-cases (ltb (now - f.last_frame_rate_estimation) average_period)) [
      | inl e ↦ rw e (record { maximum = refl; made = all_made; in_range = v.in_range }, refl)
      | inr e ↦
          rw (e, remove_old-keeps now appended all_made)
            (request-IsSound now (double_rate appended) _ (omega arith)
              (double_rate-le now appended all_made)
              (record { maximum = refl; made = all_made; in_range = v.in_range }))
    ])
  where
    appended : List FrameRateEstimate
    appended =
        f.frame_rate_estimates
        ++ record { time_stamp = now; estimate = estimated_rate average_rtt frame_delay 120 } ∷ []

    all_made : All (λ e. (e.time_stamp ≤ now) × (e.estimate ≤ 120)) appended
    all_made =
        All-append _ f.frame_rate_estimates _ (All-map (λ e h. (omega (arith, h.0), h.1)) _ v.made)
          ((omega arith, omega arith), tt)
