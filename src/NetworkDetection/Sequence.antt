-- ===== src/NetworkDetection/Sequence.antt =====
-- The search for a free sequence number ends, and what it finds.
use kheadless_krdp.Prelude.{
  ℕ, zero, suc, ◌+◌, ◌-◌, ◌%◌, ◌^◌, ◌≤◌, ◌<◌, ◌≡◌, refl, Bool, true, false, ◌||◌, ◌⊎◌, inl, inr,
  none, some, List, [], ◌∷◌, ◌++◌, ltb, ◌==◌, length, arith, Bool-cases, Option-cases,
}
use kheadless_krdp.Prelude.Assoc.{contains, lookup, remove, lookup-remove}
use kheadless_krdp.NetworkDetection.{
  NetworkDetection, RttMeasurement, average_over, publish, recent, u32, free_sequence,
  next_sequence_number, with_sequence, report, summarise, network_result_interval,
  on_rtt_measure_response, update_average_rtt,
}

-- How far `k` lies ahead of `s` on the circle of uint32_t.
abbrev distance : ℕ → ℕ → ℕ
distance s k = (k + 2 ^ 32 - s) % 2 ^ 32

-- The keys, and 0, that lie less than `n` ahead of `s`.
abbrev one_if : Bool → ℕ
one_if true = 1
one_if false = 0

abbrev ahead_keys : ℕ → ℕ → List (ℕ × ℕ) → ℕ
ahead_keys n s [] = 0
ahead_keys n s ((k, v) ∷ m) = one_if (ltb (distance s k) n) + ahead_keys n s m

abbrev ahead : ℕ → ℕ → List (ℕ × ℕ) → ℕ
ahead n s m = one_if (ltb (distance s 0) n) + ahead_keys n s m

ahead_keys-le : (n s : ℕ) (m : List (ℕ × ℕ)) → ahead_keys n s m ≤ length m
ahead_keys-le n s [] = omega arith
ahead_keys-le n s ((k, v) ∷ m) = ground (arith, ahead_keys-le n s m)

abbrev pub AreU32 : List (ℕ × ℕ) → Type 0
AreU32 [] = Unit
AreU32 ((k, v) ∷ m) = (k < 2 ^ 32) × AreU32 m

-- A key that is at a distance below n from s + 1 is at a distance below n + 1 from s.
one_step :
    (n s k : ℕ)
    → n < 2 ^ 32
    → s < 2 ^ 32
    → k < 2 ^ 32
    → one_if (ltb (distance (u32 (s + 1)) k) n) ≤ one_if (ltb (distance s k) (suc n))
one_step n s k hn hs hk = ground arith

at_start :
    (n s : ℕ)
    → s < 2 ^ 32
    → n < 2 ^ 32
    → (one_if (ltb (distance (u32 (s + 1)) s) n) ≡ 0) × (one_if (ltb (distance s s) (suc n)) ≡ 1)
at_start n s h hn = ground arith

one_if-le : (b : Bool) → one_if b ≤ 1
one_if-le b = ground arith

keys_step :
    (n s : ℕ) (m : List (ℕ × ℕ))
    → n < 2 ^ 32
    → s < 2 ^ 32
    → AreU32 m
    → ahead_keys n (u32 (s + 1)) m ≤ ahead_keys (suc n) s m
keys_step n s [] hn hs hm = omega arith
keys_step n s ((k, v) ∷ m) hn hs hm =
    omega (arith, one_step n s k hn hs hm.0, keys_step n s m hn hs hm.1)

-- Where `s` itself is a key, one key is left behind.
keys_step_at :
    (n s : ℕ) (m : List (ℕ × ℕ))
    → n < 2 ^ 32
    → s < 2 ^ 32
    → AreU32 m
    → contains s m ≡ true
    → ahead_keys n (u32 (s + 1)) m + 1 ≤ ahead_keys (suc n) s m
keys_step_at n s [] hn hs hm h = absurd (cc)
keys_step_at n s ((k, v) ∷ m) hn hs hm h = elim (Bool-cases (k == s)) [
  | inl e ↦
      let (p, q) = at_start n s hs hn in
      let e' : k ≡ s = ground arith in rw e' (omega (arith, p, q, keys_step n s m hn hs hm.1))
  | inr e ↦ omega (arith, one_step n s k hn hs hm.0, keys_step_at n s m hn hs hm.1 (ground arith))
]

zero_step :
    (n s : ℕ)
    → n < 2 ^ 32
    → s ≡ 0
    → one_if (ltb (distance (u32 (s + 1)) 0) n) + 1 ≤ one_if (ltb (distance s 0) (suc n))
zero_step n s hn e = ground arith

ahead_step :
    (n s : ℕ) (m : List (ℕ × ℕ))
    → n < 2 ^ 32
    → s < 2 ^ 32
    → AreU32 m
    → (s == 0 || contains s m) ≡ true
    → ahead n (u32 (s + 1)) m + 1 ≤ ahead (suc n) s m
ahead_step n s m hn hs hm h = elim (Bool-cases (s == 0)) [
  | inl e ↦ omega (arith, keys_step n s m hn hs hm, zero_step n s hn (ground arith))
  | inr e ↦
      omega (arith, one_step n s 0 hn hs (omega arith), keys_step_at n s m hn hs hm (ground arith))
]

skips_ahead :
    (fuel s : ℕ) (m : List (ℕ × ℕ))
    → fuel ≤ 2 ^ 32
    → s < 2 ^ 32
    → AreU32 m
    → free_sequence fuel s m ≡ none
    → fuel ≤ ahead fuel s m
unfolding free_sequence
skips_ahead zero s m hf hs hm h = omega arith
skips_ahead (suc f) s m hf hs hm h = elim (Bool-cases (s == 0 || contains s m)) [
  | inl e ↦ omega (
    arith,
    ahead_step f s m (omega arith) hs hm e,
    skips_ahead f (u32 (s + 1)) m (omega arith) (omega arith) hm (rw (e, free_sequence) at h),
  )
  | inr e ↦ let found : some s ≡ none = rw (e, free_sequence) at h in absurd (cc)
]

free_sequence-eq-some :
    (fuel s : ℕ) (m : List (ℕ × ℕ)) {r : ℕ}
    → s < 2 ^ 32
    → free_sequence fuel s m ≡ some r
    → (0 < r) × (r < 2 ^ 32) × (contains r m ≡ false)
unfolding free_sequence
free_sequence-eq-some zero s m hs h = absurd (cc)
free_sequence-eq-some (suc f) s m {r} hs h = elim (Bool-cases (s == 0 || contains s m)) [
  | inl e ↦ free_sequence-eq-some f (u32 (s + 1)) m (omega arith) (rw (e, free_sequence) at h)
  | inr e ↦
      let found : some s ≡ some r = rw (e, free_sequence) at h in
      let same : s ≡ r = cc in rw (← same) (ground arith, hs, ground arith)
]

-- As long as fewer than 2^32 - 1 requests wait for an answer, the search for a sequence number ends,
-- with a number that is not 0 and that no waiting request has.
pub next_sequence_number_total :
    (d : NetworkDetection)
    → d.sequence_number < 2 ^ 32
    → AreU32 d.rtt_requests
    → length d.rtt_requests + 2 ≤ 2 ^ 32
    → (d' : NetworkDetection) × (r : ℕ) × (next_sequence_number d ≡ some (d', r))
      × (0 < r)
      × (r < 2 ^ 32)
      × (contains r d.rtt_requests ≡ false)
      × (d'.rtt_requests ≡ d.rtt_requests)
unfolding next_sequence_number
next_sequence_number_total d hs hm hl =
    elim (Option-cases
      (free_sequence (length d.rtt_requests + 2) d.sequence_number d.rtt_requests)) [
        | inl e ↦ absurd (
            omega (
              arith,
              skips_ahead (length d.rtt_requests + 2) d.sequence_number d.rtt_requests hl hs hm e,
              ahead_keys-le (length d.rtt_requests + 2) d.sequence_number d.rtt_requests,
              one_if-le (ltb (distance d.sequence_number 0) (length d.rtt_requests + 2)),
            ))
        | inr (r, e) ↦
            let (positive, below, fresh) =
              free_sequence-eq-some _ d.sequence_number d.rtt_requests hs e in
            (
              record d { sequence_number = u32 (r + 1) },
              r,
              rw (e, next_sequence_number),
              positive,
              below,
              fresh,
              refl,
            )
      ]

pub with_sequence-eq-some :
    (f : NetworkDetection → ℕ → NetworkDetection) (d : NetworkDetection) {d' : NetworkDetection}
    → with_sequence f d ≡ some d'
    → (r : ℕ) × (d' ≡ f (record d { sequence_number = u32 (r + 1) }) r)
unfolding with_sequence
with_sequence-eq-some f d {d'} h =
    elim (Option-cases
      (free_sequence (length d.rtt_requests + 2) d.sequence_number d.rtt_requests)) [
        | inl e ↦
            let stuck : none ≡ some d' = rw (e, with_sequence, next_sequence_number) at h in
            absurd (cc)
        | inr (r, e) ↦
            let done : some (f (record d { sequence_number = u32 (r + 1) }) r) ≡ some d' =
              rw (e, with_sequence, next_sequence_number) at h in
            (r, cc)
      ]

-- The two ways in which updateAverageRtt ends once it has measurements.
pub publish-cases :
    (now : ℕ) (ms : List RttMeasurement) (d : NetworkDetection) {d' : NetworkDetection}
    → publish now ms d ≡ some d'
    → (d' ≡ summarise ms d)
      ⊎ ((r : ℕ) × (d'
            ≡ report
                (record (summarise ms d) {
                  last_network_result = now;
                  sequence_number = u32 (r + 1);
                })
                r))
unfolding publish
publish-cases now ms d {d'} h =
    elim (Bool-cases (ltb now (d.last_network_result + network_result_interval))) [
      | inl e ↦ let done : some (summarise ms d) ≡ some d' = rw e at h in inl (cc)
      | inr e ↦ inr (with_sequence-eq-some report _ (rw e at h))
    ]

publish-keeps :
    (now : ℕ) (ms : List RttMeasurement) (d : NetworkDetection) {d' : NetworkDetection}
    → publish now ms d ≡ some d'
    → d'.rtt_requests ≡ d.rtt_requests
publish-keeps now ms d h = ground (arith, publish-cases now ms d h)

over-keeps :
    (now : ℕ) (ms : List RttMeasurement) (d : NetworkDetection) {d' : NetworkDetection}
    → average_over now ms d ≡ some d'
    → d'.rtt_requests ≡ d.rtt_requests
unfolding average_over
over-keeps now [] d h = ground arith
over-keeps now (m ∷ ms) d h = publish-keeps now (m ∷ ms) d h

average-keeps :
    (now : ℕ) (d : NetworkDetection) {d' : NetworkDetection}
    → update_average_rtt now d ≡ some d'
    → d'.rtt_requests ≡ d.rtt_requests
unfolding update_average_rtt
average-keeps now d h = over-keeps now (recent now d.rtt_measurements) d h

-- The callback takes the sequence number as a uint16_t: a request under a larger number is never
-- answered, since whatever response arrives leaves it waiting.
pub wide_request_waits :
    (d d' : NetworkDetection) (k started sequence now later : ℕ)
    → 2 ^ 16 ≤ k
    → sequence < 2 ^ 16
    → lookup k d.rtt_requests ≡ some started
    → on_rtt_measure_response sequence now later d ≡ some d'
    → lookup k d'.rtt_requests ≡ some started
unfolding on_rtt_measure_response
wide_request_waits d d' k started sequence now later hk hs at h = ground (
  arith,
  lookup-remove sequence k d.rtt_requests,
  average-keeps later (record d {
    rtt_requests = remove sequence d.rtt_requests;
    rtt_measurements =
        d.rtt_measurements
        ++ record { measurement_time = now; round_trip_time = now - started } ∷ [];
  }),
)
