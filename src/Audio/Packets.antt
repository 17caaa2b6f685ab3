-- ===== src/Audio/Packets.antt =====
-- src/AudioStream.cpp: the packets of samples that are sent.
use kheadless_krdp.Prelude.{
  ℕ, suc, zero, ◌-◌, ◌*◌, ◌/◌, ◌%◌, ◌^◌, ◌<◌, ◌≤◌, ◌≡◌, ◌⊎◌, inl, inr, refl, ap, true, false, ◌&&◌,
  ltb, List, [], ◌∷◌, ◌++◌, length, arith, Bool-cases,
}
use kheadless_krdp.Audio.{AudioPacket, AudioStream, take, send_samples}

drop : ℕ → List ℕ → List ℕ
drop zero bytes = bytes
drop (suc n) [] = []
drop (suc n) (b ∷ bytes) = drop n bytes

take-drop : (n : ℕ) (bytes : List ℕ) → bytes ≡ take n bytes ++ drop n bytes
unfolding drop
take-drop zero bytes = refl
take-drop (suc n) [] = refl
take-drop (suc n) (b ∷ bytes) = ap (λ rest. b ∷ rest) (take-drop n bytes)

length-take : (n : ℕ) (bytes : List ℕ) → n ≤ length bytes → length (take n bytes) ≡ n
length-take zero bytes h = refl
length-take (suc n) [] h = absurd (omega arith)
length-take (suc n) (b ∷ bytes) h = ap suc (length-take n bytes (omega arith))

length-drop : (n : ℕ) (bytes : List ℕ) → n ≤ length bytes → length (drop n bytes) ≡ length bytes - n
unfolding drop
length-drop zero bytes h = omega arith
length-drop (suc n) [] h = omega arith
length-drop (suc n) (b ∷ bytes) h = omega (arith, length-drop n bytes (omega arith))

-- Whole frames of four bytes from the front of the samples, at most three bytes less than all.
abbrev pub IsPacketOf : List ℕ → AudioPacket → Type 0
IsPacketOf pcm p =
    (length p.samples ≡ 4 * p.frames)
    × (0 < p.frames)
    × (p.timestamp < 2 ^ 16)
    × (rest : List ℕ) × (pcm ≡ p.samples ++ rest)
    × (length rest < 4)

abbrev packet : (elapsed : ℕ) (pcm : List ℕ) → AudioPacket
packet elapsed pcm = record {
  samples = take (length pcm - length pcm % 4) pcm;
  frames = (length pcm - length pcm % 4) / 4;
  timestamp = elapsed % 2 ^ 16;
}

packet-IsPacketOf :
    (elapsed : ℕ) (pcm : List ℕ) → 4 ≤ length pcm → IsPacketOf pcm (packet elapsed pcm)
packet-IsPacketOf elapsed pcm h =
    let whole = length pcm - length pcm % 4 in
    (
      omega (arith, length-take whole pcm (omega arith)),
      omega arith,
      omega arith,
      drop whole pcm,
      take-drop whole pcm,
      omega (arith, length-drop whole pcm (omega arith)),
    )

-- An active stream with a channel sends samples of four bytes or more as one packet, which holds all whole frames of
-- them in their order and a time of 16 bits; anything else is not sent and leaves the stream as it was.
pub send_samples-packet :
    (now : ℕ) (pcm : List ℕ) (s : AudioStream)
    → (send_samples now pcm s ≡ s) × (((s.active && s.has_context) ≡ false) ⊎ (length pcm < 4))
      ⊎ (p : AudioPacket) × (send_samples now pcm s ≡ record s { sent = s.sent ++ p ∷ [] })
        × ((s.active && s.has_context) ≡ true)
        × IsPacketOf pcm p
unfolding send_samples
send_samples-packet now pcm s = elim (Bool-cases (s.active && s.has_context)) [
  | inr e ↦ inl (ground (arith, e), inl e)
  | inl e ↦ elim (Bool-cases (ltb (length pcm) 4)) [
    | inl short ↦ inl (ground arith, inr (ground arith))
    | inr long ↦ inr (
      packet ((now - s.started) / 1000000) pcm,
      ground (arith, e),
      e,
      packet-IsPacketOf ((now - s.started) / 1000000) pcm (ground arith),
    )
  ]
]
