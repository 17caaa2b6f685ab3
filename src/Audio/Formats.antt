-- ===== src/Audio/Formats.antt =====
-- src/AudioStream.cpp: which of the client's formats makes the stream active.
use kheadless_krdp.Prelude.{
  ℕ, suc, ◌+◌, ◌≡◌, refl, Bool, true, false, List, [], ◌∷◌, ◌++◌, if◌then◌else◌, length, arith, All,
}
use kheadless_krdp.Audio.{AudioFormat, AudioStream, is_compatible, activate_from, activated}

module _ (pcm_tag : ℕ) (selects : ℕ → Bool) where
  abbrev pub AreIncompatible : List AudioFormat → Type 0
  AreIncompatible formats = All (λ f. is_compatible pcm_tag selects f ≡ false) formats

  -- What selecting the format of an index makes of the stream.
  abbrev pub selected : ℕ → AudioStream → AudioStream
  selected index s =
      if selects index then record s { active = true; announced = s.announced + 1 } else s

  activate_from_lem :
      (before after : List AudioFormat) (f : AudioFormat) (index : ℕ) (s : AudioStream)
      → AreIncompatible before
      → is_compatible pcm_tag selects f ≡ true
      → activate_from pcm_tag selects index (before ++ f ∷ after) s
        ≡ selected (index + length before) s
  unfolding activate_from
  activate_from_lem [] after f index s h c = ground (arith, c)
  activate_from_lem (b ∷ before) after f index s h c =
      ground (arith, activate_from_lem before after f (suc index) s h.1 c)

  -- Of the formats that the client offers, the first that is stereo PCM with 16 bits at 48 kHz is selected, and the
  -- stream becomes active, which is announced, exactly when the channel accepts it; no later format is tried.
  pub activated_lem :
      (before after : List AudioFormat) (f : AudioFormat) (s : AudioStream)
      → AreIncompatible before
      → is_compatible pcm_tag selects f ≡ true
      → activated pcm_tag selects (before ++ f ∷ after) s ≡ selected (length before) s
  unfolding activated
  activated_lem before after f s h c = ground (arith, activate_from_lem before after f 0 s h c)

  activate_from-AreIncompatible :
      (formats : List AudioFormat) (index : ℕ) (s : AudioStream)
      → AreIncompatible formats
      → activate_from pcm_tag selects index formats s ≡ s
  unfolding activate_from
  activate_from-AreIncompatible [] index s h = refl
  activate_from-AreIncompatible (f ∷ formats) index s h =
      ground (arith, activate_from-AreIncompatible formats (suc index) s h.1)
