-- ===== src/Audio.antt =====
-- src/AudioStream.cpp: the playback channel. FreeRDP's answers are arguments, and packets of samples are appended to
-- `sent`. Times are nanoseconds of a steady clock.
pub mod Formats
pub mod Packets
mod Examples
use kheadless_krdp.Prelude.{
  ℕ, suc, zero, ◌+◌, ◌-◌, ◌*◌, ◌/◌, ◌%◌, ◌^◌, Bool, true, false, ◌&&◌, ◌||◌, not, List, [], ◌∷◌,
  ◌++◌, ◌==◌, if◌then◌else◌, length,
}

-- The members of AUDIO_FORMAT that the code reads.
pub record AudioFormat : Type 0 where
  pub format_tag : ℕ
  pub channels : ℕ
  pub samples_per_second : ℕ
  pub bits_per_sample : ℕ

-- The arguments of SendSamples, with the bytes of that many frames.
pub record AudioPacket : Type 0 where
  pub samples : List ℕ
  pub frames : ℕ
  pub timestamp : ℕ

-- AudioStream::Private: which of its three pointers are set, and the number of activeChanged signals.
pub record AudioStream : Type 0 where
  pub has_context : Bool
  pub has_server_format : Bool
  pub has_source_format : Bool
  pub active : Bool
  pub started : ℕ
  pub announced : ℕ
  pub sent : List AudioPacket

abbrev pub initial : AudioStream
initial = record {
  has_context = false;
  has_server_format = false;
  has_source_format = false;
  active = false;
  started = 0;
  announced = 0;
  sent = [];
}

abbrev pub take : ℕ → List ℕ → List ℕ
take zero bytes = []
take (suc n) [] = []
take (suc n) (b ∷ bytes) = b ∷ take n bytes

unfoldable pub close : AudioStream → AudioStream
close s = record s {
  has_context = false;
  has_server_format = if s.has_context then false else s.has_server_format;
  active = false;
  announced = s.announced + (if s.active then 1 else 0);
}

-- What could be allocated, whether the channel was initialized, and the time.
unfoldable pub initialize :
    (context server_format source_format initialized : Bool) → ℕ → AudioStream → AudioStream × Bool
initialize context server_format source_format initialized now s =
    if s.has_context
    then (s, true)
    else if not context || not server_format || not source_format
    then (
      close (record s {
        has_context = context;
        has_server_format = false;
        has_source_format = source_format;
      }),
      false,
    )
    else (let t = record s {
      has_context = true;
      has_server_format = true;
      has_source_format = true;
    } in
        if not initialized then (close t, false) else (record t { started = now }, true))

unfoldable pub send_samples : (now : ℕ) (pcm : List ℕ) → AudioStream → AudioStream
send_samples now pcm s =
    let byte_count = length pcm - length pcm % 4 in
    if not s.active || not s.has_context || length pcm == 0
    then s
    else if byte_count == 0
    then s
    else record s {
      sent =
          s.sent
          ++ record {
            samples = take byte_count pcm;
            frames = byte_count / 4;
            timestamp = (now - s.started) / 1000000 % 2 ^ 16;
          }
            ∷ [];
    }

module _ (pcm_tag : ℕ) (selects : ℕ → Bool) where
  pub is_compatible : AudioFormat → Bool
  is_compatible f =
      f.format_tag == pcm_tag
      && f.channels == 2
      && f.samples_per_second == 48000
      && f.bits_per_sample == 16

  -- The loop over the client's formats. `selects` says for which index SelectFormat returns CHANNEL_RC_OK.
  activate_from : ℕ → List AudioFormat → AudioStream → AudioStream
  activate_from index [] s = s
  activate_from index (f ∷ formats) s =
      let rest = activate_from (suc index) formats s in
      if is_compatible f
      then if selects index then record s { active = true; announced = s.announced + 1 } else s
      else rest

  unfoldable pub activated : List AudioFormat → AudioStream → AudioStream
  unfolding activate_from
  activated formats s = activate_from 0 formats s
