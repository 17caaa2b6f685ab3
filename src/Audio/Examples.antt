-- ===== src/Audio/Examples.antt =====
-- src/AudioStream.cpp: a client with two formats, and six bytes of samples.
use kheadless_krdp.Prelude.{ℕ, ◌<◌, ◌≡◌, ◌⊎◌, refl, true, false, ◌&&◌, List, [], ◌∷◌, ◌++◌, length}
use kheadless_krdp.Audio.{
  AudioFormat, AudioPacket, AudioStream, initial, initialize, send_samples, close,
}
use kheadless_krdp.Audio.Packets.{IsPacketOf, send_samples-packet}

abbrev opened : AudioStream
opened = record initial {
  has_context = true;
  has_server_format = true;
  has_source_format = true;
  started = 7;
}

initialize_test : initialize true true true true 7 initial ≡ (opened, true)
unfolding initialize
initialize_test = refl

initialize_fails_test :
    initialize true false true true 7 initial ≡ (record initial { has_source_format = true }, false)
unfolding initialize close
initialize_fails_test = refl

abbrev mono : AudioFormat
mono = record { format_tag = 1; channels = 1; samples_per_second = 48000; bits_per_sample = 16 }

abbrev stereo : AudioFormat
stereo = record { format_tag = 1; channels = 2; samples_per_second = 48000; bits_per_sample = 16 }

abbrev playing : AudioStream
playing = record opened { active = true; announced = 1 }

abbrev six_bytes : List ℕ
six_bytes = 1 ∷ 2 ∷ 3 ∷ 4 ∷ 5 ∷ 6 ∷ []

send_samples-packet_example :
    (send_samples 5000007 six_bytes playing ≡ playing)
      × (((playing.active && playing.has_context) ≡ false) ⊎ (length six_bytes < 4))
    ⊎ (p : AudioPacket) × (send_samples 5000007 six_bytes playing
        ≡ record playing { sent = playing.sent ++ p ∷ [] })
      × ((playing.active && playing.has_context) ≡ true)
      × IsPacketOf six_bytes p
send_samples-packet_example = send_samples-packet 5000007 six_bytes playing
