-- ===== src/Caps/Examples.antt =====
-- src/VideoStream.cpp, onCapsAdvertise, on two sets.
use kheadless_krdp.Prelude.{◌≡◌, ◌⊎◌, true, false, [], ◌∷◌, any}
use kheadless_krdp.VideoStream.{initial}
use kheadless_krdp.Caps.{
  CapsConstants, CapSet, confirmed, closed_video_init_failed, on_caps_advertise,
}
use kheadless_krdp.Caps.Choice.{has_avc420, IsGreatest, on_caps_advertise_lem}

abbrev constants : CapsConstants
constants = record {
  version_107 = 10;
  version_106 = 9;
  version_105 = 8;
  version_104 = 7;
  version_103 = 6;
  version_102 = 5;
  version_101 = 4;
  version_10 = 3;
  version_81 = 2;
  avc_disabled = 32;
  avc420_enabled = 16;
}

abbrev enabled_81 : CapSet
enabled_81 = record { version = 2; flags = 16 }

abbrev disabled_104 : CapSet
disabled_104 = record { version = 7; flags = 32 }

on_caps_advertise_lem_example :
    ((any (has_avc420 constants) (enabled_81 ∷ disabled_104 ∷ []) ≡ true)
      × ((set : CapSet) × (on_caps_advertise constants (enabled_81 ∷ disabled_104 ∷ []) initial
            ≡ (record initial { caps_confirmed = true }, confirmed set))
          × IsGreatest constants set (enabled_81 ∷ disabled_104 ∷ [])))
    ⊎ ((any (has_avc420 constants) (enabled_81 ∷ disabled_104 ∷ []) ≡ false)
        × (on_caps_advertise constants (enabled_81 ∷ disabled_104 ∷ []) initial
            ≡ (initial, closed_video_init_failed)))
on_caps_advertise_lem_example =
    on_caps_advertise_lem constants (enabled_81 ∷ disabled_104 ∷ []) initial
