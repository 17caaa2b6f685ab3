-- ===== src/Caps.antt =====
-- src/VideoStream.cpp, onCapsAdvertise: the choice among the capability sets that a client advertises. FreeRDP's
-- constants are parameters.
pub mod Choice
mod Examples
use kheadless_krdp.Prelude.{
  ℕ, ◌≡◌, refl, Bool, true, false, ◌&&◌, ◌||◌, not, Option, none, some, List, [], ◌∷◌, map, ltb,
  ◌==◌, if◌then◌else◌, bit_and, any,
}
use kheadless_krdp.VideoStream.{VideoStream}

-- RDPGFX_CAPVERSION_* and the two flags.
pub record CapsConstants : Type 0 where
  pub version_107 : ℕ
  pub version_106 : ℕ
  pub version_105 : ℕ
  pub version_104 : ℕ
  pub version_103 : ℕ
  pub version_102 : ℕ
  pub version_101 : ℕ
  pub version_10 : ℕ
  pub version_81 : ℕ
  pub avc_disabled : ℕ
  pub avc420_enabled : ℕ

-- RDPGFX_CAPSET.
pub record CapSet : Type 0 where
  pub version : ℕ
  pub flags : ℕ

pub record RdpCapsInformation : Type 0 where
  pub cap_set : CapSet
  pub avc_supported : Bool
  pub yuv420_supported : Bool

-- What the client is told: the set that is confirmed, or that the connection closes with VideoInitFailed.
pub data Answer : Type 0 where
  confirmed : CapSet → Answer
  closed_video_init_failed : Answer

module _ (c : CapsConstants) where
  -- The labels of the switch that fall through to each other.
  abbrev pub has_yuv420 : ℕ → Bool
  has_yuv420 v =
      v == c.version_107 || v == c.version_106 || v == c.version_105 || v == c.version_104

  abbrev pub may_disable_avc : ℕ → Bool
  may_disable_avc v =
      has_yuv420 v
      || v == c.version_103
      || v == c.version_102
      || v == c.version_101
      || v == c.version_10

  abbrev pub has_flag : CapSet → ℕ → Bool
  has_flag set flag = not (bit_and set.flags flag == 0)

  pub caps_information : CapSet → RdpCapsInformation
  caps_information set =
      if may_disable_avc set.version
      then record {
        cap_set = set;
        avc_supported = not (has_flag set c.avc_disabled);
        yuv420_supported = has_yuv420 set.version;
      }
      else if set.version == c.version_81 && has_flag set c.avc420_enabled
      then record { cap_set = set; avc_supported = true; yuv420_supported = true }
      else record { cap_set = set; avc_supported = false; yuv420_supported = false }

  abbrev pub is_supported : RdpCapsInformation → Bool
  is_supported caps = caps.avc_supported && caps.yuv420_supported

  -- std::max_element by version: the first of the greatest.
  pub max_version : RdpCapsInformation → List RdpCapsInformation → RdpCapsInformation
  max_version best [] = best
  max_version best (caps ∷ rest) =
      max_version (if ltb best.cap_set.version caps.cap_set.version then caps else best) rest

  confirm : List RdpCapsInformation → VideoStream → VideoStream × Answer
  confirm [] s = (s, closed_video_init_failed)
  confirm (caps ∷ rest) s =
      (record s { caps_confirmed = true }, confirmed (max_version caps rest).cap_set)

  unfoldable pub on_caps_advertise : List CapSet → VideoStream → VideoStream × Answer
  unfolding caps_information confirm max_version
  on_caps_advertise sets s =
      let information = map caps_information sets in
      if any is_supported information then confirm information s else (s, closed_video_init_failed)
