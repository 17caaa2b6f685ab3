-- ===== src/Caps/Choice.antt =====
-- Which capability set src/VideoStream.cpp confirms.
use kheadless_krdp.Prelude.{
  ℕ, ◌≤◌, ◌<◌, ◌≡◌, refl, sym, subst, Bool, true, false, ◌&&◌, ◌||◌, not, List, [], ◌∷◌, map, ltb,
  ◌==◌, if◌then◌else◌, any, All, arith, Bool-cases, ◌⊎◌, inl, inr,
}
use kheadless_krdp.VideoStream.{VideoStream}
use kheadless_krdp.Caps.{
  CapsConstants, CapSet, confirmed, closed_video_init_failed, has_flag, caps_information,
  is_supported, max_version, on_caps_advertise,
}

abbrev pub IsIn : CapSet → List CapSet → Type 0
IsIn a [] = ⊥
IsIn a (x ∷ xs) = (a ≡ x) ⊎ IsIn a xs

abbrev pub is_one_of : ℕ → List ℕ → Bool
is_one_of v [] = false
is_one_of v (x ∷ xs) = v == x || is_one_of v xs

module _ (c : CapsConstants) where
  -- The versions 10.4 to 10.7 have H.264 in YUV420 mode unless it is disabled; 10 to 10.3 do not; and 8.1 has it if it is
  -- enabled.
  abbrev pub has_avc420 : CapSet → Bool
  has_avc420 set =
      is_one_of set.version (c.version_104 ∷ c.version_105 ∷ c.version_106 ∷ c.version_107 ∷ [])
        && not (has_flag c set c.avc_disabled)
      || not (
          is_one_of set.version (
            c.version_10 ∷ c.version_101 ∷ c.version_102 ∷ c.version_103 ∷ c.version_104
            ∷ c.version_105 ∷ c.version_106 ∷ c.version_107 ∷ []))
        && set.version == c.version_81
        && has_flag c set c.avc420_enabled

  supported-has_avc420 : (set : CapSet) → is_supported c (caps_information c set) ≡ has_avc420 set
  unfolding caps_information
  supported-has_avc420 set = ground arith

  any_supported :
      (sets : List CapSet)
      → any (is_supported c) (map (caps_information c) sets) ≡ any has_avc420 sets
  any_supported [] = refl
  any_supported (set ∷ sets) = rw (supported-has_avc420 set, any_supported sets) refl

  cap_set_lem : (set : CapSet) → (caps_information c set).cap_set ≡ set
  unfolding caps_information
  cap_set_lem set = ground arith

  -- The greatest version, and its place among the sets.
  abbrev pub IsGreatest : CapSet → List CapSet → Type 0
  IsGreatest a sets = IsIn a sets × All (λ set. set.version ≤ a.version) sets

  abbrev later : CapSet → CapSet → CapSet
  later best set = if ltb best.version set.version then set else best

  later_lem :
      (best set : CapSet)
      → (if ltb (caps_information c best).cap_set.version (caps_information c set).cap_set.version
          then caps_information c set
          else caps_information c best)
        ≡ caps_information c (later best set)
  later_lem best set =
      subst
        (λ x.
          (if ltb x.version (caps_information c set).cap_set.version
            then caps_information c set
            else caps_information c best)
          ≡ caps_information c (later best set))
        (sym (cap_set_lem best))
        (subst
          (λ y.
            (if ltb best.version y.version then caps_information c set else caps_information c best)
            ≡ caps_information c (later best set))
          (sym (cap_set_lem set)) chosen)
    where
      chosen :
          (if ltb best.version set.version then caps_information c set else caps_information c best)
          ≡ caps_information c (later best set)
      chosen = ground arith

  IsGreatest-later :
      (a best set : CapSet) (sets : List CapSet)
      → IsGreatest a (later best set ∷ sets)
      → IsGreatest a (best ∷ set ∷ sets)
  IsGreatest-later a best set sets h = ground arith

  max_version-IsGreatest :
      (best : CapSet) (sets : List CapSet)
      → IsGreatest
          (max_version c (caps_information c best) (map (caps_information c) sets)).cap_set
          (best ∷ sets)
  unfolding max_version
  max_version-IsGreatest best [] = (inl (cap_set_lem best), (ground (arith, cap_set_lem best), tt))
  max_version-IsGreatest best (set ∷ sets) =
      subst
        (λ b.
          IsGreatest (max_version c b (map (caps_information c) sets)).cap_set (best ∷ set ∷ sets))
        (sym (later_lem best set))
        (IsGreatest-later _ best set sets (max_version-IsGreatest (later best set) sets))

  -- Capabilities are confirmed exactly when some set has H.264 in YUV420 mode; what is confirmed is then a set
  -- of the client's with the greatest version. Otherwise the connection closes and the stream stays unconfirmed.
  pub on_caps_advertise_lem :
      (sets : List CapSet) (s : VideoStream)
      → (any has_avc420 sets ≡ true
          × ((set : CapSet) × (on_caps_advertise c sets s
                ≡ (record s { caps_confirmed = true }, confirmed set))
              × IsGreatest set sets))
        ⊎ (any has_avc420 sets ≡ false × on_caps_advertise c sets s ≡ (s, closed_video_init_failed))
  unfolding on_caps_advertise
  on_caps_advertise_lem [] s = inr (refl, refl)
  on_caps_advertise_lem (set ∷ sets) s = elim (Bool-cases (any has_avc420 (set ∷ sets))) [
    | inl e ↦ inl (
      e,
      (
        (max_version c (caps_information c set) (map (caps_information c) sets)).cap_set,
        rw (any_supported (set ∷ sets), e) refl,
        max_version-IsGreatest set sets,
      ),
    )
    | inr e ↦ inr (e, rw (any_supported (set ∷ sets), e) refl)
  ]

  -- The confirmed set need not be one with H.264 in YUV420 mode: of two sets, one with it and one without it of a greater
  -- version, the latter is confirmed.
  pub confirms_without_avc420 :
      (with_it without : CapSet) (s : VideoStream)
      → has_avc420 with_it ≡ true
      → has_avc420 without ≡ false
      → with_it.version < without.version
      → on_caps_advertise c (with_it ∷ without ∷ []) s
        ≡ (record s { caps_confirmed = true }, confirmed without)
  unfolding on_caps_advertise
  confirms_without_avc420 a b s ha hb lt =
      rw (any_supported (a ∷ b ∷ []), ha, cap_set_lem a, cap_set_lem b, less, cap_set_lem b) refl
    where
      less : ltb a.version b.version ≡ true
      less = ground arith
