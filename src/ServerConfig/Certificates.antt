-- ===== src/ServerConfig/Certificates.antt =====
-- src/kcm/kcmkrdpserver.cpp: when a certificate is generated.
use kheadless_krdp.Prelude.{◌≡◌, refl, Bool, true, ◌||◌, not, Bool-cases, inl, inr}
use kheadless_krdp.Prelude.Texts.{Text, is_empty, is_empty-append}
use kheadless_krdp.ServerConfig.{ServerConfig, generate_certificate}

module _ {S : Type 0} where
  abbrev is_set : ServerConfig S → Bool
  is_set m = not (is_empty m.settings.certificate) || not (is_empty m.settings.certificate_key)

  generate_certificate-set :
      (location : Text) (exists : Text → Bool) (m : ServerConfig S)
      → is_set m ≡ true
      → generate_certificate location exists m ≡ m
  unfolding generate_certificate
  generate_certificate-set location exists m set = rw set refl

  generate_certificate-is_set :
      (location : Text) (exists : Text → Bool) (m : ServerConfig S)
      → is_set (generate_certificate location exists m) ≡ true
  unfolding generate_certificate
  generate_certificate-is_set location exists m = elim (Bool-cases (is_set m)) [
    | inl set ↦ rw set set
    | inr empty ↦ rw (empty, is_empty-append location 47 _) refl
  ]

  -- However it ends, also when openssl made no files, generating a certificate is never tried again: each later
  -- call, with no change of the settings in between, changes nothing and announces nothing, whatever files there are then.
  pub generate_certificate-once :
      (location : Text) (exists exists_later : Text → Bool) (m : ServerConfig S)
      → generate_certificate location exists_later (generate_certificate location exists m)
        ≡ generate_certificate location exists m
  generate_certificate-once location exists exists_later m =
      generate_certificate-set location exists_later (generate_certificate location exists m)
        (generate_certificate-is_set location exists m)
