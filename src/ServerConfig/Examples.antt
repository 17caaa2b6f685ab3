-- ===== src/ServerConfig/Examples.antt =====
-- src/kcm/kcmkrdpserver.cpp with a keychain that is a list, the newest entry first.
use kheadless_krdp.Prelude.{
  ◌≡◌, refl, ap, ◌∙◌, true, false, Option, none, some, List, [], ◌∷◌, map, ltb, if◌then◌else◌,
  arith,
}
use kheadless_krdp.Prelude.Int.{pos}
use kheadless_krdp.Prelude.Texts.{Text, eq_text}
use kheadless_krdp.ServerConfig.{
  Settings, Keychain, ServerConfig, generate_certificate, listen_address_list,
}
use kheadless_krdp.ServerConfig.Accounts.{IsOpen, KeepsLatin1}
use kheadless_krdp.ServerConfig.Certificates.{generate_certificate-once}

abbrev pub Entries : Type 0
Entries = List (Text × Option Text)

pub look_up : Text → Entries → Option Text
look_up key [] = none
look_up key ((k, p) ∷ rest) = if eq_text k key then p else look_up key rest

abbrev pub keychain : Keychain
keychain = record {
  State = Entries;
  write = λ key password s. ((key, some password) ∷ s, true);
  delete = λ key s. ((key, none) ∷ s, true);
  read = λ key s. look_up key s;
}

pub keychain-IsOpen : IsOpen keychain
unfolding look_up
keychain-IsOpen = record {
  read-write = λ key password other s. refl;
  read-delete = λ key other s. refl;
}

-- A character that is not Latin-1 becomes a question mark.
abbrev pub latin1 : Text → Text
latin1 text = map (λ c. if ltb c 256 then c else 63) text

pub latin1-KeepsLatin1 : KeepsLatin1 latin1
latin1-KeepsLatin1 [] h = refl
latin1-KeepsLatin1 (c ∷ cs) h =
    let kept : (if ltb c 256 then c else 63) ≡ c = ground arith in
    ap (λ d. d ∷ latin1 cs) kept ∙ ap (λ ds. c ∷ ds) (latin1-KeepsLatin1 cs h.1)

abbrev pub settings : Settings
settings = record {
  listen_port = pos 3389;
  autogenerate_certificates = true;
  certificate = [];
  certificate_key = [];
  quality = pos 50;
  users = [];
  autostart = false;
}

abbrev pub fresh : ServerConfig Entries
fresh = record { settings = settings; stored = settings; wallet = []; signals = []; bus_calls = [] }

addresses_test :
    listen_address_list (
      record { is_loop_back = true; addresses = (true, 1 ∷ []) ∷ [] }
      ∷ record { is_loop_back = false; addresses = (false, 2 ∷ []) ∷ (true, 3 ∷ []) ∷ [] }
      ∷ [])
    ≡ (3 ∷ []) ∷ []
unfolding listen_address_list
addresses_test = refl

generate_certificate-once_example :
    generate_certificate
      (100 ∷ [])
      (λ path. true)
      (generate_certificate (100 ∷ []) (λ path. false) fresh)
    ≡ generate_certificate (100 ∷ []) (λ path. false) fresh
generate_certificate-once_example =
    generate_certificate-once (100 ∷ []) (λ path. false) (λ path. true) fresh
