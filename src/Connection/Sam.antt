-- ===== src/Connection/Sam.antt =====
-- createSamFile of src/RdpConnection.cpp: the text that FreeRDP reads the users' names and password hashes from, in
-- UTF-16 code units before it is written as UTF-8. `digest` is NTOWFv1A of the UTF-8 of a password, 16 bytes.
pub mod Reading
use kheadless_krdp.Prelude.{
  ℕ, ◌+◌, ◌/◌, ◌%◌, Bool, true, false, List, [], ◌∷◌, ◌++◌, ltb, if◌then◌else◌,
}
use kheadless_krdp.Connection.Users.{User}

-- A digit of QString::arg in base 16.
abbrev pub hex_digit : ℕ → ℕ
hex_digit n = if ltb n 10 then 48 + n else 87 + n

-- The inner loop: two digits for each byte, with a leading zero.
pub hex : List ℕ → List ℕ
hex [] = []
hex (byte ∷ bytes) = hex_digit (byte / 16) ∷ hex_digit (byte % 16) ∷ hex bytes

module _ (digest : List ℕ → List ℕ) where
  -- The name, three colons, the digest and three colons: 58 is the colon.
  pub entry : User → List ℕ
  unfolding hex
  entry user = user.name ++ (58 ∷ 58 ∷ 58 ∷ (hex (digest user.password) ++ 58 ∷ 58 ∷ 58 ∷ []))

  -- 10 is the newline.
  unfoldable pub sam_data : List User → List ℕ
  unfolding entry
  sam_data [] = []
  sam_data (user ∷ users) = entry user ++ (10 ∷ sam_data users)

  -- What is written, and whether the file could be opened.
  unfoldable pub create_sam_file : (opened : Bool) → List User → List ℕ × Bool
  create_sam_file opened users = if opened then (sam_data users, true) else ([], false)
