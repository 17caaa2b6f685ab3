-- ===== src/Connection/Sam/Reading.antt =====
-- src/RdpConnection.cpp: the users that the SAM file holds.
use kheadless_krdp.Prelude.{
  ℕ, ◌+◌, ◌-◌, ◌*◌, ◌/◌, ◌%◌, ◌<◌, ◌≡◌, refl, ap, ◌∙◌, false, List, [], ◌∷◌, ◌++◌, map, ltb, ◌==◌,
  if◌then◌else◌, All, All-append, arith, ◌⊎◌, inl, inr,
}
use kheadless_krdp.Connection.Users.{User}
use kheadless_krdp.Connection.Sam.{hex_digit, hex, entry, sam_data}

-- The format FreeRDP documents, read from left to right: up to a mark, and what is behind it.
abbrev until : ℕ → List ℕ → List ℕ
until mark [] = []
until mark (c ∷ cs) = let rest = until mark cs in if c == mark then [] else c ∷ rest

abbrev behind : ℕ → List ℕ → List ℕ
behind mark [] = []
behind mark (c ∷ cs) = let rest = behind mark cs in if c == mark then cs else rest

abbrev hex_value : ℕ → ℕ
hex_value c = if ltb c 58 then c - 48 else c - 87

abbrev bytes_of : List ℕ → List ℕ
bytes_of [] = []
bytes_of (c ∷ []) = []
bytes_of (c ∷ d ∷ cs) = (hex_value c * 16 + hex_value d) ∷ bytes_of cs

-- A line has the name in its first field and the digest in its fourth.
abbrev read_line : List ℕ → List ℕ × List ℕ
read_line line = (until 58 line, bytes_of (until 58 (behind 58 (behind 58 (behind 58 line)))))

abbrev put : ℕ → List (List ℕ) → List (List ℕ)
put c [] = (c ∷ []) ∷ []
put c (line ∷ rest) = (c ∷ line) ∷ rest

-- The text cut at its newlines.
abbrev lines : List ℕ → List (List ℕ)
lines [] = []
lines (c ∷ cs) = let rest = lines cs in if c == 10 then [] ∷ rest else put c rest

abbrev pub read_sam : List ℕ → List (List ℕ × List ℕ)
read_sam text = map read_line (lines text)

abbrev Lacks : ℕ → List ℕ → Type 0
Lacks mark cs = All (λ c. (c == mark) ≡ false) cs

until-append : (mark : ℕ) (cs ds : List ℕ) → Lacks mark cs → until mark (cs ++ mark ∷ ds) ≡ cs
until-append mark [] ds h = ground arith
until-append mark (c ∷ cs) ds h = ground (arith, h.0, until-append mark cs ds h.1)

behind-append : (mark : ℕ) (cs ds : List ℕ) → Lacks mark cs → behind mark (cs ++ mark ∷ ds) ≡ ds
behind-append mark [] ds h = ground arith
behind-append mark (c ∷ cs) ds h = ground (arith, h.0, behind-append mark cs ds h.1)

lines-append : (cs ds : List ℕ) → Lacks 10 cs → lines (cs ++ 10 ∷ ds) ≡ cs ∷ lines ds
lines-append [] ds h = refl
lines-append (c ∷ cs) ds h = rw (h.0, lines-append cs ds h.1) refl

hex_digit-Lacks : (n mark : ℕ) → n < 16 → (mark ≡ 58) ⊎ (mark ≡ 10) → (hex_digit n == mark) ≡ false
hex_digit-Lacks n mark b m = ground arith

hex-Lacks :
    (mark : ℕ) (bytes : List ℕ)
    → (mark ≡ 58) ⊎ (mark ≡ 10)
    → All (λ byte. byte < 256) bytes
    → Lacks mark (hex bytes)
unfolding hex
hex-Lacks mark [] m b = tt
hex-Lacks mark (byte ∷ bytes) m b = (
  hex_digit-Lacks (byte / 16) mark (omega arith) m,
  (hex_digit-Lacks (byte % 16) mark (omega arith) m, hex-Lacks mark bytes m b.1),
)

hex_value-hex_digit : (n : ℕ) → n < 16 → hex_value (hex_digit n) ≡ n
hex_value-hex_digit n b = ground arith

bytes_of-hex : (bytes : List ℕ) → All (λ byte. byte < 256) bytes → bytes_of (hex bytes) ≡ bytes
unfolding hex
bytes_of-hex [] b = refl
bytes_of-hex (byte ∷ bytes) b =
    let high = hex_value-hex_digit (byte / 16) (omega arith) in
    let low = hex_value-hex_digit (byte % 16) (omega arith) in
    let whole : hex_value (hex_digit (byte / 16)) * 16 + hex_value (hex_digit (byte % 16)) ≡ byte =
      omega (arith, high, low) in
    ap (λ b. b ∷ bytes_of (hex bytes)) whole ∙ ap (λ bs. byte ∷ bs) (bytes_of-hex bytes b.1)

module _ (digest : List ℕ → List ℕ) where
  -- A name without a colon and a newline.
  abbrev IsPlain : User → Type 0
  IsPlain user = Lacks 58 user.name × Lacks 10 user.name

  read_line-entry :
      (user : User)
      → IsPlain user
      → All (λ byte. byte < 256) (digest user.password)
      → read_line (entry digest user) ≡ (user.name, digest user.password)
  unfolding entry
  read_line-entry user n b =
      let digits = hex (digest user.password) in
      let fields = 58 ∷ 58 ∷ (digits ++ 58 ∷ 58 ∷ 58 ∷ []) in
      rw
        (
          until-append 58 user.name fields n.0,
          behind-append 58 user.name fields n.0,
          until-append 58 digits (58 ∷ 58 ∷ []) (hex-Lacks 58 (digest user.password) (inl refl) b),
          bytes_of-hex (digest user.password) b,
        )
        refl

  entry-Lacks :
      (user : User)
      → IsPlain user
      → All (λ byte. byte < 256) (digest user.password)
      → Lacks 10 (entry digest user)
  unfolding entry
  entry-Lacks user n b =
      let digits = hex (digest user.password) in
      All-append (λ c. (c == 10) ≡ false) user.name (58 ∷ 58 ∷ 58 ∷ (digits ++ 58 ∷ 58 ∷ 58 ∷ []))
        n.1
        (
          refl,
          (
            refl,
            (
              refl,
              All-append (λ c. (c == 10) ≡ false) digits (58 ∷ 58 ∷ 58 ∷ [])
                  (hex-Lacks 10 (digest user.password) (inr refl) b) (refl, (refl, (refl, tt))),
            ),
          ),
        )

  -- No name has a colon or a newline, and the digests are of bytes. Then the file of FreeRDP's format, read line by line
  -- and field by field, gives back every user's name with the digest of the password, in the order of the users and
  -- nothing else.
  pub read_sam-sam_data :
      (users : List User)
      → All IsPlain users
      → All (λ user. All (λ byte. byte < 256) (digest user.password)) users
      → read_sam (sam_data digest users) ≡ map (λ user. (user.name, digest user.password)) users
  unfolding sam_data
  read_sam-sam_data [] n b = refl
  read_sam-sam_data (user ∷ users) n b =
      rw
        (
          lines-append (entry digest user) (sam_data digest users) (entry-Lacks user n.0 b.0),
          read_line-entry user n.0 b.0,
        )
        (ap (λ rest. (user.name, digest user.password) ∷ rest) (read_sam-sam_data users n.1 b.1))
