-- ===== src/Connection/Examples.antt =====
-- src/RdpConnection.cpp: two users, one of whom may only look on, and their SAM file.
use kheadless_krdp.Prelude.{ℕ, ◌≡◌, refl, true, false, List, [], ◌∷◌, arith}
use kheadless_krdp.Connection.Sam.{sam_data}
use kheadless_krdp.Connection.Sam.Reading.{read_sam, read_sam-sam_data}
use kheadless_krdp.Connection.Users.{User}

abbrev ann : User
ann = record { name = 97 ∷ []; password = 1 ∷ []; read_only = true }

abbrev bob : User
bob = record { name = 98 ∷ []; password = 2 ∷ []; read_only = false }

-- Two bytes in place of sixteen.
abbrev digest : List ℕ → List ℕ
digest password = 10 ∷ 255 ∷ []

read_sam-sam_data_example :
    read_sam (sam_data digest (ann ∷ bob ∷ []))
    ≡ (97 ∷ [], 10 ∷ 255 ∷ []) ∷ (98 ∷ [], 10 ∷ 255 ∷ []) ∷ []
read_sam-sam_data_example =
    read_sam-sam_data digest (ann ∷ bob ∷ [])
      (((refl, tt), (refl, tt)), (((refl, tt), (refl, tt)), tt))
      ((omega arith, (omega arith, tt)), ((omega arith, (omega arith, tt)), tt))
