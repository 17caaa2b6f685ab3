-- ===== src/Connection/Users.antt =====
-- The users of src/Server.cpp and what RdpConnection::onPostConnect of src/RdpConnection.cpp looks up in them.
-- Texts are lists of UTF-16 code units. `same` is QString::compare without regard to case.
use kheadless_krdp.Prelude.{
  ℕ, ◌≡◌, Bool, true, false, Option, none, some, List, [], ◌∷◌, ◌++◌, if◌then◌else◌, All, arith,
}

pub record User : Type 0 where
  pub name : List ℕ
  pub password : List ℕ
  pub read_only : Bool

-- A name that is not given by the client is null or has no units.
abbrev pub user_name : Option (List ℕ) → List ℕ
user_name none = []
user_name (some name) = name

module _ (same : List ℕ → List ℕ → Bool) where
  pub find_user : List ℕ → List User → Option User
  find_user name [] = none
  find_user name (user ∷ users) =
      let rest = find_user name users in if same user.name name then some user else rest

  unfoldable pub is_read_only : List ℕ → List User → Bool
  unfolding find_user
  is_read_only name users = elim (find_user name users) [
    | none ↦ false
    | some user ↦ user.read_only
  ]

  abbrev pub AreOthers : List ℕ → List User → Type 0
  AreOthers name users = All (λ user. same user.name name ≡ false) users

  -- The first user whose name is the client's, but for case, decides whether the client may only look on, and a
  -- client that no user matches may do more than that.
  pub is_read_only_lem :
      (name : List ℕ) (before after : List User) (user : User)
      → AreOthers name before
      → same user.name name ≡ true
      → (is_read_only name (before ++ user ∷ after) ≡ user.read_only)
        × (is_read_only name before ≡ false)
  unfolding is_read_only find_user
  is_read_only_lem name [] after user h s = ground (arith, s)
  is_read_only_lem name (other ∷ before) after user h s =
      rw (is_read_only, find_user, h.0) (is_read_only_lem name before after user h.1 s)
