-- ===== src/Launch/Users.antt =====
-- server/main.cpp: the users of a server, from the command line or from the settings. The keychain is that of
-- ServerConfig; its jobs are given in the order in which they finish.
use kheadless_krdp.Prelude.{◌≡◌, sym, ◌∙◌, false, Option, none, some, List, [], ◌∷◌, ◌++◌, map, All}
use mathlib.Core.List.{append_assoc, append-nil}
use kheadless_krdp.Prelude.Texts.{Text}
use kheadless_krdp.Connection.Users.{User}
use kheadless_krdp.Server.{Server, add_user}
use kheadless_krdp.ServerConfig.{Keychain, ServerConfig}
use kheadless_krdp.ServerConfig.Accounts.{
  IsOpen, KeepsLatin1, Edit, HasLatin1Names, Accounts, names, edit_all, intend_all,
}
use kheadless_krdp.ServerConfig.Accounts.Refinement.{Holds, Represents, edit_all-Represents}

-- A User that may control the session, as its default is.
abbrev pub user_of : Text → Text → User
user_of name password = record { name = name; password = password; read_only = false }

-- The handler of a finished ReadPasswordJob, with what was read; `none` is an error.
pub on_password : Text → Option Text → Server → Server
on_password user_name none server = server
on_password user_name (some password) server = add_user (user_of user_name password) server

module _ (k : Keychain) (latin1 : Text → Text) where
  unfoldable pub read_users : List Text → k.State → Server → Server
  unfolding on_password
  read_users [] wallet server = server
  read_users (user_name ∷ rest) wallet server =
      read_users rest wallet (on_password user_name (k.read (latin1 user_name) wallet) server)

  -- `username` and `password` are the options; the latter is empty when it is not set.
  unfoldable pub add_users :
      (username : Option Text) (password : Text) (users : List Text) → k.State → Server → Server
  unfolding read_users
  add_users (some name) password users wallet server = add_user (user_of name password) server
  add_users none password users wallet server = read_users users wallet server

  read_users-Holds :
      (a : Accounts) (wallet : k.State) (server : Server)
      → KeepsLatin1 latin1
      → All (Holds k latin1 wallet) a
      → (read_users (names a) wallet server).users
        ≡ server.users ++ map (λ (name, password). user_of name password) a
  unfolding read_users add_user
  read_users-Holds [] wallet server kept h = sym (append-nil server.users)
  read_users-Holds ((name, password) ∷ a) wallet server kept h =
      rw (read_users, kept name h.0.0, h.0.1)
        (read_users-Holds a wallet (add_user (user_of name password) server) kept h.1
          ∙ append_assoc server.users (user_of name password ∷ []) _)

  -- The keychain is open, toLatin1 keeps Latin-1 texts and the names that are edited are such. Then, whatever is done in
  -- the settings, a server that is started on what was last saved, without a user on its command line, has for each
  -- account that was intended a user with its name and password, in the order of the accounts and behind those it had,
  -- and no other. The read jobs finish in the order in which they are started.
  pub add_users-edit_all :
      (es : List Edit) (a : Accounts) (m : ServerConfig k.State) (server : Server) (password : Text)
      → IsOpen k
      → KeepsLatin1 latin1
      → All HasLatin1Names es
      → Represents k latin1 a m
      → (let t = edit_all k latin1 es m in
          (add_users none password t.stored.users t.wallet server).users
          ≡ server.users ++ map (λ (name, password). user_of name password) (intend_all es a))
  unfolding add_users
  add_users-edit_all es a m server password o kept l r =
      let t = edit_all-Represents k latin1 o kept es a m l r in
      rw t.1 (read_users-Holds (intend_all es a) _ server kept t.2)
