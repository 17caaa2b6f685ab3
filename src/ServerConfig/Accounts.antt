-- ===== src/ServerConfig/Accounts.antt =====
-- src/kcm/kcmkrdpserver.cpp with the start of server/main.cpp: which users can sign in, and with which passwords, after
-- what was done in the settings.
pub mod Refinement
pub mod SharedKeys
use kheadless_krdp.Prelude.{
  ℕ, ◌<◌, ◌≡◌, ◌≢◌, refl, sym, ◌∙◌, ap, Bool, true, false, ◌||◌, not, Option, none, some, List, [],
  ◌∷◌, ◌++◌, map, if◌then◌else◌, All, All-append, arith, Bool-cases, inl, inr,
}
use kheadless_krdp.Prelude.Texts.{Text, is_empty, eq_text, eq_text_iff, has_text, remove_text}
use kheadless_krdp.ServerConfig.{
  Settings, Keychain, ServerConfig, write_password_to_wallet, delete_password_from_wallet,
  read_password_from_wallet, save, defaults, user_exists, add_user, modify_user, delete_user,
  without, generate_certificate, set_users,
}

-- A keychain that is open: what was written for a key is read back, until it is deleted or written again.
pub record IsOpen (k : Keychain) : Type 0 where
  pub read-write :
      (key password other : Text) (s : k.State)
      → k.read other (k.write key password s).0
        ≡ (if eq_text key other then some password else k.read other s)
  pub read-delete :
      (key other : Text) (s : k.State)
      → k.read other (k.delete key s).0 ≡ (if eq_text key other then none else k.read other s)

-- The Latin-1 characters are the first 256 code points, and are kept by toLatin1.
abbrev pub IsLatin1 : Text → Type 0
IsLatin1 text = All (λ c. c < 256) text

abbrev pub KeepsLatin1 : (Text → Text) → Type 0
KeepsLatin1 latin1 = (text : Text) → IsLatin1 text → latin1 text ≡ text

-- What is done in the settings.
pub data Edit : Type 0 where
  adds : (username password : Text) → Edit
  modifies : (old_username new_username new_password : Text) → Edit
  deletes_user : (username : Text) → Edit
  reads : (username : Text) → Edit
  resets : (Settings → Settings) → Edit
  saves : Edit
  generates : (location : Text) (exists : Text → Bool) → Edit

module _ (k : Keychain) (latin1 : Text → Text) where
  abbrev pub edit : Edit → ServerConfig k.State → ServerConfig k.State
  edit (adds username password) m = add_user k latin1 username password m
  edit (modifies old new password) m = modify_user k latin1 old new password m
  edit (deletes_user username) m = delete_user k latin1 username m
  edit (reads username) m = read_password_from_wallet k latin1 username m
  edit (resets reset) m = defaults reset m
  edit saves m = save m
  edit (generates location exists) m = generate_certificate location exists m

  abbrev pub edit_all : List Edit → ServerConfig k.State → ServerConfig k.State
  edit_all [] m = m
  edit_all (e ∷ es) m = edit_all es (edit e m)

-- The names that an edit writes or deletes are Latin-1.
abbrev pub HasLatin1Names : Edit → Type 0
HasLatin1Names (adds username password) = IsLatin1 username
HasLatin1Names (modifies old new password) = IsLatin1 old × IsLatin1 new
HasLatin1Names (deletes_user username) = IsLatin1 username
HasLatin1Names _ = Unit

-- The accounts that a user of the settings has in mind: names with passwords.
abbrev pub Accounts : Type 0
Accounts = List (Text × Text)

abbrev pub names : Accounts → List Text
names [] = []
names ((name, password) ∷ rest) = name ∷ names rest

unfoldable pub change : Text → Text → Accounts → Accounts
change name password [] = []
change name password ((n, p) ∷ rest) =
    (n, if eq_text name n then password else p) ∷ change name password rest

unfoldable pub drop_account : Text → Accounts → Accounts
drop_account name [] = []
drop_account name ((n, p) ∷ rest) =
    let others = drop_account name rest in if eq_text n name then others else (n, p) ∷ others

unfoldable pub add_account : Text → Text → Accounts → Accounts
unfolding change
add_account name password accounts = change name password accounts ++ (name, password) ∷ []

abbrev pub intend : Edit → Accounts → Accounts
intend (adds username password) accounts =
    if is_empty username then accounts else add_account username password accounts
intend (modifies old new password) accounts =
    if has_text new (names accounts)
    then accounts
    else if not (is_empty new)
    then add_account new password (drop_account old accounts)
    else if is_empty old
    then accounts
    else change old password accounts
intend (deletes_user username) accounts =
    if is_empty username then accounts else drop_account username accounts
intend _ accounts = accounts

abbrev pub intend_all : List Edit → Accounts → Accounts
intend_all [] accounts = accounts
intend_all (e ∷ es) accounts = intend_all es (intend e accounts)
