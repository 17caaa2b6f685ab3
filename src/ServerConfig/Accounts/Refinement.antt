-- ===== src/ServerConfig/Accounts/Refinement.antt =====
-- src/kcm/kcmkrdpserver.cpp: the settings and the keychain hold the accounts that were intended.
use kheadless_krdp.Prelude.{
  ◌≡◌, refl, sym, ◌∙◌, ap, Bool, true, false, ◌||◌, not, some, List, [], ◌∷◌, ◌++◌, if◌then◌else◌,
  All, All-append, arith, Bool-cases, inl, inr,
}
use kheadless_krdp.Prelude.Texts.{Text, is_empty, eq_text, eq_text_iff, has_text, remove_text}
use kheadless_krdp.ServerConfig.{
  Keychain, ServerConfig, read_password_from_wallet, save, defaults, user_exists, add_user,
  modify_user, delete_user, without, generate_certificate,
}
use kheadless_krdp.ServerConfig.Accounts.{
  IsOpen, IsLatin1, KeepsLatin1, Edit, adds, modifies, deletes_user, reads, resets, saves,
  generates, edit, edit_all, HasLatin1Names, Accounts, names, change, drop_account, add_account,
  intend, intend_all,
}

names-append : (a b : Accounts) → names (a ++ b) ≡ names a ++ names b
names-append [] b = refl
names-append ((n, p) ∷ a) b = ap (λ rest. n ∷ rest) (names-append a b)

names-change : (name password : Text) (a : Accounts) → names (change name password a) ≡ names a
unfolding change
names-change name password [] = refl
names-change name password ((n, p) ∷ a) = ap (λ rest. n ∷ rest) (names-change name password a)

names-add_account :
    (name password : Text) (a : Accounts)
    → names (add_account name password a) ≡ names a ++ name ∷ []
unfolding add_account
names-add_account name password a =
    names-append (change name password a) _
    ∙ ap (λ xs. xs ++ name ∷ []) (names-change name password a)

names-drop_account :
    (name : Text) (a : Accounts) → names (drop_account name a) ≡ remove_text name (names a)
unfolding drop_account remove_text
names-drop_account name [] = refl
names-drop_account name ((n, p) ∷ a) = ground (arith, names-drop_account name a)

-- To look before removing makes no difference.
without_lem : (name : Text) (users : List Text) → without name users ≡ remove_text name users
unfolding has_text remove_text
without_lem name [] = refl
without_lem name (user ∷ users) = ground (arith, without_lem name users)

module _ (k : Keychain) (latin1 : Text → Text) where
  -- The keychain has an account's password under its name.
  abbrev pub Holds : k.State → Text × Text → Type 0
  Holds wallet (name, password) = IsLatin1 name × (k.read name wallet ≡ some password)

  abbrev pub Represents : Accounts → ServerConfig k.State → Type 0
  Represents a m =
      (m.settings.users ≡ names a) × (m.stored.users ≡ names a) × All (Holds m.wallet) a

  module _ (o : IsOpen k) (kept : KeepsLatin1 latin1) where
    change-Holds :
        (name password : Text) (wallet : k.State) (a : Accounts)
        → All (Holds wallet) a
        → All (Holds (k.write name password wallet).0) (change name password a)
    unfolding change
    change-Holds name password wallet [] h = tt
    change-Holds name password wallet ((n, p) ∷ a) h = (
      (h.0.0, o.read-write name password n wallet ∙ ground (arith, h.0.1)),
      change-Holds name password wallet a h.1,
    )

    add_account-Holds :
        (name password : Text) (wallet : k.State) (a : Accounts)
        → IsLatin1 name
        → All (Holds wallet) a
        → All (Holds (k.write name password wallet).0) (add_account name password a)
    unfolding add_account
    add_account-Holds name password wallet a l h =
        All-append (Holds (k.write name password wallet).0) (change name password a)
          ((name, password) ∷ []) (change-Holds name password wallet a h)
          (
            (
              l,
              o.read-write name password name wallet
                  ∙ ground (arith, (eq_text_iff name name).1 refl),
            ),
            tt,
          )

    drop_account-Holds :
        (name : Text) (wallet : k.State) (a : Accounts)
        → All (Holds wallet) a
        → All (Holds (k.delete name wallet).0) (drop_account name a)
    unfolding drop_account
    drop_account-Holds name wallet [] h = tt
    drop_account-Holds name wallet ((n, p) ∷ a) h = elim (Bool-cases (eq_text n name)) [
      | inl same ↦ rw same (drop_account-Holds name wallet a h.1)
      | inr other ↦ rw other (
        (
          h.0.0,
          o.read-delete name n wallet
              ∙ ground (arith, h.0.1, eq_text_iff n name, eq_text_iff name n),
        ),
        drop_account-Holds name wallet a h.1,
      )
    ]

    add_user-Represents :
        (name password : Text) (a : Accounts) (m : ServerConfig k.State)
        → IsLatin1 name
        → Represents a m
        → Represents (intend (adds name password) a) (add_user k latin1 name password m)
    unfolding add_user
    add_user-Represents name password a m l (now, old, h) = elim (Bool-cases (is_empty name)) [
      | inl none_given ↦ rw none_given (now, now, h)
      | inr given ↦
          let users = ap (λ xs. xs ++ name ∷ []) now ∙ sym (names-add_account name password a) in
          rw (given, kept name l) (users, users, add_account-Holds name password m.wallet a l h)
    ]

    delete_user-Represents :
        (name : Text) (a : Accounts) (m : ServerConfig k.State)
        → IsLatin1 name
        → Represents a m
        → Represents (intend (deletes_user name) a) (delete_user k latin1 name m)
    unfolding delete_user
    delete_user-Represents name a m l (now, old, h) = elim (Bool-cases (is_empty name)) [
      | inl none_given ↦ rw none_given (now, now, h)
      | inr given ↦
          let users =
            without_lem name m.settings.users
            ∙ ap (remove_text name) now
            ∙ sym (names-drop_account name a) in
          rw (given, kept name l) (users, users, drop_account-Holds name m.wallet a h)
    ]

    rename-Represents :
        (old new password : Text) (a : Accounts) (m : ServerConfig k.State)
        → IsLatin1 old
        → IsLatin1 new
        → user_exists new m ≡ false
        → is_empty new ≡ false
        → Represents a m
        → Represents
            (add_account new password (drop_account old a))
            (modify_user k latin1 old new password m)
    unfolding modify_user
    rename-Represents old new password a m lo ln absent given (now, stored, h) =
        let users =
          ap (λ xs. xs ++ new ∷ [])
            (without_lem old m.settings.users
              ∙ ap (remove_text old) now
              ∙ sym (names-drop_account old a))
          ∙ sym (names-add_account new password (drop_account old a)) in
        let wallet = (k.delete old m.wallet).0 in
        rw (absent, given, kept old lo, kept new ln)
          (
            users,
            users,
            add_account-Holds new password wallet (drop_account old a) ln
                (drop_account-Holds old m.wallet a h),
          )

    change-Represents :
        (old new password : Text) (a : Accounts) (m : ServerConfig k.State)
        → IsLatin1 old
        → user_exists new m ≡ false
        → is_empty new ≡ true
        → Represents a m
        → Represents
            (if is_empty old then a else change old password a)
            (modify_user k latin1 old new password m)
    unfolding modify_user
    change-Represents old new password a m lo absent nothing (now, stored, h) =
        elim (Bool-cases (is_empty old)) [
          | inl none_given ↦ rw (absent, nothing, none_given) (now, now, h)
          | inr given ↦
              let users = now ∙ sym (names-change old password a) in
              rw (absent, nothing, given, kept old lo)
                (users, users, change-Holds old password m.wallet a h)
        ]

    modify_user-Represents :
        (old new password : Text) (a : Accounts) (m : ServerConfig k.State)
        → IsLatin1 old
        → IsLatin1 new
        → Represents a m
        → Represents
            (intend (modifies old new password) a)
            (modify_user k latin1 old new password m)
    unfolding user_exists
    modify_user-Represents old new password a m lo ln r =
        let asked : user_exists new m ≡ has_text new (names a) = ap (has_text new) r.0 in
        elim (Bool-cases (has_text new (names a))) [
          | inl present ↦ rw present (unfold modify_user in rw (asked ∙ present) r)
          | inr absent ↦ elim (Bool-cases (is_empty new)) [
            | inl nothing ↦
                rw (absent, nothing)
                  (change-Represents old new password a m lo (asked ∙ absent) nothing r)
            | inr given ↦
                rw (absent, given)
                  (rename-Represents old new password a m lo ln (asked ∙ absent) given r)
          ]
        ]

    generate-Represents :
        (location : Text) (exists : Text → Bool) (a : Accounts) (m : ServerConfig k.State)
        → Represents a m
        → Represents a (generate_certificate location exists m)
    unfolding generate_certificate
    generate-Represents location exists a m (now, stored, h) =
        elim (Bool-cases
          (not (is_empty m.settings.certificate) || not (is_empty m.settings.certificate_key))) [
            | inl present ↦ rw present (now, stored, h)
            | inr absent ↦ rw absent (now, now, h)
          ]

    read-Represents :
        (name : Text) (a : Accounts) (m : ServerConfig k.State)
        → Represents a m
        → Represents a (read_password_from_wallet k latin1 name m)
    unfolding read_password_from_wallet
    read-Represents name a m (now, stored, h) = elim (Bool-cases (is_empty name)) [
      | inl none_given ↦ rw none_given (now, stored, h)
      | inr given ↦ rw given (now, stored, h)
    ]

    edit-Represents :
        (e : Edit) (a : Accounts) (m : ServerConfig k.State)
        → HasLatin1Names e
        → Represents a m
        → Represents (intend e a) (edit k latin1 e m)
    unfolding defaults save
    edit-Represents (adds name password) a m l r = add_user-Represents name password a m l r
    edit-Represents (modifies old new password) a m l r =
        modify_user-Represents old new password a m l.0 l.1 r
    edit-Represents (deletes_user name) a m l r = delete_user-Represents name a m l r
    edit-Represents (reads name) a m l r = read-Represents name a m r
    edit-Represents (resets reset) a m l r = r
    edit-Represents saves a m l r = (r.0, r.0, r.2)
    edit-Represents (generates location exists) a m l r = generate-Represents location exists a m r

    pub edit_all-Represents :
        (es : List Edit) (a : Accounts) (m : ServerConfig k.State)
        → All HasLatin1Names es
        → Represents a m
        → Represents (intend_all es a) (edit_all k latin1 es m)
    edit_all-Represents [] a m l r = r
    edit_all-Represents (e ∷ es) a m l r =
        edit_all-Represents es (intend e a) (edit k latin1 e m) l.1 (edit-Represents e a m l.0 r)
