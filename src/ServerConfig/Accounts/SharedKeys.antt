-- ===== src/ServerConfig/Accounts/SharedKeys.antt =====
-- src/kcm/kcmkrdpserver.cpp: users with one key in the keychain.
use kheadless_krdp.Prelude.{◌≡◌, refl, ◌∙◌, false, some, arith}
use kheadless_krdp.Prelude.Texts.{Text, is_empty, eq_text_iff}
use kheadless_krdp.ServerConfig.{Keychain, ServerConfig, add_user}
use kheadless_krdp.ServerConfig.Accounts.{IsOpen}

module _ (k : Keychain) (latin1 : Text → Text) where
  -- The keychain is open. Two users whose names toLatin1 makes the same share one key: when both have been added, what
  -- is read for the first of them is the password of the second.
  pub add_user-same_key :
      (a b p q : Text) (m : ServerConfig k.State)
      → IsOpen k
      → is_empty a ≡ false
      → is_empty b ≡ false
      → latin1 a ≡ latin1 b
      → k.read (latin1 a) (add_user k latin1 b q (add_user k latin1 a p m)).wallet ≡ some q
  unfolding add_user
  add_user-same_key a b p q m o ea eb same =
      rw (ea, eb, same)
        (o.read-write (latin1 b) q (latin1 b) _
          ∙ ground (arith, (eq_text_iff (latin1 b) (latin1 b)).1 refl))
