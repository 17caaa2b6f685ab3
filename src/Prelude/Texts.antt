-- ===== src/Prelude/Texts.antt =====
-- QString and QStringList as lists of code units and lists of these.
use kheadless_krdp.Prelude.{
  ℕ, ◌≡◌, ◌↔◌, refl, Bool, true, false, ◌&&◌, ◌||◌, List, [], ◌∷◌, ◌++◌, ◌==◌, if◌then◌else◌, arith,
}

abbrev pub Text : Type 0
Text = List ℕ

abbrev pub is_empty : Text → Bool
is_empty [] = true
is_empty (c ∷ cs) = false

unfoldable pub eq_text : Text → Text → Bool
eq_text [] [] = true
eq_text (c ∷ cs) (d ∷ ds) = c == d && eq_text cs ds
eq_text _ _ = false

pub eq_text_iff : (a b : Text) → (eq_text a b ≡ true) ↔ (a ≡ b)
unfolding eq_text
eq_text_iff [] [] = ground arith
eq_text_iff [] (d ∷ ds) = ground arith
eq_text_iff (c ∷ cs) [] = ground arith
eq_text_iff (c ∷ cs) (d ∷ ds) = ground (arith, eq_text_iff cs ds)

pub is_empty-append : (a : Text) (c : ℕ) (b : Text) → is_empty (a ++ c ∷ b) ≡ false
is_empty-append [] c b = refl
is_empty-append (d ∷ a) c b = refl

-- QStringList::contains and removeAll.
unfoldable pub has_text : Text → List Text → Bool
unfolding eq_text
has_text t [] = false
has_text t (x ∷ xs) = eq_text x t || has_text t xs

unfoldable pub remove_text : Text → List Text → List Text
unfolding eq_text
remove_text t [] = []
remove_text t (x ∷ xs) = let rest = remove_text t xs in if eq_text x t then rest else x ∷ rest
