-- ===== src/Launch/VirtualMonitors/Matching.antt =====
-- server/main.cpp: which texts the pattern of --virtual-monitor matches, and what is taken from them.
use kheadless_krdp.Prelude.{
  ◌≡◌, ◌↔◌, ◌⊎◌, refl, sym, ◌∙◌, ap, subst, true, false, Option, none, some, [], ◌∷◌, ◌++◌, inl,
  inr,
}
use mathlib.Core.List.{append-nil}
use kheadless_krdp.Prelude.Texts.{Text}
use kheadless_krdp.Launch.VirtualMonitors.{is_scale, taken, Groups, match_here, first, match}
use kheadless_krdp.Launch.VirtualMonitors.Pieces.{
  IsForm, form, Begins, match_here-eq_some, match_here-form, match_here-Begins,
  match_here-Begins-complete,
}

-- Somewhere in a text.
abbrev pub Occurs : Text → Type 0
Occurs text =
    (before : Text) × (r : Groups) × (rest : Text) × (text ≡ before ++ rest) × Begins r rest

first-eq_some :
    (a b : Option Groups) {r : Groups} → first a b ≡ some r → (a ≡ some r) ⊎ (b ≡ some r)
first-eq_some none b e = inr e
first-eq_some (some groups) b e = inl e

match-Occurs : (text : Text) {r : Groups} → match text ≡ some r → Occurs text
unfolding match
match-Occurs [] e = cc
match-Occurs (c ∷ cs) {r} e = elim (first-eq_some (match_here (c ∷ cs)) (match cs) e) [
  | inl here ↦ ([], r, c ∷ cs, refl, match_here-Begins (c ∷ cs) here)
  | inr later ↦
      let (before, q, rest, at, b) = match-Occurs cs later in
      (c ∷ before, q, rest, ap (λ t. c ∷ t) at, b)
]

first_total :
    (a b : Option Groups) {r : Groups}
    → (a ≡ some r) ⊎ (b ≡ some r)
    → (q : Groups) × (first a b ≡ some q)
first_total (some groups) b e = (groups, refl)
first_total none b {r} (inl e) = absurd (cc)
first_total none b {r} (inr e) = (r, e)

match-here : (text : Text) {r : Groups} → match_here text ≡ some r → match text ≡ some r
unfolding match taken
match-here [] e = let f : true ≡ false = (match_here-eq_some [] e).0 in cc
match-here (c ∷ cs) e = ap (λ m. first m (match cs)) e

Occurs-match :
    (before rest : Text) {r : Groups}
    → match_here rest ≡ some r
    → (q : Groups) × (match (before ++ rest) ≡ some q)
unfolding match
Occurs-match [] rest {r} e = (r, match-here rest e)
Occurs-match (c ∷ before) rest e = first_total _ _ (inr (Occurs-match before rest e).1)

-- The option matches exactly if a width, an x, a height, an @ and a scale stand one behind the other somewhere in it,
-- whatever stands before and behind them. The width and the height have at least one character and only digits, the scale
-- has at least one character and only digits and points: points alone are a scale, too.
pub match_iff : (text : Text) → ((r : Groups) × (match text ≡ some r)) ↔ Occurs text
match_iff text = (
  λ (r, e). match-Occurs text e,
  λ (before, r, rest, at, b).
      let (q, e) = match_here-Begins-complete rest r b in
      subst (λ t. (g : Groups) × (match t ≡ some g)) (sym at) (Occurs-match before rest e),
)

taken-nil : (s : Text) → s ++ taken is_scale [] ≡ s
unfolding taken
taken-nil s = append-nil s

-- An option of the documented form, a width and a height of digits and a scale of digits and points, is taken apart
-- into exactly these.
pub match-form : (w h s : Text) → IsForm w h s → match (form w h s) ≡ some (w, h, s)
match-form w h s f = match-here (form w h s) (
    ap (λ t. match_here (w ++ 120 ∷ (h ++ 64 ∷ t))) (sym (append-nil s))
    ∙ match_here-form w h s [] f
    ∙ ap (λ t. some (w, h, t)) (taken-nil s))
