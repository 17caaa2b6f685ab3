-- ===== src/Launch/VirtualMonitors/Pieces.antt =====
-- server/main.cpp: what the pattern of --virtual-monitor matches at the beginning of a text.
use kheadless_krdp.Prelude.{
  ℕ, ◌≡◌, refl, sym, ◌∙◌, ap, subst, Bool, true, false, none, some, [], ◌∷◌, ◌++◌, ◌==◌, All, arith,
  Bool-cases, inl, inr,
}
use kheadless_krdp.Prelude.Texts.{Text, is_empty}
use kheadless_krdp.Launch.VirtualMonitors.{
  is_digit, is_scale, taken, left, Groups, match_scale, match_at, match_height, match_x, match_here,
}

-- A width, an x, a height, an @ and a scale.
abbrev pub IsForm : Text → Text → Text → Type 0
IsForm w h s =
    All (λ c. is_digit c ≡ true) w
    × (is_empty w ≡ false)
    × All (λ c. is_digit c ≡ true) h
    × (is_empty h ≡ false)
    × All (λ c. is_scale c ≡ true) s
    × (is_empty s ≡ false)

abbrev pub form : Text → Text → Text → Text
form w h s = w ++ 120 ∷ (h ++ 64 ∷ s)

module _ (p : ℕ → Bool) where
  taken-append : (xs ys : Text) → All (λ c. p c ≡ true) xs → taken p (xs ++ ys) ≡ xs ++ taken p ys
  unfolding taken
  taken-append [] ys h = refl
  taken-append (x ∷ xs) ys h = rw h.0 (ap (λ rest. x ∷ rest) (taken-append xs ys h.1))

  left-append : (xs ys : Text) → All (λ c. p c ≡ true) xs → left p (xs ++ ys) ≡ left p ys
  unfolding left
  left-append [] ys h = refl
  left-append (x ∷ xs) ys h = rw h.0 (left-append xs ys h.1)

  taken-left : (xs : Text) → taken p xs ++ left p xs ≡ xs
  unfolding taken left
  taken-left [] = refl
  taken-left (x ∷ xs) = elim (Bool-cases (p x)) [
    | inl e ↦ rw e (ap (λ rest. x ∷ rest) (taken-left xs))
    | inr e ↦ rw e refl
  ]

  taken-All : (xs : Text) → All (λ c. p c ≡ true) (taken p xs)
  unfolding taken
  taken-All [] = tt
  taken-All (x ∷ xs) = elim (Bool-cases (p x)) [ inl e ↦ rw e (e, taken-All xs) | inr e ↦ rw e tt ]

-- A repetition that is stopped.
module _ (p : ℕ → Bool) (c : ℕ) (stops : p c ≡ false) where
  taken-stop : (xs ys : Text) → All (λ c. p c ≡ true) xs → taken p (xs ++ c ∷ ys) ≡ xs
  unfolding taken
  taken-stop [] ys h = rw stops refl
  taken-stop (x ∷ xs) ys h = rw h.0 (ap (λ rest. x ∷ rest) (taken-stop xs ys h.1))

  left-stop : (xs ys : Text) → All (λ c. p c ≡ true) xs → left p (xs ++ c ∷ ys) ≡ c ∷ ys
  unfolding left
  left-stop [] ys h = rw stops refl
  left-stop (x ∷ xs) ys h = rw h.0 (left-stop xs ys h.1)

is_empty-extend : (xs ys : Text) → is_empty xs ≡ false → is_empty (xs ++ ys) ≡ false
is_empty-extend [] ys e = cc
is_empty-extend (x ∷ xs) ys e = refl

-- What matches at the beginning of a text, with anything behind it.
match_scale-form :
    (w h s after : Text)
    → All (λ c. is_scale c ≡ true) s
    → is_empty s ≡ false
    → match_scale w h (s ++ after) ≡ some (w, h, s ++ taken is_scale after)
unfolding match_scale
match_scale-form w h s after d n =
    rw (taken-append is_scale s after d, is_empty-extend s (taken is_scale after) n) refl

pub match_here-form :
    (w h s after : Text)
    → IsForm w h s
    → match_here (w ++ 120 ∷ (h ++ 64 ∷ (s ++ after))) ≡ some (w, h, s ++ taken is_scale after)
unfolding match_here match_x match_height match_at
match_here-form w h s after (dw, nw, dh, nh, ds, ns) =
    rw
      (
        match_here,
        taken-stop is_digit 120 refl w (h ++ 64 ∷ (s ++ after)) dw,
        left-stop is_digit 120 refl w (h ++ 64 ∷ (s ++ after)) dw,
        nw,
        taken-stop is_digit 64 refl h (s ++ after) dh,
        left-stop is_digit 64 refl h (s ++ after) dh,
        nh,
      )
      (match_scale-form w h s after ds ns)

-- What there is at the beginning of a text that matches there.
abbrev pub Begins : Groups → Text → Type 0
Begins (w, h, s) text = (after : Text) × (text ≡ w ++ 120 ∷ (h ++ 64 ∷ (s ++ after))) × IsForm w h s

match_scale-Begins :
    (w h text : Text) {r : Groups}
    → match_scale w h text ≡ some r
    → (s : Text) × (r ≡ (w, h, s))
      × (text ≡ s ++ left is_scale text)
      × All (λ c. is_scale c ≡ true) s
      × (is_empty s ≡ false)
unfolding match_scale
match_scale-Begins w h text {r} e = elim (Bool-cases (is_empty (taken is_scale text))) [
  | inl nothing ↦ absurd (let f : none ≡ some r = rw nothing at e in cc)
  | inr some_scale ↦
      let f : some (w, h, taken is_scale text) ≡ some r = rw some_scale at e in
      (taken is_scale text, cc, sym (taken-left is_scale text), taken-All is_scale text, some_scale)
]

match_at-eq_some :
    (w h text : Text) {r : Groups}
    → match_at w h text ≡ some r
    → (rest : Text) × (text ≡ 64 ∷ rest) × (match_scale w h rest ≡ some r)
unfolding match_at
match_at-eq_some w h [] e = cc
match_at-eq_some w h (c ∷ cs) {r} e = elim (Bool-cases (c == 64)) [
  | inl at_sign ↦ (cs, ground arith, rw at_sign at e)
  | inr other ↦ absurd (let f : none ≡ some r = rw other at e in cc)
]

match_x-eq_some :
    (w text : Text) {r : Groups}
    → match_x w text ≡ some r
    → (rest : Text) × (text ≡ 120 ∷ rest) × (match_height w rest ≡ some r)
unfolding match_x
match_x-eq_some w [] e = cc
match_x-eq_some w (c ∷ cs) {r} e = elim (Bool-cases (c == 120)) [
  | inl x ↦ (cs, ground arith, rw x at e)
  | inr other ↦ absurd (let f : none ≡ some r = rw other at e in cc)
]

match_height-eq_some :
    (w text : Text) {r : Groups}
    → match_height w text ≡ some r
    → (is_empty (taken is_digit text) ≡ false)
      × (match_at w (taken is_digit text) (left is_digit text) ≡ some r)
unfolding match_height
match_height-eq_some w text {r} e = elim (Bool-cases (is_empty (taken is_digit text))) [
  | inl nothing ↦ absurd (let f : none ≡ some r = rw nothing at e in cc)
  | inr digits ↦ (digits, rw digits at e)
]

pub match_here-eq_some :
    (text : Text) {r : Groups}
    → match_here text ≡ some r
    → (is_empty (taken is_digit text) ≡ false)
      × (match_x (taken is_digit text) (left is_digit text) ≡ some r)
unfolding match_here
match_here-eq_some text {r} e = elim (Bool-cases (is_empty (taken is_digit text))) [
  | inl nothing ↦ absurd (let f : none ≡ some r = rw nothing at e in cc)
  | inr digits ↦ (digits, rw digits at e)
]

pub match_here-Begins : (text : Text) {r : Groups} → match_here text ≡ some r → Begins r text
match_here-Begins text {r} e =
    let w = taken is_digit text in
    let (nw, from_x) = match_here-eq_some text e in
    let (t, at_x, from_height) = match_x-eq_some w (left is_digit text) from_x in
    let h = taken is_digit t in
    let (nh, from_at) = match_height-eq_some w t from_height in
    let (u, at_sign, from_scale) = match_at-eq_some w h (left is_digit t) from_at in
    let (s, groups, scale, ds, ns) = match_scale-Begins w h u from_scale in
    let text_lem : text ≡ w ++ 120 ∷ (h ++ 64 ∷ (s ++ left is_scale u)) =
      sym (taken-left is_digit text)
      ∙ ap (λ rest. w ++ rest)
          (at_x
            ∙ ap (λ rest. 120 ∷ rest)
                (sym (taken-left is_digit t)
                  ∙ ap (λ rest. h ++ rest) (at_sign ∙ ap (λ rest. 64 ∷ rest) scale))) in
    subst (λ g. Begins g text) (sym groups)
      (left is_scale u, text_lem, (taken-All is_digit text, nw, taken-All is_digit t, nh, ds, ns))

pub match_here-Begins-complete :
    (text : Text) (r : Groups) → Begins r text → (q : Groups) × (match_here text ≡ some q)
match_here-Begins-complete text (w, h, s) (after, e, f) =
    ((w, h, s ++ taken is_scale after), ap match_here e ∙ match_here-form w h s after f)
