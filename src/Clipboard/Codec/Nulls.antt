-- ===== src/Clipboard/Codec/Nulls.antt =====
-- src/ClipboardTextCodec_p.h: the loop that chops the nulls at the end of a text.
use kheadless_krdp.Prelude.{
  ℕ, suc, zero, ◌≤◌, ◌≡◌, inl, inr, refl, ap, subst, false, Option, none, some, List, [], ◌∷◌, ◌++◌,
  ◌==◌, length, arith, Bool-cases, length-append,
}
use kheadless_krdp.Clipboard.Codec.{ends_with_null, chop_one, chop_nulls, chopped}

ends_with_null-snoc : (text : List ℕ) (c : ℕ) → ends_with_null (text ++ c ∷ []) ≡ (c == 0)
unfolding ends_with_null
ends_with_null-snoc [] c = refl
ends_with_null-snoc (d ∷ []) c = refl
ends_with_null-snoc (d ∷ e ∷ text) c = ends_with_null-snoc (e ∷ text) c

chop_one-snoc : (text : List ℕ) (c : ℕ) → chop_one (text ++ c ∷ []) ≡ text
unfolding chop_one
chop_one-snoc [] c = refl
chop_one-snoc (d ∷ []) c = refl
chop_one-snoc (d ∷ e ∷ text) c = ap (λ cs. d ∷ cs) (chop_one-snoc (e ∷ text) c)

length-chop_one : (c : ℕ) (text : List ℕ) → length (chop_one (c ∷ text)) ≡ length text
unfolding chop_one
length-chop_one c [] = refl
length-chop_one c (d ∷ text) = ap suc (length-chop_one d text)

chop_nulls-kept :
    (rounds : ℕ) (text : List ℕ) → ends_with_null text ≡ false → chop_nulls rounds text ≡ text
unfolding chop_nulls
chop_nulls-kept zero text h = refl
chop_nulls-kept (suc rounds) text h = rw (h, chop_nulls) refl

chop_nulls-[] : (rounds : ℕ) → chop_nulls rounds [] ≡ []
unfolding chop_nulls ends_with_null
chop_nulls-[] zero = refl
chop_nulls-[] (suc rounds) = refl

ends_with_null-[] : ends_with_null [] ≡ false
unfolding ends_with_null
ends_with_null-[] = refl

-- A round for each code unit is enough.
chop_nulls-IsChopped :
    (rounds : ℕ) (text : List ℕ)
    → length text ≤ rounds
    → ends_with_null (chop_nulls rounds text) ≡ false
unfolding chop_nulls
chop_nulls-IsChopped rounds [] h = rw (chop_nulls-[] rounds) ends_with_null-[]
chop_nulls-IsChopped zero (c ∷ text) h = absurd (omega arith)
chop_nulls-IsChopped (suc rounds) (c ∷ text) h = elim (Bool-cases (ends_with_null (c ∷ text))) [
  | inl e ↦
      rw (e, chop_nulls)
        (chop_nulls-IsChopped rounds (chop_one (c ∷ text)) (omega (arith, length-chop_one c text)))
  | inr e ↦ rw (e, chop_nulls) e
]

terminated :
    (text : List ℕ) (n : ℕ)
    → ends_with_null text ≡ false
    → chop_nulls (suc n) (text ++ 0 ∷ []) ≡ text
unfolding chop_nulls
terminated text n h =
    rw (chop_nulls, ends_with_null-snoc text 0, chop_one-snoc text 0) (chop_nulls-kept n text h)

-- A text whose only trailing null is the terminator.
pub chopped_terminated :
    (text : List ℕ) → ends_with_null text ≡ false → chopped (some (text ++ 0 ∷ [])) ≡ some text
chopped_terminated text h = ap some (rw (length-snoc text) (terminated text (length text) h))
  where
    length-snoc : (text : List ℕ) → length (text ++ 0 ∷ []) ≡ suc (length text)
    length-snoc text = omega (arith, length-append text (0 ∷ []))

pub chopped-IsChopped :
    (decoded : Option (List ℕ)) (text : List ℕ)
    → chopped decoded ≡ some text
    → ends_with_null text ≡ false
chopped-IsChopped none text h = cc
chopped-IsChopped (some raw) text h =
    let e : chop_nulls (length raw) raw ≡ text = ground arith in
    subst (λ t. ends_with_null t ≡ false) e (chop_nulls-IsChopped (length raw) raw (omega arith))
