-- ===== src/Clipboard/Codec/Examples.antt =====
-- src/ClipboardTextCodec_p.h: WinPR's constants, and a codec of two-byte and one-byte codes below 256.
use kheadless_krdp.Prelude.{
  ℕ, ◌*◌, ◌≤◌, ◌≡◌, inl, refl, false, Option, none, some, List, [], ◌∷◌, ◌++◌, length, ap, arith,
}
use kheadless_krdp.Clipboard.Codec.{
  ClipboardFormats, TextCodecs, encode_clipboard_text, decode_clipboard_text, decode_bytes,
  is_local, chop_nulls, ends_with_null, chop_one, maximum_clipboard_text_bytes,
}
use kheadless_krdp.Clipboard.Codec.RoundTrip.{CodecLaws, decode-encode_clipboard_text}

abbrev pub formats : ClipboardFormats
formats = record { unicode_text = 13; text = 1; oem_text = 7 }

abbrev pub wide : List ℕ → List ℕ
wide [] = []
wide (c ∷ cs) = c ∷ 0 ∷ wide cs

abbrev pub narrow : List ℕ → Option (List ℕ)
narrow [] = some []
narrow (c ∷ []) = none
narrow (c ∷ z ∷ cs) = elim (narrow cs) [ none ↦ none | some text ↦ some (c ∷ text) ]

abbrev pub codecs : TextCodecs
codecs = record {
  utf16_encode = wide;
  utf16_decode = narrow;
  local_encode = λ text. text;
  local_decode = λ bytes. bytes;
}

narrow-wide : (text : List ℕ) → narrow (wide text) ≡ some text
narrow-wide [] = refl
narrow-wide (c ∷ cs) = rw (narrow-wide cs) refl

wide-null : (text : List ℕ) → wide (text ++ 0 ∷ []) ≡ wide text ++ 0 ∷ 0 ∷ []
wide-null [] = refl
wide-null (c ∷ cs) = ap (λ rest. c ∷ 0 ∷ rest) (wide-null cs)

length-wide : (text : List ℕ) → length (wide text) ≡ 2 * length text
length-wide [] = refl
length-wide (c ∷ cs) = omega (arith, length-wide cs)

abbrev laws : CodecLaws codecs
laws = record {
  IsUtf16 = λ text. Unit;
  IsLocal = λ text. Unit;
  utf16_round = λ text h. narrow-wide text;
  local_round = λ text h. refl;
  utf16_null = wide-null;
  local_null = λ text. refl;
  IsUtf16-null = λ text h. tt;
  IsLocal-null = λ text h. tt;
  utf16_length = length-wide;
}

abbrev hi : List ℕ
hi = 104 ∷ 105 ∷ []

encoded_test : encode_clipboard_text formats codecs hi 13 ≡ 104 ∷ 0 ∷ 105 ∷ 0 ∷ 0 ∷ 0 ∷ []
unfolding encode_clipboard_text
encoded_test = refl

-- Two terminators are chopped.
decoded_test : decode_clipboard_text formats codecs (some (104 ∷ 0 ∷ 0 ∷ [])) 1 ≡ some (104 ∷ [])
unfolding decode_clipboard_text decode_bytes is_local chop_nulls ends_with_null chop_one
decoded_test = refl

chopped_hi : ends_with_null hi ≡ false
unfolding ends_with_null
chopped_hi = refl

encoded_length : length (encode_clipboard_text formats codecs hi 13) ≤ maximum_clipboard_text_bytes
encoded_length = rw encoded_test (omega arith)

decode-encode_clipboard_text_example :
    decode_clipboard_text formats codecs (some (encode_clipboard_text formats codecs hi 13)) 13
    ≡ some hi
decode-encode_clipboard_text_example =
    decode-encode_clipboard_text formats codecs laws hi 13 (inl (refl, tt)) chopped_hi
      encoded_length
