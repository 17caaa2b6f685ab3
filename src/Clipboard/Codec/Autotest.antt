-- ===== src/Clipboard/Codec/Autotest.antt =====
-- autotests/ClipboardTest.cpp: each test of the codec as whether its verifications hold of the model, for any converters of
-- Qt that do what Codec.RoundTrip states. The constants are those of WinPR.
use kheadless_krdp.Prelude.{
  ℕ, ◌*◌, ◌+◌, ◌≤◌, ◌≡◌, refl, inl, inr, Bool, true, false, ◌&&◌, ◌||◌, Option, none, some, List,
  [], ◌∷◌, ◌++◌, length, arith, length-append, All,
}
use kheadless_krdp.Prelude.Texts.{Text, eq_text, eq_text_iff, is_empty}
use kheadless_krdp.Clipboard.Codec.{
  TextCodecs, encode_clipboard_text, decode_clipboard_text, decode_bytes, is_local, ends_with_null,
  maximum_clipboard_text_bytes,
}
use kheadless_krdp.Clipboard.Codec.Examples.{formats}
use kheadless_krdp.Clipboard.Codec.RoundTrip.{CodecLaws, decode-encode_clipboard_text}

-- The rows of unicodeRoundTrip, as code units.
abbrev unicode_rows : List Text
unicode_rows =
    []
    ∷ (75 ∷ 72 ∷ 101 ∷ 97 ∷ 100 ∷ 108 ∷ 101 ∷ 115 ∷ 115 ∷ 32 ∷ 99 ∷ 108 ∷ 105 ∷ 112 ∷ 98 ∷ 111 ∷ 97
        ∷ 114 ∷ 100 ∷ [])
    ∷ (22810 ∷ 34722 ∷ 24149 ∷ 32 ∷ 75 ∷ 68 ∷ 69 ∷ 32 ∷ 80 ∷ 108 ∷ 97 ∷ 115 ∷ 109 ∷ 97 ∷ 32 ∷ 55357
        ∷ 56741 ∷ 65039 ∷ [])
    ∷ (102 ∷ 105 ∷ 114 ∷ 115 ∷ 116 ∷ 13 ∷ 10 ∷ 115 ∷ 101 ∷ 99 ∷ 111 ∷ 110 ∷ 100 ∷ 10 ∷ 116 ∷ 104
        ∷ 105 ∷ 114 ∷ 100 ∷ [])
    ∷ []

abbrev plain_text : Text
plain_text = 112 ∷ 108 ∷ 97 ∷ 105 ∷ 110 ∷ 32 ∷ 116 ∷ 101 ∷ 120 ∷ 116 ∷ []

-- QByteArray::endsWith.
unfoldable ends_with : List ℕ → List ℕ → Bool
unfolding eq_text
ends_with suffix [] = eq_text [] suffix
ends_with suffix (b ∷ bs) = eq_text (b ∷ bs) suffix || ends_with suffix bs

abbrev gives : Text → Option Text → Bool
gives text none = false
gives text (some decoded) = eq_text decoded text

abbrev refuses : Option Text → Bool
refuses none = true
refuses (some decoded) = false

eq_text-same : (text : Text) → eq_text text text ≡ true
eq_text-same text = (eq_text_iff text text).1 refl

ends_with-append : (suffix bytes : List ℕ) → ends_with suffix (bytes ++ suffix) ≡ true
unfolding ends_with
ends_with-append [] [] = eq_text-same []
ends_with-append (b ∷ bs) [] = ground (arith, eq_text-same (b ∷ bs))
ends_with-append suffix (b ∷ bs) = ground (arith, ends_with-append suffix bs)

gives-same : (text : Text) (result : Option Text) → result ≡ some text → gives text result ≡ true
gives-same text none e = absurd (cc)
gives-same text (some decoded) e = let same : decoded ≡ text = cc in rw same (eq_text-same text)

module _ (codecs : TextCodecs) where
  unicode_round_trip : Text → Bool
  unfolding ends_with encode_clipboard_text decode_clipboard_text eq_text
  unicode_round_trip text =
      let encoded = encode_clipboard_text formats codecs text formats.unicode_text in
      ends_with (0 ∷ 0 ∷ []) encoded
      && gives text (decode_clipboard_text formats codecs (some encoded) formats.unicode_text)

  local_text_round_trip : Bool
  unfolding encode_clipboard_text decode_clipboard_text eq_text
  local_text_round_trip =
      let encoded = encode_clipboard_text formats codecs plain_text formats.text in
      gives plain_text (decode_clipboard_text formats codecs (some encoded) formats.text)

  rejects_malformed_payloads : Bool
  unfolding encode_clipboard_text decode_clipboard_text
  rejects_malformed_payloads =
      refuses (decode_clipboard_text formats codecs (some (120 ∷ [])) formats.unicode_text)
      && refuses (decode_clipboard_text formats codecs none formats.unicode_text)
      && is_empty (encode_clipboard_text formats codecs (116 ∷ 101 ∷ 120 ∷ 116 ∷ []) 0)

  rejects_malformed_payloads-passes : rejects_malformed_payloads ≡ true
  unfolding rejects_malformed_payloads encode_clipboard_text decode_clipboard_text decode_bytes
      is_local
  rejects_malformed_payloads-passes = refl

  module _ (laws : CodecLaws codecs) where
    -- What the converters of Qt can hold, with no null at its end and at most 8 Mi code units less its terminator.
    abbrev IsRow : Text → Type 0
    IsRow text =
        laws.IsUtf16 text
        × (ends_with_null text ≡ false)
        × (2 * length text + 2 ≤ maximum_clipboard_text_bytes)

    unicode_round_trip-passes : (text : Text) → IsRow text → unicode_round_trip text ≡ true
    unfolding unicode_round_trip encode_clipboard_text
    unicode_round_trip-passes text (h, c, b) =
        let encoded = codecs.utf16_encode text ++ 0 ∷ 0 ∷ [] in
        let bound : length encoded ≤ maximum_clipboard_text_bytes =
          omega (
            arith,
            length-append (codecs.utf16_encode text) (0 ∷ 0 ∷ []),
            laws.utf16_length text,
          ) in
        let back =
          decode-encode_clipboard_text formats codecs laws text formats.unicode_text (inl (refl, h))
            c bound in
        rw (ends_with-append (0 ∷ 0 ∷ []) (codecs.utf16_encode text)) (gives-same text _ back)

    -- Every row passes that UTF-16 can hold.
    unicode_rows-pass :
        All laws.IsUtf16 unicode_rows → All (λ text. unicode_round_trip text ≡ true) unicode_rows
    unfolding ends_with_null
    unicode_rows-pass h =
        let passes = unicode_round_trip-passes in
        (
          passes _ (h.0, refl, omega arith),
          (
            passes _ (h.1.0, refl, omega arith),
            (passes _ (h.1.1.0, refl, omega arith), (passes _ (h.1.1.1.0, refl, omega arith), tt)),
          ),
        )

    local_text_round_trip-passes :
        laws.IsLocal plain_text
        → length (codecs.local_encode plain_text) + 1 ≤ maximum_clipboard_text_bytes
        → local_text_round_trip ≡ true
    unfolding local_text_round_trip encode_clipboard_text is_local ends_with_null
    local_text_round_trip-passes h b =
        let bound : length (codecs.local_encode plain_text ++ 0 ∷ [])
            ≤ maximum_clipboard_text_bytes =
          omega (arith, length-append (codecs.local_encode plain_text) (0 ∷ [])) in
        gives-same plain_text _ (
          decode-encode_clipboard_text formats codecs laws plain_text formats.text
            (inr (refl, refl, h)) refl bound)
