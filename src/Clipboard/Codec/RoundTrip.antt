-- ===== src/Clipboard/Codec/RoundTrip.antt =====
-- src/ClipboardTextCodec_p.h: a text that is encoded and decoded again, and what every decoded text is like.
use kheadless_krdp.Prelude.{
  ℕ, ◌*◌, ◌%◌, ◌≤◌, ◌≡◌, ◌⊎◌, inl, inr, refl, subst, true, false, Option, none, some, List, [], ◌∷◌,
  ◌++◌, ◌==◌, length, arith, Option-cases, length-append,
}
use kheadless_krdp.Clipboard.Codec.Nulls.{chopped-IsChopped, chopped_terminated}
use kheadless_krdp.Clipboard.Codec.{
  ClipboardFormats, TextCodecs, maximum_clipboard_text_bytes, ends_with_null, chopped, is_local,
  encode_clipboard_text, decode_bytes, decode_clipboard_text,
}

-- What Qt documents: a converter gives back a text that its encoding can hold, it works from left to right, a null is
-- two zero bytes or one, and UTF-16 has two bytes for each code unit.
pub record CodecLaws (codecs : TextCodecs) : Type 1 where
  pub IsUtf16 : List ℕ → Type 0
  pub IsLocal : List ℕ → Type 0
  pub utf16_round :
      (text : List ℕ) → IsUtf16 text → codecs.utf16_decode (codecs.utf16_encode text) ≡ some text
  pub local_round :
      (text : List ℕ) → IsLocal text → codecs.local_decode (codecs.local_encode text) ≡ text
  pub utf16_null :
      (text : List ℕ)
      → codecs.utf16_encode (text ++ 0 ∷ []) ≡ codecs.utf16_encode text ++ 0 ∷ 0 ∷ []
  pub local_null :
      (text : List ℕ) → codecs.local_encode (text ++ 0 ∷ []) ≡ codecs.local_encode text ++ 0 ∷ []
  pub IsUtf16-null : (text : List ℕ) → IsUtf16 text → IsUtf16 (text ++ 0 ∷ [])
  pub IsLocal-null : (text : List ℕ) → IsLocal text → IsLocal (text ++ 0 ∷ [])
  pub utf16_length : (text : List ℕ) → length (codecs.utf16_encode text) ≡ 2 * length text

module _ (formats : ClipboardFormats) (codecs : TextCodecs) where
  abbrev IsSupported : ℕ → List ℕ → Type 0
  IsSupported format bytes =
      (format ≡ formats.unicode_text) × (length bytes % 2 ≡ 0) ⊎ (is_local formats format ≡ true)

  decode_bytes-IsSupported :
      (bytes : List ℕ) (format : ℕ) (raw : List ℕ)
      → decode_bytes formats codecs bytes format ≡ some raw
      → (length bytes ≤ maximum_clipboard_text_bytes) × IsSupported format bytes
  unfolding decode_bytes is_local
  decode_bytes-IsSupported bytes format raw h = ground arith

  -- With constants other than 0, nothing is decoded for format 0.
  pub decode_clipboard_text-zero :
      (bytes : Option (List ℕ))
      → (formats.unicode_text == 0) ≡ false
      → (formats.text == 0) ≡ false
      → (formats.oem_text == 0) ≡ false
      → decode_clipboard_text formats codecs bytes 0 ≡ none
  unfolding decode_clipboard_text decode_bytes is_local
  decode_clipboard_text-zero none u t o = refl
  decode_clipboard_text-zero (some bytes) u t o = ground arith

  -- Every text that is decoded has no null at its end, and comes from at most 16 MiB of bytes in one of the three
  -- formats, an even number of them when the format is CF_UNICODETEXT.
  pub decode_clipboard_text-IsChopped :
      (bytes : List ℕ) (format : ℕ) (text : List ℕ)
      → decode_clipboard_text formats codecs (some bytes) format ≡ some text
      → (ends_with_null text ≡ false)
        × (length bytes ≤ maximum_clipboard_text_bytes)
        × IsSupported format bytes
  unfolding decode_clipboard_text
  decode_clipboard_text-IsChopped bytes format text h =
      elim (Option-cases (decode_bytes formats codecs bytes format)) [
        | inl e ↦ let g : chopped none ≡ some text = subst (λ d. chopped d ≡ some text) e h in cc
        | inr (raw, e) ↦
            let supported = decode_bytes-IsSupported bytes format raw e in
            (
              chopped-IsChopped (decode_bytes formats codecs bytes format) text h,
              supported.0,
              supported.1,
            )
      ]

  utf16_encoded :
      (text : List ℕ) (format : ℕ)
      → format ≡ formats.unicode_text
      → encode_clipboard_text formats codecs text format ≡ codecs.utf16_encode text ++ 0 ∷ 0 ∷ []
  unfolding encode_clipboard_text
  utf16_encoded text format e = ground arith

  local_encoded :
      (text : List ℕ) (format : ℕ)
      → is_local formats format ≡ true
      → (format == formats.unicode_text) ≡ false
      → encode_clipboard_text formats codecs text format ≡ codecs.local_encode text ++ 0 ∷ []
  unfolding encode_clipboard_text
  local_encoded text format l u = ground arith

  module _ (laws : CodecLaws codecs) where
    -- The format can hold the text. CF_UNICODETEXT is asked for first.
    abbrev pub Holds : ℕ → List ℕ → Type 0
    Holds format text =
        (format ≡ formats.unicode_text) × laws.IsUtf16 text
        ⊎ (is_local formats format ≡ true)
          × ((format == formats.unicode_text) ≡ false)
          × laws.IsLocal text

    decode_bytes-utf16 :
        (text : List ℕ)
        → laws.IsUtf16 text
        → length (codecs.utf16_encode text ++ 0 ∷ 0 ∷ []) ≤ maximum_clipboard_text_bytes
        → decode_bytes formats codecs (codecs.utf16_encode text ++ 0 ∷ 0 ∷ []) formats.unicode_text
          ≡ some (text ++ 0 ∷ [])
    unfolding decode_bytes
    decode_bytes-utf16 text h b = ground (
      arith,
      laws.utf16_null text,
      laws.utf16_round (text ++ 0 ∷ []) (laws.IsUtf16-null text h),
      length-append (codecs.utf16_encode text) (0 ∷ 0 ∷ []),
      laws.utf16_length text,
    )

    decode_bytes-local :
        (text : List ℕ) (format : ℕ)
        → is_local formats format ≡ true
        → (format == formats.unicode_text) ≡ false
        → laws.IsLocal text
        → length (codecs.local_encode text ++ 0 ∷ []) ≤ maximum_clipboard_text_bytes
        → decode_bytes formats codecs (codecs.local_encode text ++ 0 ∷ []) format
          ≡ some (text ++ 0 ∷ [])
    unfolding decode_bytes
    decode_bytes-local text format l u h b =
        ground (
          arith,
          laws.local_null text,
          laws.local_round (text ++ 0 ∷ []) (laws.IsLocal-null text h),
        )

    decode_bytes-encode_clipboard_text :
        (text : List ℕ) (format : ℕ)
        → Holds format text
        → length (encode_clipboard_text formats codecs text format) ≤ maximum_clipboard_text_bytes
        → decode_bytes formats codecs (encode_clipboard_text formats codecs text format) format
          ≡ some (text ++ 0 ∷ [])
    decode_bytes-encode_clipboard_text text format (inl (e, h)) b =
        let encoded : encode_clipboard_text formats codecs text format
            ≡ codecs.utf16_encode text ++ 0 ∷ 0 ∷ [] =
          utf16_encoded text format e in
        rw encoded (
          rw e (
            decode_bytes-utf16 text h
              (subst (λ bytes. length bytes ≤ maximum_clipboard_text_bytes) encoded b)))
    decode_bytes-encode_clipboard_text text format (inr (l, u, h)) b =
        let encoded : encode_clipboard_text formats codecs text format
            ≡ codecs.local_encode text ++ 0 ∷ [] =
          local_encoded text format l u in
        rw encoded (
          decode_bytes-local text format l u h
            (subst (λ bytes. length bytes ≤ maximum_clipboard_text_bytes) encoded b))

    -- A text that the format can hold, without a null at its end and with at most 16 MiB of bytes when it is encoded,
    -- comes back from the client that sends the bytes it was given.
    pub decode-encode_clipboard_text :
        (text : List ℕ) (format : ℕ)
        → Holds format text
        → ends_with_null text ≡ false
        → length (encode_clipboard_text formats codecs text format) ≤ maximum_clipboard_text_bytes
        → decode_clipboard_text formats codecs
            (some (encode_clipboard_text formats codecs text format))
            format
          ≡ some text
    unfolding decode_clipboard_text
    decode-encode_clipboard_text text format h c b =
        rw (decode_bytes-encode_clipboard_text text format h b) (chopped_terminated text c)
