-- ===== src/Clipboard/Codec.antt =====
-- src/ClipboardTextCodec_p.h. Qt's converters are parameters; what Qt documents of them is stated in RoundTrip.
mod Nulls
mod Autotest
pub mod RoundTrip
pub mod Examples
use kheadless_krdp.Prelude.{
  ℕ, suc, zero, ◌+◌, ◌*◌, ◌%◌, Bool, true, false, ◌&&◌, ◌||◌, not, Option, none, some, List, [],
  ◌∷◌, ◌++◌, ltb, ◌==◌, if◌then◌else◌, length,
}

-- CF_UNICODETEXT, CF_TEXT and CF_OEMTEXT.
pub record ClipboardFormats : Type 0 where
  pub unicode_text : ℕ
  pub text : ℕ
  pub oem_text : ℕ

-- QStringEncoder and QStringDecoder for UTF-16LE, toLocal8Bit and fromLocal8Bit, each from a fresh state. A text is a list
-- of code units, and `none` says that the decoder has an error.
pub record TextCodecs : Type 0 where
  pub utf16_encode : List ℕ → List ℕ
  pub utf16_decode : List ℕ → Option (List ℕ)
  pub local_encode : List ℕ → List ℕ
  pub local_decode : List ℕ → List ℕ

abbrev pub maximum_clipboard_text_bytes : ℕ
maximum_clipboard_text_bytes = 16 * 1024 * 1024

-- text.endsWith(QChar::Null) and text.chop(1).
pub ends_with_null : List ℕ → Bool
ends_with_null [] = false
ends_with_null (c ∷ []) = c == 0
ends_with_null (c ∷ d ∷ cs) = ends_with_null (d ∷ cs)

pub chop_one : List ℕ → List ℕ
chop_one [] = []
chop_one (c ∷ []) = []
chop_one (c ∷ d ∷ cs) = c ∷ chop_one (d ∷ cs)

-- The loop that chops, with a round for each code unit.
pub chop_nulls : ℕ → List ℕ → List ℕ
chop_nulls zero text = text
chop_nulls (suc rounds) text = elim (ends_with_null text) [
  | true ↦ chop_nulls rounds (chop_one text)
  | false ↦ text
]

-- The part behind the decoding.
abbrev pub chopped : Option (List ℕ) → Option (List ℕ)
chopped none = none
chopped (some text) = some (chop_nulls (length text) text)

pub is_local : ClipboardFormats → ℕ → Bool
is_local formats format = format == formats.text || format == formats.oem_text

module _ (formats : ClipboardFormats) (codecs : TextCodecs) where
  unfoldable pub encode_clipboard_text : List ℕ → ℕ → List ℕ
  unfolding is_local
  encode_clipboard_text text format =
      if format == formats.unicode_text
      then codecs.utf16_encode text ++ 0 ∷ 0 ∷ []
      else if is_local formats format
      then codecs.local_encode text ++ 0 ∷ []
      else []

  pub decode_bytes : List ℕ → ℕ → Option (List ℕ)
  unfolding is_local
  decode_bytes bytes format =
      if ltb maximum_clipboard_text_bytes (length bytes)
      then none
      else if format == formats.unicode_text
      then if not (length bytes % 2 == 0) then none else codecs.utf16_decode bytes
      else if is_local formats format
      then some (codecs.local_decode bytes)
      else none

  -- `none` is a null pointer; otherwise the bytes are as many as the size says.
  unfoldable pub decode_clipboard_text : Option (List ℕ) → ℕ → Option (List ℕ)
  unfolding decode_bytes chop_nulls ends_with_null chop_one
  decode_clipboard_text none format = none
  decode_clipboard_text (some bytes) format = chopped (decode_bytes bytes format)
