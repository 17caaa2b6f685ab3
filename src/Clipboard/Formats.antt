-- ===== src/Clipboard/Formats.antt =====
-- Which format Clipboard::Private::onClientFormatList of src/Clipboard.cpp asks for.
use kheadless_krdp.Prelude.{
  ℕ, ◌≡◌, true, false, ◌||◌, List, [], ◌∷◌, ◌++◌, ◌==◌, if◌then◌else◌, any, arith,
}
use kheadless_krdp.Clipboard.Codec.{ClipboardFormats, TextCodecs}
use kheadless_krdp.Clipboard.{
  Clipboard, server_format_list_response, server_format_data_request, choose_format,
  on_client_format_list, request_data,
}

module _ (formats : ClipboardFormats) (codecs : TextCodecs) where
  -- The first of the formats that is CF_TEXT or CF_OEMTEXT, and 0 if none is.
  abbrev pub first_local : List ℕ → ℕ
  first_local [] = 0
  first_local (id ∷ ids) =
      if id == formats.text || id == formats.oem_text then id else first_local ids

  abbrev pub preferred : List ℕ → ℕ
  preferred ids =
      if any (λ id. id == formats.unicode_text) ids then formats.unicode_text else first_local ids

  choose_format_lem :
      (chosen : ℕ) (ids : List ℕ)
      → (formats.text == 0) ≡ false
      → (formats.oem_text == 0) ≡ false
      → choose_format formats codecs chosen ids ≡ (
          if any (λ id. id == formats.unicode_text) ids
          then formats.unicode_text
          else if chosen == 0
          then first_local ids
          else chosen)
  unfolding choose_format
  choose_format_lem chosen [] t o = ground arith
  choose_format_lem chosen (id ∷ ids) t o =
      ground (arith, choose_format_lem chosen ids t o, choose_format_lem id ids t o)

  -- When sharing is enabled, the answer to a client's list of formats is followed by a request for its text: as
  -- CF_UNICODETEXT wherever in the list that stands, else as the first of CF_TEXT and CF_OEMTEXT that is listed, and by
  -- none if the list has none of the three. The constants are not 0.
  pub on_client_format_list_lem :
      (ids : List ℕ) (s : Clipboard)
      → (formats.text == 0) ≡ false
      → (formats.oem_text == 0) ≡ false
      → s.enabled ≡ true
      → on_client_format_list formats codecs ids s ≡ record s {
        requested_client_format = preferred ids;
        sent =
            (if preferred ids == 0
              then s.sent ++ server_format_list_response ∷ []
              else (s.sent ++ server_format_list_response ∷ [])
                ++ server_format_data_request (preferred ids) ∷ []);
      }
  unfolding on_client_format_list request_data
  on_client_format_list_lem ids s t o e = rw (e, choose_format_lem 0 ids t o) (ground arith)
