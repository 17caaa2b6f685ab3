-- ===== src/Clipboard.antt =====
-- src/Clipboard.cpp: the clipboard channel of a connection. FreeRDP's constants and its answers to creating and starting
-- the channel are arguments, and what is handed to the channel is appended to `sent`. A call that is posted to
-- the event loop is counted in `queued` until it runs.
pub mod Codec
pub mod Formats
pub mod Events
pub mod Silence
pub mod Requests
mod Examples
use kheadless_krdp.Prelude.{
  ℕ, suc, zero, ◌+◌, Bool, true, false, ◌&&◌, ◌||◌, not, Option, none, some, List, [], ◌∷◌, ◌++◌,
  ◌==◌, if◌then◌else◌,
}
use kheadless_krdp.Clipboard.Codec.{
  ClipboardFormats, TextCodecs, encode_clipboard_text, decode_clipboard_text,
}

pub data ClipPdu : Type 0 where
  server_format_list : (format : ℕ) → ClipPdu
  server_format_list_response : ClipPdu
  server_format_data_request : (format : ℕ) → ClipPdu
  server_format_data_response : Option (List ℕ) → ClipPdu

-- Clipboard::Private, with the texts that clientTextChanged has announced. A text is a list of UTF-16 code units.
pub record Clipboard : Type 0 where
  pub has_context : Bool
  pub server_text : List ℕ
  pub requested_client_format : ℕ
  pub has_server_text : Bool
  pub initialized : Bool
  pub enabled : Bool
  pub queued : ℕ
  pub sent : List ClipPdu
  pub announced : List (List ℕ)

abbrev pub initial : Clipboard
initial = record {
  has_context = false;
  server_text = [];
  requested_client_format = 0;
  has_server_text = false;
  initialized = false;
  enabled = false;
  queued = 0;
  sent = [];
  announced = [];
}

abbrev pub send : ClipPdu → Clipboard → Clipboard
send pdu s = record s { sent = s.sent ++ pdu ∷ [] }

-- `if (test) invokeMethod(this, &Clipboard::sendServerData, Qt::QueuedConnection);`
abbrev pub post_if : Bool → Clipboard → Clipboard
post_if true s = record s { queued = s.queued + 1 }
post_if false s = s

-- A channel that cannot be started keeps its context.
unfoldable pub initialize : (created started : Bool) → Clipboard → Clipboard × Bool
initialize created started s =
    if s.has_context
    then (s, true)
    else if not created
    then (s, false)
    else if not started
    then (record s { has_context = true }, false)
    else (
      post_if (s.enabled && s.has_server_text)
          (record s { has_context = true; initialized = true }),
      true,
    )

abbrev pub same_bool : Bool → Bool → Bool
same_bool true b = b
same_bool false b = not b

unfoldable pub set_enabled : Bool → Clipboard → Clipboard
set_enabled enabled s =
    if same_bool s.enabled enabled
    then s
    else post_if (enabled && s.initialized && s.has_server_text)
        (record s { enabled = enabled; requested_client_format = 0 })

abbrev pub is_enabled : Clipboard → Bool
is_enabled s = s.initialized && s.enabled

unfoldable pub set_server_text : List ℕ → Clipboard → Clipboard
set_server_text text s =
    post_if (is_enabled s) (record s { server_text = text; has_server_text = true })

unfoldable pub close : Clipboard → Clipboard
close s = if not s.has_context then s else record s {
  has_context = false;
  initialized = false;
  enabled = false;
  requested_client_format = 0;
}

module _ (formats : ClipboardFormats) (codecs : TextCodecs) where
  unfoldable pub send_server_data : Clipboard → Clipboard
  send_server_data s =
      if not (is_enabled s) || not s.has_server_text || not s.has_context
      then s
      else send (server_format_list formats.unicode_text) s

  -- The event loop runs a posted call.
  unfoldable pub run_queued : Clipboard → Clipboard
  unfolding send_server_data
  run_queued s = elim s.queued [ zero ↦ s | suc n ↦ send_server_data (record s { queued = n }) ]

  -- The loop over the formats of a client's list.
  pub choose_format : ℕ → List ℕ → ℕ
  choose_format chosen [] = chosen
  choose_format chosen (id ∷ ids) =
      let rest =
        choose_format
          (if chosen == 0 && (id == formats.text || id == formats.oem_text) then id else chosen)
          ids in
      if id == formats.unicode_text then formats.unicode_text else rest

  request_data : Clipboard → Clipboard
  request_data s =
      if not (s.requested_client_format == 0)
      then send (server_format_data_request s.requested_client_format) s
      else s

  unfoldable pub on_client_format_list : List ℕ → Clipboard → Clipboard
  unfolding choose_format request_data
  on_client_format_list ids s = request_data (
      send server_format_list_response
        (record s { requested_client_format = if s.enabled then choose_format 0 ids else 0 }))

  -- An empty QByteArray is answered with CB_RESPONSE_FAIL, as `none`.
  abbrev pub answer : List ℕ → Option (List ℕ)
  answer [] = none
  answer (b ∷ bs) = some (b ∷ bs)

  unfoldable pub on_client_format_data_request : ℕ → Clipboard → Clipboard
  on_client_format_data_request format s =
      send
        (server_format_data_response (
          answer (
            if s.enabled && s.has_server_text
            then encode_clipboard_text formats codecs s.server_text format
            else [])))
        s

  abbrev pub announce : Option (List ℕ) → Clipboard → Clipboard
  announce none s = s
  announce (some text) s = record s {
    requested_client_format = 0;
    announced = s.announced ++ text ∷ [];
  }

  -- `response_ok` is the flag CB_RESPONSE_OK, and `bytes` what the data pointer points to.
  unfoldable pub on_client_format_data_response : Bool → Option (List ℕ) → Clipboard → Clipboard
  on_client_format_data_response response_ok bytes s =
      if not s.enabled || not response_ok
      then s
      else announce (decode_clipboard_text formats codecs bytes s.requested_client_format) s
