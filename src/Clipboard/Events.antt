-- ===== src/Clipboard/Events.antt =====
-- src/Clipboard.cpp: what happens to a clipboard channel, as a sequence of calls.
use kheadless_krdp.Prelude.{ℕ, Bool, Option, List, [], ◌∷◌, if◌then◌else◌}
use kheadless_krdp.Clipboard.Codec.{ClipboardFormats, TextCodecs}
use kheadless_krdp.Clipboard.{
  Clipboard, initialize, set_enabled, set_server_text, close, run_queued, on_client_format_list,
  on_client_format_data_request, on_client_format_data_response,
}

-- The calls of the connection and of the application, of the event loop, and of the client's three messages.
pub data ClipboardEvent : Type 0 where
  initializes : (created started : Bool) → ClipboardEvent
  enables : Bool → ClipboardEvent
  sets_text : List ℕ → ClipboardEvent
  closes : ClipboardEvent
  runs_queued : ClipboardEvent
  lists_formats : List ℕ → ClipboardEvent
  requests_data : ℕ → ClipboardEvent
  responds : Bool → Option (List ℕ) → ClipboardEvent

module _ (formats : ClipboardFormats) (codecs : TextCodecs) where
  -- FreeRDP hands on a client's message only while the channel exists.
  unfoldable pub step : ClipboardEvent → Clipboard → Clipboard
  step (initializes created started) s = (initialize created started s).0
  step (enables enabled) s = set_enabled enabled s
  step (sets_text text) s = set_server_text text s
  step closes s = close s
  step runs_queued s = run_queued formats codecs s
  step (lists_formats ids) s =
      if s.has_context then on_client_format_list formats codecs ids s else s
  step (requests_data format) s =
      if s.has_context then on_client_format_data_request formats codecs format s else s
  step (responds response_ok bytes) s =
      if s.has_context then on_client_format_data_response formats codecs response_ok bytes s else s

  abbrev pub run : List ClipboardEvent → Clipboard → Clipboard
  run [] s = s
  run (event ∷ events) s = run events (step event s)
