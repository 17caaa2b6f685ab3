-- ===== src/Clipboard/Requests.antt =====
-- src/Clipboard.cpp: every text that the client is said to have copied was asked for.
use kheadless_krdp.Prelude.{
  ℕ, suc, ◌+◌, ◌≤◌, ◌≡◌, inl, inr, subst, Bool, false, Option, none, some, List, [], ◌∷◌, ◌++◌,
  ◌==◌, if◌then◌else◌, length, length-append, arith, Bool-cases, Option-cases,
}
use kheadless_krdp.Clipboard.Codec.{ClipboardFormats, TextCodecs, decode_clipboard_text}
use kheadless_krdp.Clipboard.Codec.RoundTrip.{decode_clipboard_text-zero}
use kheadless_krdp.Clipboard.{
  Clipboard, ClipPdu, server_format_list, server_format_list_response, server_format_data_request,
  server_format_data_response, initial, send, initialize, set_enabled, set_server_text, close,
  run_queued, send_server_data, on_client_format_list, on_client_format_data_request,
  on_client_format_data_response, choose_format, request_data,
}
use kheadless_krdp.Clipboard.Events.{
  ClipboardEvent, initializes, enables, sets_text, closes, runs_queued, lists_formats,
  requests_data, responds, step, run,
}

abbrev pub data_requests : List ClipPdu → ℕ
data_requests [] = 0
data_requests (server_format_data_request format ∷ pdus) = suc (data_requests pdus)
data_requests (_ ∷ pdus) = data_requests pdus

data_requests-snoc :
    (pdus : List ClipPdu) (pdu : ClipPdu)
    → data_requests (pdus ++ pdu ∷ []) ≡ data_requests pdus + data_requests (pdu ∷ [])
data_requests-snoc [] pdu = omega arith
data_requests-snoc (p ∷ pdus) pdu = ground (arith, data_requests-snoc pdus pdu)

-- Counting the request that is still open.
abbrev pub AreRequested : Clipboard → Type 0
AreRequested s =
    length s.announced + (if s.requested_client_format == 0 then 0 else 1) ≤ data_requests s.sent

module _ (formats : ClipboardFormats) (codecs : TextCodecs) where
  abbrev AreNonzero : Type 0
  AreNonzero =
      ((formats.unicode_text == 0) ≡ false)
      × ((formats.text == 0) ≡ false)
      × ((formats.oem_text == 0) ≡ false)

  initialize-AreRequested :
      (created started : Bool) (s : Clipboard)
      → AreRequested s
      → AreRequested (initialize created started s).0
  unfolding initialize
  initialize-AreRequested created started s h = ground arith

  list-AreRequested :
      (ids : List ℕ) (s : Clipboard)
      → AreRequested s
      → AreRequested (on_client_format_list formats codecs ids s)
  unfolding on_client_format_list request_data
  list-AreRequested ids s h =
      let chosen = if s.enabled then choose_format formats codecs 0 ids else 0 in
      let answered = s.sent ++ server_format_list_response ∷ [] in
      ground (
        arith,
        data_requests-snoc s.sent server_format_list_response,
        data_requests-snoc answered (server_format_data_request chosen),
      )

  response-AreRequested :
      (response_ok : Bool) (bytes : Option (List ℕ)) (s : Clipboard)
      → AreNonzero
      → AreRequested s
      → AreRequested (on_client_format_data_response formats codecs response_ok bytes s)
  unfolding on_client_format_data_response
  response-AreRequested response_ok bytes s c h =
      elim (Option-cases (decode_clipboard_text formats codecs bytes s.requested_client_format)) [
        | inl e ↦ rw e (ground arith)
        | inr (text, e) ↦
            rw e (ground (arith, length-append s.announced (text ∷ []), unsolicited text e))
      ]
    where
      unsolicited :
          (text : List ℕ)
          → decode_clipboard_text formats codecs bytes s.requested_client_format ≡ some text
          → (s.requested_client_format == 0) ≡ false
      unsolicited text e = elim (Bool-cases (s.requested_client_format == 0)) [
        | inr f ↦ f
        | inl f ↦
            let z : s.requested_client_format ≡ 0 = ground arith in
            let g : decode_clipboard_text formats codecs bytes 0 ≡ some text =
              subst (λ r. decode_clipboard_text formats codecs bytes r ≡ some text) z e in
            let n : decode_clipboard_text formats codecs bytes 0 ≡ none =
              decode_clipboard_text-zero formats codecs bytes c.0 c.1 c.2 in
            cc
      ]

  answer-AreRequested :
      (bytes : Option (List ℕ)) (s : Clipboard)
      → AreRequested s
      → AreRequested (send (server_format_data_response bytes) s)
  answer-AreRequested bytes s h =
      omega (arith, data_requests-snoc s.sent (server_format_data_response bytes))

  request-AreRequested :
      (format : ℕ) (s : Clipboard)
      → AreRequested s
      → AreRequested (on_client_format_data_request formats codecs format s)
  unfolding on_client_format_data_request
  request-AreRequested format s h = answer-AreRequested _ s h

  step-AreRequested :
      (event : ClipboardEvent) (s : Clipboard)
      → AreNonzero
      → AreRequested s
      → AreRequested (step formats codecs event s)
  unfolding step set_enabled set_server_text close run_queued send_server_data
  step-AreRequested (initializes created started) s c h =
      initialize-AreRequested created started s h
  step-AreRequested (enables enabled) s c h = ground arith
  step-AreRequested (sets_text text) s c h = ground arith
  step-AreRequested closes s c h = ground arith
  step-AreRequested runs_queued s c h =
      ground (arith, data_requests-snoc s.sent (server_format_list formats.unicode_text))
  step-AreRequested (lists_formats ids) s c h = ground (arith, list-AreRequested ids s h)
  step-AreRequested (requests_data format) s c h = ground (arith, request-AreRequested format s h)
  step-AreRequested (responds response_ok bytes) s c h =
      ground (arith, response-AreRequested response_ok bytes s c h)

  run-AreRequested_from :
      (events : List ClipboardEvent) (s : Clipboard)
      → AreNonzero
      → AreRequested s
      → AreRequested (run formats codecs events s)
  run-AreRequested_from [] s c h = h
  run-AreRequested_from (event ∷ events) s c h =
      run-AreRequested_from events (step formats codecs event s) c (step-AreRequested event s c h)

  -- The constants are not 0. Whatever sequence of calls and client messages a clipboard goes through from its creation,
  -- the texts that the client is said to have copied, and the request that is still open, are together no more than the
  -- requests for data that were sent to it: a response that nobody asked for announces nothing.
  pub run-AreRequested :
      (events : List ClipboardEvent)
      → ((formats.unicode_text == 0) ≡ false)
        × ((formats.text == 0) ≡ false)
        × ((formats.oem_text == 0) ≡ false)
      → AreRequested (run formats codecs events initial)
  run-AreRequested events c = run-AreRequested_from events initial c (omega arith)
