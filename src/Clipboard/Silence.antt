-- ===== src/Clipboard/Silence.antt =====
-- src/Clipboard.cpp: a clipboard that is not shared.
use kheadless_krdp.Prelude.{
  ℕ, ◌≡◌, refl, ◌∙◌, ap, Bool, true, false, Option, none, some, List, [], ◌∷◌, ◌++◌, if◌then◌else◌,
  arith, All, All-append,
}
use kheadless_krdp.Clipboard.Codec.{ClipboardFormats, TextCodecs}
use kheadless_krdp.Clipboard.{
  Clipboard, ClipPdu, server_format_list, server_format_list_response, server_format_data_request,
  server_format_data_response, initialize, set_enabled, set_server_text, close, run_queued,
  send_server_data, on_client_format_list, on_client_format_data_request,
  on_client_format_data_response, request_data,
}
use kheadless_krdp.Clipboard.Events.{
  ClipboardEvent, initializes, enables, sets_text, closes, runs_queued, lists_formats,
  requests_data, responds, step, run,
}

-- A message that says nothing of the server's clipboard and asks for nothing of the client's.
abbrev pub IsSilent : ClipPdu → Type 0
IsSilent (server_format_list format) = ⊥
IsSilent server_format_list_response = Unit
IsSilent (server_format_data_request format) = ⊥
IsSilent (server_format_data_response none) = Unit
IsSilent (server_format_data_response (some bytes)) = ⊥

abbrev pub is_enabling : ClipboardEvent → Bool
is_enabling (enables enabled) = enabled
is_enabling _ = false

-- From the first state to the second, nothing was announced and only silent messages were sent.
abbrev pub StaysSilent : Clipboard → Clipboard → Type 0
StaysSilent s t =
    (t.enabled ≡ false)
    × (t.announced ≡ s.announced)
    × (pdus : List ClipPdu) × (t.sent ≡ s.sent ++ pdus)
    × All IsSilent pdus

++_nil : (pdus : List ClipPdu) → pdus ≡ pdus ++ []
++_nil [] = refl
++_nil (pdu ∷ pdus) = ap (λ rest. pdu ∷ rest) (++_nil pdus)

++_assoc : (xs ys zs : List ClipPdu) → (xs ++ ys) ++ zs ≡ xs ++ (ys ++ zs)
++_assoc [] ys zs = refl
++_assoc (x ∷ xs) ys zs = ap (λ rest. x ∷ rest) (++_assoc xs ys zs)

sends_nothing :
    (s t : Clipboard)
    → t.enabled ≡ false
    → t.announced ≡ s.announced
    → t.sent ≡ s.sent
    → StaysSilent s t
sends_nothing s t e a h = (e, a, [], h ∙ ++_nil s.sent, tt)

StaysSilent-trans : (s t u : Clipboard) → StaysSilent s t → StaysSilent t u → StaysSilent s u
StaysSilent-trans s t u (e, a, pdus, p, q) (f, b, more, p', q') = (
  f,
  b ∙ a,
  pdus ++ more,
  p' ∙ ap (λ sent. sent ++ more) p ∙ ++_assoc s.sent pdus more,
  All-append IsSilent pdus more q q',
)

module _ (formats : ClipboardFormats) (codecs : TextCodecs) where
  initialize-StaysSilent :
      (created started : Bool) (s : Clipboard)
      → s.enabled ≡ false
      → StaysSilent s (initialize created started s).0
  unfolding initialize
  initialize-StaysSilent created started s e =
      sends_nothing s (initialize created started s).0 (ground arith) (ground arith) (ground arith)

  list-StaysSilent :
      (ids : List ℕ) (s : Clipboard)
      → s.enabled ≡ false
      → StaysSilent s (on_client_format_list formats codecs ids s)
  unfolding on_client_format_list request_data
  list-StaysSilent ids s e =
      (ground arith, ground arith, server_format_list_response ∷ [], ground arith, (tt, tt))

  request-StaysSilent :
      (format : ℕ) (s : Clipboard)
      → s.enabled ≡ false
      → StaysSilent s (on_client_format_data_request formats codecs format s)
  unfolding on_client_format_data_request
  request-StaysSilent format s e =
      (e, refl, server_format_data_response none ∷ [], rw e refl, (tt, tt))

  run_queued-StaysSilent :
      (s : Clipboard) → s.enabled ≡ false → StaysSilent s (run_queued formats codecs s)
  unfolding run_queued send_server_data
  run_queued-StaysSilent s e =
      sends_nothing s (run_queued formats codecs s) (ground arith) (ground arith) (ground arith)

  response-StaysSilent :
      (response_ok : Bool) (bytes : Option (List ℕ)) (s : Clipboard)
      → s.enabled ≡ false
      → StaysSilent s (on_client_format_data_response formats codecs response_ok bytes s)
  unfolding on_client_format_data_response
  response-StaysSilent response_ok bytes s e = rw e (refl, refl, [], ++_nil s.sent, tt)

  while_open :
      (exists : Bool) (s t : Clipboard)
      → s.enabled ≡ false
      → StaysSilent s t
      → StaysSilent s (if exists then t else s)
  while_open true s t e h = h
  while_open false s t e h = sends_nothing s s e refl refl

  step-StaysSilent :
      (event : ClipboardEvent) (s : Clipboard)
      → is_enabling event ≡ false
      → s.enabled ≡ false
      → StaysSilent s (step formats codecs event s)
  unfolding step set_enabled set_server_text close
  step-StaysSilent (initializes created started) s n e = initialize-StaysSilent created started s e
  step-StaysSilent (enables true) s n e = absurd (cc)
  step-StaysSilent (enables false) s n e = rw e (refl, refl, [], ++_nil s.sent, tt)
  step-StaysSilent (sets_text text) s n e =
      sends_nothing s (set_server_text text s) (ground arith) (ground arith) (ground arith)
  step-StaysSilent closes s n e =
      sends_nothing s (close s) (ground arith) (ground arith) (ground arith)
  step-StaysSilent runs_queued s n e = run_queued-StaysSilent s e
  step-StaysSilent (lists_formats ids) s n e =
      while_open s.has_context s (on_client_format_list formats codecs ids s) e
        (list-StaysSilent ids s e)
  step-StaysSilent (requests_data format) s n e =
      while_open s.has_context s (on_client_format_data_request formats codecs format s) e
        (request-StaysSilent format s e)
  step-StaysSilent (responds response_ok bytes) s n e =
      while_open s.has_context s (on_client_format_data_response formats codecs response_ok bytes s)
        e (response-StaysSilent response_ok bytes s e)

  -- While sharing is disabled and until it is enabled, whatever is called and whatever the client sends: no text of the
  -- client's is announced, no formats are listed, no data is asked for, and every request of the client's is refused.
  pub run-StaysSilent :
      (events : List ClipboardEvent) (s : Clipboard)
      → All (λ event. is_enabling event ≡ false) events
      → s.enabled ≡ false
      → StaysSilent s (run formats codecs events s)
  run-StaysSilent [] s n e = sends_nothing s s e refl refl
  run-StaysSilent (event ∷ events) s n e =
      let first = step-StaysSilent event s n.0 e in
      let next = step formats codecs event s in
      StaysSilent-trans s next (run formats codecs events next) first
        (run-StaysSilent events next n.1 first.0)
