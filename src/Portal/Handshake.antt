-- ===== src/Portal/Handshake.antt =====
-- src/PortalSession.cpp: how starting a session ends.
use kheadless_krdp.Prelude.{
  ℕ, zero, suc, ◌+◌, ◌<◌, ◌≡◌, inl, inr, refl, ◌∙◌, ap, subst, Bool, true, false, ◌&&◌, not, Option,
  none, some, List, [], ◌∷◌, ◌++◌, ◌==◌, if◌then◌else◌, length, get_elem?, arith, Bool-cases,
}
use kheadless_krdp.Prelude.Int.{ℤ, pos, negsuc, leb_ℤ}
use kheadless_krdp.AbstractSession.{
  stream, set_started, active_stream_or, set_active_stream, set_logical_size,
}
use kheadless_krdp.Portal.{
  PortalStream, PortalSession, PortalCall, Answers, create_session, select_devices, select_sources,
  start_session, open_pipewire_remote, call, error, start, on_create_session, on_devices_selected,
  on_sources_selected, on_session_started, on_remote_opened, is_given, stream_index, start_stream,
  choose_stream, respond_to, respond_all, handshake, stored_token,
}

get_elem?-some :
    (xs : List PortalStream) (i : ℕ)
    → i < length xs
    → (x : PortalStream) × (get_elem? xs i ≡ some x)
get_elem?-some [] i h = absurd (omega arith)
get_elem?-some (x ∷ xs) zero h = (x, refl)
get_elem?-some (x ∷ xs) (suc i) h = get_elem?-some xs i (omega arith)

-- A result of the handlers with a session that has started or not, as many errors, and no call that is unanswered.
abbrev pub Ends : (started : Bool) (errors : ℕ) → Option PortalSession → Type 0
Ends started errors result =
    (t : PortalSession) × (result ≡ some t)
    × (t.session.started ≡ started)
    × (t.errors ≡ errors)
    × (t.pending ≡ none)

respond_all-idle :
    (n : ℕ) (a : Answers) (s : PortalSession) → s.pending ≡ none → respond_all n a (some s) ≡ some s
respond_all-idle zero a s h = refl
respond_all-idle (suc n) a s h =
    ap (λ p. respond_all n a (respond_to a p s)) h ∙ respond_all-idle n a s h

start_stream-Ends :
    (descriptor : ℕ) (chosen : PortalStream) (s : PortalSession)
    → s.pending ≡ none
    → Ends true s.errors (start_stream descriptor chosen s)
unfolding start_stream set_started stream set_logical_size
start_stream-Ends descriptor chosen s h = (_, refl, refl, refl, h)

choose_stream-Ends :
    (a : Answers) (s : PortalSession)
    → stream_index (active_stream_or s.session) < length a.streams
    → s.pending ≡ none
    → Ends true s.errors (choose_stream a s)
unfolding choose_stream
choose_stream-Ends a s b h =
    let found = get_elem?-some a.streams (stream_index (active_stream_or s.session)) b in
    rw (choose_stream, found.1) (start_stream-Ends a.descriptor found.0 s h)

no_more : (n : ℕ) → n ≡ n + 0
no_more n = omega arith

in_range : (index : ℤ) (n : ℕ) → 0 < n → leb_ℤ (pos n) index ≡ false → stream_index index < n
in_range (pos i) n b h = ground arith
in_range (negsuc i) n b h = b

on_remote_opened-Ends :
    (a : Answers) (s : PortalSession)
    → 0 < length a.streams
    → s.session.started ≡ false
    → s.pending ≡ none
    → Ends a.remote_opened (s.errors + (if a.remote_opened then 0 else 1)) (on_remote_opened a s)
unfolding on_remote_opened set_active_stream
on_remote_opened-Ends a s b f h =
    let clamped = record s { session = set_active_stream (pos 0) s.session } in
    elim (Bool-cases a.remote_opened) [
      | inr e ↦ rw e (error s, refl, f, refl, h)
      | inl e ↦ rw e (
          subst
            (λ errors. Ends true errors (
              choose_stream a (
                if leb_ℤ (pos (length a.streams)) (active_stream_or s.session)
                then clamped
                else s)))
            (no_more s.errors)
            (elim (Bool-cases (leb_ℤ (pos (length a.streams)) (active_stream_or s.session))) [
              | inl over ↦ rw over (choose_stream-Ends a clamped b h)
              | inr within ↦ rw within (
                  choose_stream-Ends a s
                    (in_range (active_stream_or s.session) (length a.streams) b within) h)
            ]))
    ]

-- Whether the portal grants all that is asked of it from the call on.
abbrev grants_start : Answers → Bool
grants_start a =
    a.start_code == 0 && (not (a.devices == 0) && (not (length a.streams == 0) && a.remote_opened))

abbrev pub grants_all : Answers → Bool
grants_all a =
    a.create_code == 0 && (a.devices_code == 0 && (a.sources_code == 0 && grants_start a))

-- After the first of a number of answers.
abbrev EndsAfter : Answers → Bool → ℕ → ℕ → PortalSession → Type 0
EndsAfter a granted base n s =
    Ends granted (base + (if granted then 0 else 1)) (respond_all n a (some s))

fails :
    (a : Answers) (n : ℕ) (s : PortalSession)
    → s.session.started ≡ false
    → s.pending ≡ none
    → EndsAfter a false s.errors n (error s)
fails a n s f h = (error s, respond_all-idle n a (error s) h, f, refl, h)

unless :
    (a : Answers) (test granted : Bool) (n : ℕ) (s next : PortalSession)
    → s.session.started ≡ false
    → s.pending ≡ none
    → EndsAfter a granted s.errors n next
    → EndsAfter a (not test && granted) s.errors n (if test then error s else next)
unless a true granted n s next f p h = fails a n s f p
unless a false granted n s next f p h = h

provided :
    (a : Answers) (test granted : Bool) (n : ℕ) (s next : PortalSession)
    → s.session.started ≡ false
    → s.pending ≡ none
    → EndsAfter a granted s.errors n next
    → EndsAfter a (test && granted) s.errors n (if not test then error s else next)
provided a true granted n s next f p h = h
provided a false granted n s next f p h = fails a n s f p

-- The session whose call has been answered.
abbrev answered : PortalCall → PortalSession → PortalSession
answered c s = record s { pending = none; calls = s.calls ++ c ∷ [] }

opening :
    (a : Answers) (s : PortalSession)
    → (length a.streams == 0) ≡ false
    → s.session.started ≡ false
    → EndsAfter a a.remote_opened s.errors 1 (call open_pipewire_remote s)
opening a s b f = on_remote_opened-Ends a (answered open_pipewire_remote s) (ground arith) f refl

granting :
    (a : Answers) (s : PortalSession)
    → s.session.started ≡ false
    → s.pending ≡ none
    → EndsAfter a
        (not (length a.streams == 0) && a.remote_opened)
        s.errors
        1
        (if length a.streams == 0 then error s else call open_pipewire_remote s)
granting a s f p = elim (Bool-cases (length a.streams == 0)) [
  | inl e ↦ rw e (fails a 1 s f p)
  | inr e ↦ rw e (opening a s e f)
]

starting_session :
    (a : Answers) (s : PortalSession)
    → s.session.started ≡ false
    → EndsAfter a (grants_start a) s.errors 2 (call start_session s)
unfolding on_session_started
starting_session a s f =
    let t = answered start_session s in
    let kept = record t { restoration_token = a.restore_token } in
    let next = if length a.streams == 0 then error kept else call open_pipewire_remote kept in
    provided a (a.start_code == 0)
      (not (a.devices == 0) && (not (length a.streams == 0) && a.remote_opened)) 1 t
      (if a.devices == 0 then error t else next) f refl
      (unless a (a.devices == 0) (not (length a.streams == 0) && a.remote_opened) 1 t next f refl
        (granting a kept f refl))

selecting_sources :
    (a : Answers) (types : ℕ) (multiple : Option Bool) (s : PortalSession)
    → s.session.started ≡ false
    → EndsAfter a
        (a.sources_code == 0 && grants_start a)
        s.errors
        3
        (call (select_sources types multiple) s)
unfolding on_sources_selected
selecting_sources a types multiple s f =
    let t = answered (select_sources types multiple) s in
    provided a (a.sources_code == 0) (grants_start a) 2 t (call start_session t) f refl
      (starting_session a t f)

either_sources :
    (a : Answers) (virtual : Bool) (multiple : Bool) (s : PortalSession)
    → s.session.started ≡ false
    → EndsAfter a (a.sources_code == 0 && grants_start a) s.errors 3 (
        if virtual
        then call (select_sources 4 none) s
        else call (select_sources 1 (some multiple)) s)
either_sources a true multiple s f = selecting_sources a 4 none s f
either_sources a false multiple s f = selecting_sources a 1 (some multiple) s f

selecting_devices :
    (a : Answers) (restore_token : List ℕ) (s : PortalSession)
    → s.session.started ≡ false
    → EndsAfter a
        (a.devices_code == 0 && (a.sources_code == 0 && grants_start a))
        s.errors
        4
        (call (select_devices restore_token) s)
unfolding on_devices_selected
selecting_devices a restore_token s f =
    let t = answered (select_devices restore_token) s in
    let multiple = leb_ℤ (pos 0) (active_stream_or s.session) in
    provided a (a.devices_code == 0) (a.sources_code == 0 && grants_start a) 3 t
      (if (is_given s.session.virtual_monitor)
        then call (select_sources 4 none) t
        else call (select_sources 1 (some multiple)) t)
      f refl (either_sources a (is_given s.session.virtual_monitor) multiple t f)

-- A session that has not started, and whose every call the portal answers, is started by the fifth answer at the latest
-- if all response codes are 0, devices and streams are granted and the remote opens; otherwise it has not started and one
-- error is announced. No call is left unanswered then, and no stream is read out of range, whichever was asked for.
pub handshake-Ends :
    (a : Answers) (s : PortalSession)
    → s.session.started ≡ false
    → Ends (grants_all a) (s.errors + (if grants_all a then 0 else 1)) (handshake a s)
unfolding start on_create_session
handshake-Ends a s f =
    let t = answered create_session s in
    let token = stored_token s.restoration_token a.old_token in
    let named = record t { session_path = a.session_handle } in
    provided a (a.create_code == 0) (a.devices_code == 0 && (a.sources_code == 0 && grants_start a))
      4 t (call (select_devices token) named) f refl (selecting_devices a token named f)
