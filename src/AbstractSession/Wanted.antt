-- ===== src/AbstractSession/Wanted.antt =====
-- src/AbstractSession.cpp: who wants a session to stream.
use kheadless_krdp.Prelude.{
  ℕ, ◌≡◌, ◌↔◌, inl, inr, refl, sym, ap, ◌∙◌, Bool, true, false, ◌||◌, not, if◌then◌else◌, some,
  List, [], ◌∷◌, ◌==◌, length, arith, Bool-cases,
}
use kheadless_krdp.AbstractSession.{
  AbstractSession, set_active_stream, set_virtual_monitor, set_size, set_logical_size,
  set_video_frame_rate, set_video_quality, stream, set_started, request_streaming_enable,
  request_streaming_disable, contains, remove,
}
use kheadless_krdp.AbstractSession.Streaming.{
  Request, asks, withdraws, Reach, begins, makes_stream, starts, sets_frame_rate, sets_quality,
  sets_active_stream, sets_virtual_monitor, sets_size, sets_logical_size, enables, disables,
  IsActiveIf, contains-length, Reach-StreamsOnRequest,
}

-- Whether the last that a requester did is to ask.
abbrev pub wants : ℕ → List Request → Bool
wants r [] = false
wants r (asks q ∷ h) = q == r || wants r h
wants r (withdraws q ∷ h) = if q == r then false else wants r h

contains-remove :
    (r q : ℕ) (xs : List ℕ) → contains r (remove q xs) ≡ (if q == r then false else contains r xs)
unfolding contains remove
contains-remove r q [] = ground arith
contains-remove r q (x ∷ xs) = ground (arith, contains-remove r q xs)

-- The list of requesters has those that want streaming.
abbrev ListsWants : List Request → AbstractSession → Type 0
ListsWants h s = (r : ℕ) → contains r s.enable_requests ≡ wants r h

enable-ListsWants :
    (q : ℕ) (h : List Request) (s : AbstractSession)
    → ListsWants h s
    → ListsWants (asks q ∷ h) (request_streaming_enable q s)
unfolding request_streaming_enable contains
enable-ListsWants q h s v r = ground (arith, contains-remove r q s.enable_requests, v r)

disable-ListsWants :
    (q : ℕ) (h : List Request) (s : AbstractSession)
    → ListsWants h s
    → ListsWants (withdraws q ∷ h) (request_streaming_disable q s)
unfolding request_streaming_disable
disable-ListsWants q h s v r = elim (Bool-cases (contains q s.enable_requests)) [
  | inr e ↦ rw e (elim (Bool-cases (q == r)) [
    | inl same ↦
        let at : q ≡ r = ground arith in
        rw same (ap (λ k. contains k s.enable_requests) (sym at) ∙ e)
    | inr other ↦ rw other (v r)
  ])
  | inl e ↦ elim (Bool-cases (length (remove q s.enable_requests) == 0)) [
    | inl f ↦ rw (e, f) (ground (arith, contains-remove r q s.enable_requests, v r))
    | inr f ↦ rw (e, f) (ground (arith, contains-remove r q s.enable_requests, v r))
  ]
]

start-ListsWants :
    (h : List Request) (s t : AbstractSession)
    → set_started true s ≡ some t
    → ListsWants h s
    → ListsWants h t
unfolding set_started
start-ListsWants h s t e v r =
    let same : t.enable_requests ≡ s.enable_requests = ground arith in rw same (v r)

Reach-ListsWants : {h : List Request} {s : AbstractSession} → Reach h s → ListsWants h s
unfolding stream set_video_frame_rate set_video_quality set_active_stream set_virtual_monitor
    set_size set_logical_size contains
Reach-ListsWants begins = λ r. refl
Reach-ListsWants (makes_stream r) = Reach-ListsWants r
Reach-ListsWants (starts e r) = start-ListsWants _ _ _ e (Reach-ListsWants r)
Reach-ListsWants (sets_frame_rate rate r) = Reach-ListsWants r
Reach-ListsWants (sets_quality q r) = Reach-ListsWants r
Reach-ListsWants (sets_active_stream i r) = Reach-ListsWants r
Reach-ListsWants (sets_virtual_monitor m r) = Reach-ListsWants r
Reach-ListsWants (sets_size size r) = Reach-ListsWants r
Reach-ListsWants (sets_logical_size size r) = Reach-ListsWants r
Reach-ListsWants (enables q r) = enable-ListsWants q _ _ (Reach-ListsWants r)
Reach-ListsWants (disables q r) = disable-ListsWants q _ _ (Reach-ListsWants r)

some_requester : (xs : List ℕ) → not (length xs == 0) ≡ true → (r : ℕ) × (contains r xs ≡ true)
unfolding contains
some_requester [] h = absurd (cc)
some_requester (x ∷ xs) h = (x, ground arith)

-- In every reachable state, streaming is enabled exactly if there is a requester that has asked for it and has neither
-- withdrawn nor been destroyed since, whatever the others did, and a session that has an encoder has it active exactly
-- when streaming is enabled and the session has started; a session without one has not started.
pub Reach-IsWanted :
    {h : List Request} {s : AbstractSession}
    → Reach h s
    → ((s.enabled ≡ true) ↔ ((r : ℕ) × (wants r h ≡ true)))
      × IsActiveIf s.enabled s.started s.encoded_stream
Reach-IsWanted {h} {s} reach =
    let v = Reach-StreamsOnRequest reach in
    let lists = Reach-ListsWants reach in
    (
      (
        λ on.
            let (r, listed) = some_requester s.enable_requests (sym v.0 ∙ on) in
            (r, sym (lists r) ∙ listed),
        λ (r, asked). v.0 ∙ ap not (contains-length r s.enable_requests (lists r ∙ asked)),
      ),
      v.1,
    )
