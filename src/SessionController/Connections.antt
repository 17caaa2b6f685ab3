-- ===== src/SessionController/Connections.antt =====
-- server/SessionController.cpp: the wrappers over the life of the controller.
use kheadless_krdp.Prelude.{
  ℕ, ◌≡◌, refl, ◌∙◌, ap, subst, Bool, Option, none, some, List, [], ◌∷◌, ◌++◌, ◌==◌, if◌then◌else◌,
  All, All-append, arith, Bool-cases, inl, inr,
}
use kheadless_krdp.Prelude.Int.{ℤ}
use kheadless_krdp.AbstractSession.{VirtualMonitor, AbstractSession}
use kheadless_krdp.SessionController.{
  SessionController, SessionWrapper, to_u8, value_or_none, make_session, on_new_connection,
  on_connection_destroyed, on_session_error, remove_wrapper, add_wrapper, configured, with_quality,
}

pub data ControllerEvent : Type 0 where
  connects : (id connection : ℕ) → ControllerEvent
  destroyed : (id : ℕ) → ControllerEvent
  fails : (connection : ℕ) → ControllerEvent

module _ (with_plasma : Bool) where
  abbrev pub step : ControllerEvent → SessionController → Option SessionController
  step (connects id connection) c = on_new_connection with_plasma id connection c
  step (destroyed id) c = some (on_connection_destroyed id c)
  step (fails connection) c = some (on_session_error connection c)

  abbrev pub run : List ControllerEvent → Option SessionController → Option SessionController
  run [] c = c
  run (event ∷ events) none = none
  run (event ∷ events) (some c) = run events (step event c)

abbrev pub ids : List SessionWrapper → List ℕ
ids [] = []
ids (w ∷ ws) = w.id ∷ ids ws

-- The wrappers that there should be, from the events alone.
abbrev pub others : ℕ → List ℕ → List ℕ
others id [] = []
others id (x ∷ xs) = let rest = others id xs in if x == id then rest else x ∷ rest

abbrev pub live : List ControllerEvent → List ℕ → List ℕ
live [] xs = xs
live (connects id connection ∷ events) xs = live events (xs ++ id ∷ [])
live (destroyed id ∷ events) xs = live events (others id xs)
live (_ ∷ events) xs = live events xs

-- The wrappers whose session is started.
abbrev pub begun : List ControllerEvent → List ℕ → List ℕ
begun [] ys = ys
begun (connects id connection ∷ events) ys = begun events (ys ++ id ∷ [])
begun (_ ∷ events) ys = begun events ys

abbrev pub IsAimed : Option VirtualMonitor → Option ℤ → AbstractSession → Type 0
IsAimed none index s = s.active_stream ≡ some (value_or_none index)
IsAimed (some monitor) index s = s.virtual_monitor ≡ some monitor

-- A wrapper with a session of the controller's type, that has its quality as a byte and streams its virtual monitor or,
-- where it has none, the monitor of its index, -1 if that was not set.
abbrev pub IsConfigured : Bool → SessionController → ℤ → SessionWrapper → Type 0
IsConfigured with_plasma c quality w =
    (w.session_type ≡ make_session with_plasma c.session_type)
    × (w.session.quality ≡ some (to_u8 quality))
    × IsAimed c.virtual_monitor c.monitor_index w.session

abbrev pub connections : List SessionWrapper → List ℕ
connections [] = []
connections (w ∷ ws) = w.connection ∷ connections ws

ids-append : (ws vs : List SessionWrapper) → ids (ws ++ vs) ≡ ids ws ++ ids vs
ids-append [] vs = refl
ids-append (w ∷ ws) vs = ap (λ rest. w.id ∷ rest) (ids-append ws vs)

connections-append :
    (ws vs : List SessionWrapper) → connections (ws ++ vs) ≡ connections ws ++ connections vs
connections-append [] vs = refl
connections-append (w ∷ ws) vs = ap (λ rest. w.connection ∷ rest) (connections-append ws vs)

with_quality-wrappers :
    (with_plasma : Bool) (id j : ℕ) (c : SessionController) (quality : Option ℤ)
    {d : SessionController}
    → with_quality with_plasma id j c quality ≡ some d
    → (connections d.wrappers ≡ connections c.wrappers ++ j ∷ [])
      × (ids d.wrappers ≡ ids c.wrappers ++ id ∷ [])
with_quality-wrappers with_plasma id j c none made = cc
with_quality-wrappers with_plasma id j c (some quality) {d} made =
    let added : add_wrapper with_plasma id j c quality ≡ d = cc in
    subst
      (λ d.
        (connections d.wrappers ≡ connections c.wrappers ++ j ∷ [])
        × (ids d.wrappers ≡ ids c.wrappers ++ id ∷ []))
      added (unfold add_wrapper in (connections-append c.wrappers _, ids-append c.wrappers _))

-- A new connection adds its wrapper behind the others.
pub on_new_connection-wrappers :
    (with_plasma : Bool) (id j : ℕ) (c : SessionController) {d : SessionController}
    → on_new_connection with_plasma id j c ≡ some d
    → (connections d.wrappers ≡ connections c.wrappers ++ j ∷ [])
      × (ids d.wrappers ≡ ids c.wrappers ++ id ∷ [])
unfolding on_new_connection
on_new_connection-wrappers with_plasma id j c made =
    with_quality-wrappers with_plasma id j c c.quality made

module _ (with_plasma : Bool) (c : SessionController) (quality : ℤ) where
  -- A controller with the settings of `c`, and with the wrappers of a list of pointers and the sessions started of another.
  abbrev Holds : List ℕ → List ℕ → SessionController → Type 0
  Holds xs ys t =
      (t.session_type ≡ c.session_type)
      × (t.quality ≡ some quality)
      × (t.virtual_monitor ≡ c.virtual_monitor)
      × (t.monitor_index ≡ c.monitor_index)
      × (ids t.wrappers ≡ xs)
      × (t.started ≡ ys)
      × All (IsConfigured with_plasma c quality) t.wrappers

  ids-remove_wrapper :
      (id : ℕ) (ws : List SessionWrapper) → ids (remove_wrapper id ws) ≡ others id (ids ws)
  unfolding remove_wrapper
  ids-remove_wrapper id [] = refl
  ids-remove_wrapper id (w ∷ ws) = ground (arith, ids-remove_wrapper id ws)

  remove_wrapper-All :
      (id : ℕ) (ws : List SessionWrapper)
      → All (IsConfigured with_plasma c quality) ws
      → All (IsConfigured with_plasma c quality) (remove_wrapper id ws)
  unfolding remove_wrapper
  remove_wrapper-All id [] h = tt
  remove_wrapper-All id (w ∷ ws) h = elim (Bool-cases (w.id == id)) [
    | inl same ↦ rw same (remove_wrapper-All id ws h.1)
    | inr other ↦ rw other (h.0, remove_wrapper-All id ws h.1)
  ]

  configured-IsAimed :
      (monitor : Option VirtualMonitor) (index : Option ℤ)
      → ((configured monitor index quality).quality ≡ some (to_u8 quality))
        × IsAimed monitor index (configured monitor index quality)
  unfolding configured
  configured-IsAimed none index = (refl, refl)
  configured-IsAimed (some monitor) index = (refl, refl)

  add_wrapper-Holds :
      (id connection : ℕ) (xs ys : List ℕ) (t : SessionController)
      → Holds xs ys t
      → Holds (xs ++ id ∷ []) (ys ++ id ∷ []) (add_wrapper with_plasma id connection t quality)
  unfolding add_wrapper
  add_wrapper-Holds id connection xs ys t (s, q, v, m, i, b, h) =
      let session = configured t.virtual_monitor t.monitor_index quality in
      let aimed : (session.quality ≡ some (to_u8 quality))
          × IsAimed c.virtual_monitor c.monitor_index session =
        rw (v, m) (configured-IsAimed c.virtual_monitor c.monitor_index) in
      (
        s,
        q,
        v,
        m,
        ids-append t.wrappers _ ∙ ap (λ xs. xs ++ id ∷ []) i,
        ap (λ ys. ys ++ id ∷ []) b,
        All-append (IsConfigured with_plasma c quality) t.wrappers _ h
            ((ap (make_session with_plasma) s, aimed.0, aimed.1), tt),
      )

  on_new_connection-Holds :
      (id connection : ℕ) (xs ys : List ℕ) (t : SessionController)
      → Holds xs ys t
      → (u : SessionController) × (on_new_connection with_plasma id connection t ≡ some u)
        × Holds (xs ++ id ∷ []) (ys ++ id ∷ []) u
  unfolding on_new_connection
  on_new_connection-Holds id connection xs ys t h = (
    add_wrapper with_plasma id connection t quality,
    ap (with_quality with_plasma id connection t) h.1,
    add_wrapper-Holds id connection xs ys t h,
  )

  on_connection_destroyed-Holds :
      (id : ℕ) (xs ys : List ℕ) (t : SessionController)
      → Holds xs ys t
      → Holds (others id xs) ys (on_connection_destroyed id t)
  unfolding on_connection_destroyed
  on_connection_destroyed-Holds id xs ys t (s, q, v, m, i, b, h) = (
    s,
    q,
    v,
    m,
    ids-remove_wrapper id t.wrappers ∙ ap (others id) i,
    b,
    remove_wrapper-All id t.wrappers h,
  )

  run-Holds :
      (events : List ControllerEvent) (xs ys : List ℕ) (t : SessionController)
      → Holds xs ys t
      → (u : SessionController) × (run with_plasma events (some t) ≡ some u)
        × Holds (live events xs) (begun events ys) u
  unfolding on_session_error
  run-Holds [] xs ys t h = (t, refl, h)
  run-Holds (connects id connection ∷ events) xs ys t h =
      let (u, made, g) = on_new_connection-Holds id connection xs ys t h in
      rw made (run-Holds events (xs ++ id ∷ []) (ys ++ id ∷ []) u g)
  run-Holds (destroyed id ∷ events) xs ys t h =
      run-Holds events (others id xs) ys _ (on_connection_destroyed-Holds id xs ys t h)
  run-Holds (fails connection ∷ events) xs ys t h =
      run-Holds events xs ys (on_session_error connection t) h

  -- The controller has its quality, and no wrapper and no started session yet. Whatever connections are made and destroyed, and whichever of
  -- their sessions fail: no exception is thrown, there is a wrapper for each making that no destruction followed, in
  -- this order and no other, exactly the sessions of all makings were started, and a wrapper's session has the controller's type, its quality as a byte, and its virtual monitor
  -- or else its monitor index.
  pub run-live :
      (events : List ControllerEvent)
      → c.quality ≡ some quality
      → c.wrappers ≡ []
      → c.started ≡ []
      → (u : SessionController) × (run with_plasma events (some c) ≡ some u)
        × (ids u.wrappers ≡ live events [])
        × (u.started ≡ begun events [])
        × All (IsConfigured with_plasma c quality) u.wrappers
  run-live events q empty none_yet =
      let (u, r, h) =
        run-Holds events [] [] c (refl, q, refl, refl, ap ids empty, none_yet, rw empty tt) in
      (u, r, h.4, h.5, h.6)
