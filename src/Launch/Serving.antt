-- ===== src/Launch/Serving.antt =====
-- server/main.cpp with server/SessionController.cpp: what the connections of a program that serves get.
use kheadless_krdp.Prelude.{
  ◌≡◌, refl, sym, ◌∙◌, ap, subst, Bool, true, false, Option, none, some, List, [], if◌then◌else◌,
  All, All-map, Option-cases, inl, inr,
}
use kheadless_krdp.Prelude.Int.{ℤ}
use kheadless_krdp.Prelude.Texts.{Text}
use kheadless_krdp.AbstractSession.{AbstractSession}
use kheadless_krdp.ServerConfig.{Settings, Keychain}
use kheadless_krdp.Server.{Server, start}
use kheadless_krdp.SessionController.{
  SessionController, SessionWrapper, portal, plasma, set_monitor_index, set_virtual_monitor,
  set_quality, make_session, to_u8, value_or_none,
}
use kheadless_krdp.SessionController.Connections.{
  ControllerEvent, run, ids, live, begun, IsAimed, run-live,
}
use kheadless_krdp.Launch.VirtualMonitors.{Groups, match, made}
use kheadless_krdp.Launch.{
  Options, System, serves, bad_virtual_monitor, value_or, index_of, choose_monitor, serve, go_on,
  new_controller, launch,
}

module _ (system : System) where
  abbrev pub quality_of : Options → Settings → ℤ
  quality_of o config = value_or system.to_int o.quality config.quality

  -- The monitor that the options ask for: the virtual one, or else that of an index, -1 for none.
  abbrev pub IsAsked : Options → Option Text → AbstractSession → Type 0
  IsAsked o none s = s.active_stream ≡ some (value_or_none (index_of system o.monitor))
  IsAsked o (some text) s =
      (groups : Groups) × (match text ≡ some groups)
      × (s.virtual_monitor ≡ some (made system.to_int system.to_double text groups))

  abbrev pub IsServed : Bool → Options → Settings → SessionWrapper → Type 0
  IsServed with_plasma o config w =
      (w.session_type ≡ make_session with_plasma (if o.plasma then plasma else portal))
      × (w.session.quality ≡ some (to_u8 (quality_of o config)))
      × IsAsked o o.virtual_monitor w.session

  serve-controller :
      (o : Options) (config : Settings) (server : Server) (c : SessionController)
      (r : Server × Bool)
      → (serve system o config server c r).controller ≡ set_quality (some (quality_of o config)) c
  serve-controller o config server c (s, true) = refl
  serve-controller o config server c (s, false) = refl

  -- What a controller does over its life.
  Serves :
      Bool → Options → Settings → Option Text → List ControllerEvent → SessionController → Type 0
  Serves with_plasma o config v events c =
      (u : SessionController) × (run with_plasma events (some c) ≡ some u)
      × (ids u.wrappers ≡ live events [])
      × (u.started ≡ begun events [])
      × All
          (λ w.
            (w.session_type ≡ make_session with_plasma (if o.plasma then plasma else portal))
            × (w.session.quality ≡ some (to_u8 (quality_of o config)))
            × IsAsked o v w.session)
          u.wrappers

  aimed-Serves :
      (with_plasma : Bool) (o : Options) (config : Settings) (v : Option Text)
      (events : List ControllerEvent) (c : SessionController)
      → c.session_type ≡ (if o.plasma then plasma else portal)
      → c.wrappers ≡ []
      → c.started ≡ []
      → ((s : AbstractSession) → IsAimed c.virtual_monitor c.monitor_index s → IsAsked o v s)
      → Serves with_plasma o config v events (set_quality (some (quality_of o config)) c)
  unfolding Serves set_quality
  aimed-Serves with_plasma o config v events c kind empty none_yet aims =
      let d = set_quality (some (quality_of o config)) c in
      let (u, r, i, b, h) =
        run-live with_plasma d (quality_of o config) events refl empty none_yet in
      (
        u,
        r,
        i,
        b,
        All-map (λ w g. (g.0 ∙ ap (make_session with_plasma) kind, g.1, aims w.session g.2))
            u.wrappers h,
      )

  chosen-Serves :
      (with_plasma : Bool) (o : Options) (config : Settings) (server : Server) (v : Option Text)
      (events : List ControllerEvent)
      → (let l =
            go_on system o config server
              (new_controller o.plasma)
              (choose_monitor system o v (new_controller o.plasma)) in
          l.exit ≡ serves → Serves with_plasma o config v events l.controller)
  unfolding choose_monitor set_monitor_index set_virtual_monitor
  chosen-Serves with_plasma o config server none events e =
      subst (Serves with_plasma o config none events)
        (sym (serve-controller o config server _ (start system.exists system.listens server)))
        (aimed-Serves with_plasma o config none events
          (set_monitor_index (index_of system o.monitor) (new_controller o.plasma)) refl refl refl
          (λ s a. a))
  chosen-Serves with_plasma o config server (some text) events e =
      elim (Option-cases (match text)) [
        | inl missing ↦ absurd (let f : bad_virtual_monitor ≡ serves = rw missing at e in cc)
        | inr (groups, found) ↦ rw found (
            subst (Serves with_plasma o config (some text) events)
              (sym (serve-controller o config server _ (start system.exists system.listens server)))
              (aimed-Serves with_plasma o config (some text) events
                (set_virtual_monitor (made system.to_int system.to_double text groups)
                  (new_controller o.plasma))
                refl refl refl (λ s a. (groups, found, a))))
      ]

  -- If the program comes to serve, then whatever connections are made and destroyed, and whichever of their sessions
  -- fail: no exception is thrown, there is a wrapper for each making that no destruction followed, in this order and
  -- no other, exactly the sessions of all makings were started, and a wrapper's session is of the kind that was
  -- asked for, as far as it was built, has the quality of the options or else of the settings, as a byte, and
  -- streams the virtual monitor that the option describes or, without that option, the monitor of the given index,
  -- -1 if there is none.
  pub launch-serves :
      (k : Keychain) (latin1 : Text → Text) (with_plasma : Bool) (o : Options) (config : Settings)
      (wallet : k.State) (events : List ControllerEvent)
      → (launch system k latin1 o config wallet).exit ≡ serves
      → (u : SessionController) × (run with_plasma events
            (some (launch system k latin1 o config wallet).controller)
          ≡ some u)
        × (ids u.wrappers ≡ live events [])
        × (u.started ≡ begun events [])
        × All (IsServed with_plasma o config) u.wrappers
  unfolding launch Serves
  launch-serves k latin1 with_plasma o config wallet events e =
      chosen-Serves with_plasma o config _ o.virtual_monitor events e
