-- ===== src/Launch/Outcome.antt =====
-- server/main.cpp: when the program serves, and what its connections get.
use kheadless_krdp.Prelude.{
  ℕ, ◌≡◌, refl, ◌∙◌, ap, Bool, true, false, ◌&&◌, not, Option, none, some, List, [], ◌∷◌,
  if◌then◌else◌, arith, Option-cases, inl, inr,
}
use kheadless_krdp.Prelude.Texts.{Text, eq_text_iff}
use kheadless_krdp.ServerConfig.{Settings, Keychain}
use kheadless_krdp.Server
use kheadless_krdp.Server.{
  Server, set_address, set_port, set_tls_certificate, set_tls_certificate_key, start, add_user,
}
use kheadless_krdp.SessionController.{SessionController}
use kheadless_krdp.Launch.Users.{add_users, read_users}
use kheadless_krdp.Launch.VirtualMonitors.{Groups, match}
use kheadless_krdp.Launch.{
  Options, System, serves, bad_virtual_monitor, not_started, to_u16, value_or, address_of, settle,
  choose_monitor, serve, go_on, new_controller, launch,
}

-- A setter's test for a change makes no difference.
set_address_lem :
    (address : ℕ) (s : Server) → set_address address s ≡ record s { address = address }
unfolding set_address
set_address_lem address s = ground arith

set_port_lem : (port : ℕ) (s : Server) → set_port port s ≡ record s { port = port }
unfolding set_port
set_port_lem port s = ground arith

set_tls_certificate_lem :
    (path : Text) (s : Server) → set_tls_certificate path s ≡ record s { tls_certificate = path }
unfolding set_tls_certificate
set_tls_certificate_lem path s = ground (arith, eq_text_iff path s.tls_certificate)

set_tls_certificate_key_lem :
    (path : Text) (s : Server)
    → set_tls_certificate_key path s ≡ record s { tls_certificate_key = path }
unfolding set_tls_certificate_key
set_tls_certificate_key_lem path s = ground (arith, eq_text_iff path s.tls_certificate_key)

module _ (system : System) where
  -- The server that is asked for.
  abbrev pub asked_server : Options → Settings → Server
  asked_server o config = record (Server.initial system.local_host) {
    address = address_of system o.address;
    port = to_u16 (value_or system.to_int o.port config.listen_port);
    tls_certificate = value_or (λ t. t) o.certificate config.certificate;
    tls_certificate_key = value_or (λ t. t) o.certificate_key config.certificate_key;
  }

  settle_lem : (o : Options) (config : Settings) → settle system o config ≡ asked_server o config
  unfolding settle
  settle_lem o config =
      simp (set_address_lem, set_port_lem, set_tls_certificate_lem, set_tls_certificate_key_lem)

module _ (k : Keychain) (latin1 : Text → Text) where
  read_users-server :
      (users : List Text) (wallet : k.State) (s : Server)
      → (read_users k latin1 users wallet s)
        ≡ record s { users = (read_users k latin1 users wallet s).users }
  unfolding read_users add_user
  read_users-server [] wallet s = refl
  read_users-server (name ∷ users) wallet s = elim (Option-cases (k.read (latin1 name) wallet)) [
    | inl e ↦ rw (read_users, e) (read_users-server users wallet s)
    | inr (password, e) ↦ rw (read_users, e) (read_users-server users wallet _)
  ]

  -- Only the users of a server are added to.
  add_users-server :
      (username : Option Text) (password : Text) (users : List Text) (wallet : k.State) (s : Server)
      → add_users k latin1 username password users wallet s
        ≡ record s { users = (add_users k latin1 username password users wallet s).users }
  unfolding add_users add_user
  add_users-server none password users wallet s = read_users-server users wallet s
  add_users-server (some name) password users wallet s = refl

abbrev pub is_match : Option Groups → Bool
is_match none = false
is_match (some groups) = true

abbrev pub monitor_matches : Option Text → Bool
monitor_matches none = true
monitor_matches (some text) = is_match (match text)

module _ (system : System) where
  abbrev pub can_start : Options → Settings → Bool
  can_start o config =
      let s = asked_server system o config in
      system.exists s.tls_certificate
      && system.exists s.tls_certificate_key
      && system.listens s.address s.port

  module _ (k : Keychain) (latin1 : Text → Text) (o : Options) (config : Settings)
      (wallet : k.State) where
    abbrev pub with_users : Server
    with_users =
        add_users k latin1 o.username o.password config.users wallet (settle system o config)

    with_users-asked :
        with_users ≡ record (asked_server system o config) { users = with_users.users }
    with_users-asked =
        add_users-server k latin1 o.username o.password config.users wallet (settle system o config)
        ∙ ap {A = Server} (λ s. record s { users = with_users.users }) (settle_lem system o config)

    start_lem :
        ((start system.exists system.listens with_users).1 ≡ can_start o config)
        × ((start system.exists system.listens with_users).0.listening ≡ can_start o config)
    unfolding start
    start_lem = rw with_users-asked (ground arith, ground arith)

    serve-exit :
        (c : SessionController) (r : Server × Bool)
        → ((serve system o config with_users c r).exit ≡ (if r.1 then serves else not_started))
          × ((serve system o config with_users c r).server ≡ r.0)
    serve-exit c (server, true) = (refl, refl)
    serve-exit c (server, false) = (refl, refl)

    serve-outcome :
        (c : SessionController)
        → (let l =
              serve system o config with_users c (start system.exists system.listens with_users) in
            (l.exit ≡ (if can_start o config then serves else not_started))
            × (l.server.listening ≡ can_start o config))
    serve-outcome c =
        let r = start system.exists system.listens with_users in
        (
          (serve-exit c r).0 ∙ ap (λ b. if b then serves else not_started) start_lem.0,
          ap Server.listening (serve-exit c r).1 ∙ start_lem.1,
        )

    launch_from :
        (v : Option Text)
        → (let l =
              go_on system o config with_users
                (new_controller o.plasma)
                (choose_monitor system o v (new_controller o.plasma)) in
            (l.exit ≡ (
              if not (monitor_matches v)
              then bad_virtual_monitor
              else if can_start o config
              then serves
              else not_started))
            × (l.server.listening ≡ (monitor_matches v && can_start o config)))
    unfolding choose_monitor
    launch_from none = serve-outcome _
    launch_from (some text) = elim (Option-cases (match text)) [
      | inl e ↦ rw e (refl, ap Server.listening with_users-asked)
      | inr (groups, e) ↦ rw e (serve-outcome _)
    ]

    -- The program returns at once if the option for a virtual monitor is set and does not match its pattern; otherwise it
    -- serves exactly if there are both files of the certificate and it can listen at its address and port, each taken
    -- from the options where they are set and else from the settings, or for the address any. The server listens
    -- exactly in this case.
    pub launch-exit :
        (let l = launch system k latin1 o config wallet in
          (l.exit ≡ (
            if not (monitor_matches o.virtual_monitor)
            then bad_virtual_monitor
            else if can_start o config
            then serves
            else not_started))
          × (l.server.listening ≡ (monitor_matches o.virtual_monitor && can_start o config)))
    unfolding launch
    launch-exit = launch_from o.virtual_monitor
