-- ===== src/Service/Life.antt =====
-- src/RdpConnection.cpp, src/Server.cpp and server/SessionController.cpp: a connection from its set-up to the end of its
-- thread, and what becomes of it in the service.
use kheadless_krdp.Prelude.{
  ℕ, ◌≡◌, refl, sym, ◌∙◌, ap, subst, Bool, true, false, ◌&&◌, Option, none, some, List, [], ◌∷◌,
  ◌++◌, ◌==◌, if◌then◌else◌, arith, Bool-cases, inl, inr,
}
use kheadless_krdp.Geometry.{Rect}
use kheadless_krdp.DisplayControl.{DispConstants}
use kheadless_krdp.Connection.{
  Connection, State, SetUp, created, initialize, starting, closed, rank, set_state,
}
use kheadless_krdp.Connection.Loop.{Turn, run}
use kheadless_krdp.Connection.Loop.Order.{HasEnded, run-IsOrdered}
use kheadless_krdp.Connection.Loop.Closing.{is_last, run-EndsClosed}
use kheadless_krdp.Server.{contains, erase, on_state_changed}
use kheadless_krdp.Server.Sessions.{contains-erase}
use kheadless_krdp.SessionController.Connections.{connections}
use kheadless_krdp.Service.{Service, Reach, announces, destroy_connection}
use kheadless_krdp.Service.Wrappers.{Reach-Joins}

-- The server is told of a state, which destroys a connection that has closed.
hear_state : ℕ → State → Service → Option Service
unfolding on_state_changed
hear_state j state s = elim (on_state_changed j state s.server) [
  | none ↦ none
  | some t ↦ some (record {
    server = t;
    controller =
        if rank state == rank closed then destroy_connection j s.controller else s.controller;
  })
]

unfoldable pub hear_states : ℕ → List State → Service → Option Service
unfolding hear_state
hear_states j [] s = some s
hear_states j (state ∷ states) s = elim (hear_state j state s) [
  | none ↦ none
  | some t ↦ hear_states j states t
]

module _ (constants : DispConstants) (intersects : Rect → Rect → Bool)
    (same : List ℕ → List ℕ → Bool) where
  -- The thread runs if the set-up comes to start it.
  unfoldable pub life : SetUp → List Turn → Connection
  unfolding initialize run
  life up turns =
      let c = initialize up created in
      if c.has_thread then (run constants intersects same turns c).0 else c

abbrev stays : ℕ → Bool → ℕ → Service → Bool
stays j gone id s = if gone && j == id then false else contains id s.server.sessions

-- The service goes on without the connection if it is gone, and all others are as they were, each with its wrapper.
abbrev Leaves : Bool → ℕ → Bool → Service → Option Service → Type 0
Leaves with_plasma j gone s result =
    (t : Service) × (result ≡ some t)
    × Reach with_plasma t
    × ((id : ℕ)
        → (contains id t.server.sessions ≡ stays j gone id s)
          × (contains id (connections t.controller.wrappers) ≡ stays j gone id s))

closed-Leaves :
    {with_plasma : Bool} (j : ℕ) (s : Service)
    → Reach with_plasma s
    → contains j s.server.sessions ≡ true
    → Leaves with_plasma j true s (hear_states j (closed ∷ []) s)
unfolding hear_states hear_state on_state_changed
closed-Leaves {with_plasma} j s reach known =
    let server = record (s.server) {
      closes = s.server.closes ++ j ∷ [];
      sessions = erase j s.server.sessions;
    } in
    let done : on_state_changed j closed s.server ≡ some server = rw known refl in
    let t : Service = record { server = server; controller = destroy_connection j s.controller } in
    let after = announces j closed done reach in
    let left = λ (id : ℕ). contains-erase id j s.server.sessions (Reach-Joins reach).1 in
    (
      t,
      rw (hear_states, hear_state, done) refl,
      after,
      λ id. (left id, ap (contains id) (Reach-Joins after).0 ∙ left id),
    )

initialize-submitting : (up : SetUp) → (initialize up created).stream.submitting ≡ false
unfolding initialize set_state
initialize-submitting up = ground arith

initialize-announced : (up : SetUp) → (initialize up created).announced ≡ starting ∷ []
unfolding initialize set_state
initialize-announced up = ground arith

module _ (constants : DispConstants) (intersects : Rect → Rect → Bool)
    (same : List ℕ → List ℕ → Bool) where
  abbrev lives : SetUp → List Turn → Connection
  lives up turns = life constants intersects same up turns

  -- The states before closed change nothing in the service.
  hear_states-ended :
      (c : Connection) (j : ℕ) (s : Service)
      → HasEnded constants intersects same c
      → hear_states j c.announced s ≡ hear_states j (closed ∷ []) s
  unfolding hear_states hear_state on_state_changed
  hear_states-ended c j s (e, inl a) = ap (λ states. hear_states j states s) a
  hear_states-ended c j s (e, inr a) = ap (λ states. hear_states j states s) a

  life-HasEnded :
      (up : SetUp) (before after : List Turn) (last : Turn)
      → is_last constants intersects same last ≡ true
      → (initialize up created).has_thread ≡ true
      → HasEnded constants intersects same (lives up (before ++ last ∷ after))
  unfolding life
  life-HasEnded up before after last l h =
      let c = initialize up created in
      let turns = before ++ last ∷ after in
      let ended =
        run-EndsClosed constants intersects same before after last c l
          (rw (initialize-submitting up) refl) in
      let started : lives up turns ≡ (run constants intersects same turns c).0 =
        ap (λ b. if b then (run constants intersects same turns c).0 else c) h in
      subst (HasEnded constants intersects same) (sym started)
        (elim (run-IsOrdered constants intersects same up turns h) [
          | inl o ↦ absurd (let e : true ≡ false = sym ended.0 ∙ o.0 in cc)
          | inr o ↦ o.1
        ])

  life-idle :
      (up : SetUp) (turns : List Turn) (j : ℕ) (s : Service)
      → (initialize up created).has_thread ≡ false
      → hear_states j (lives up turns).announced s ≡ some s
  unfolding life hear_states hear_state on_state_changed
  life-idle up turns j s h =
      let c = initialize up created in
      let idle : lives up turns ≡ c =
        ap (λ b. if b then (run constants intersects same turns c).0 else c) h in
      ap (λ states. hear_states j states s) (ap (λ d. d.announced) idle ∙ initialize-announced up)

  -- A connection of a service is set up, and its thread comes to a pass at which it is asked to stop, has no handles to
  -- wait for or cannot read from its peer. When the server has been told of all states that the connection announced, it
  -- has erased the connection, with its wrapper, exactly if the thread was started: if the set-up failed, both are still
  -- there. The service is again one that can come about, and has all other connections and their wrappers.
  pub hear_states-life :
      {with_plasma : Bool} (up : SetUp) (before after : List Turn) (last : Turn) (j : ℕ)
      (s : Service)
      → is_last constants intersects same last ≡ true
      → Reach with_plasma s
      → contains j s.server.sessions ≡ true
      → (let started = (initialize up created).has_thread in
          (t : Service) × (hear_states j (lives up (before ++ last ∷ after)).announced s ≡ some t)
          × Reach with_plasma t
          × ((id : ℕ)
              → (contains id t.server.sessions ≡ stays j started id s)
                × (contains id (connections t.controller.wrappers) ≡ stays j started id s)))
  hear_states-life {with_plasma} up before after last j s l reach known =
      let turns = before ++ last ∷ after in
      let result = hear_states j (lives up turns).announced s in
      elim (Bool-cases (initialize up created).has_thread) [
        | inl h ↦
            let ended =
              hear_states-ended (lives up turns) j s (life-HasEnded up before after last l h) in
            subst (λ b. Leaves with_plasma j b s result) (sym h)
              (subst (Leaves with_plasma j true s) (sym ended) (closed-Leaves j s reach known))
        | inr h ↦
            subst (λ b. Leaves with_plasma j b s result) (sym h)
              (
                s,
                life-idle up turns j s h,
                reach,
                λ id. (refl, ap (contains id) (Reach-Joins reach).0),
              )
      ]
