-- ===== src/Service/Wrappers.antt =====
-- src/Server.cpp with server/SessionController.cpp: every connection has its wrapper, and none is left over.
use kheadless_krdp.Prelude.{
  ℕ, ◌≡◌, refl, sym, ◌∙◌, ap, subst, Bool, true, false, none, some, List, [], ◌∷◌, ◌++◌, ◌==◌,
  if◌then◌else◌, All, arith, Bool-cases, inl, inr,
}
use kheadless_krdp.Connection.{State, rank, closed}
use kheadless_krdp.Server.{Server, incoming_connection, on_state_changed, contains, erase}
use kheadless_krdp.Server.Sessions.{IsDistinct, snoc-IsDistinct, erase-IsDistinct}
use kheadless_krdp.SessionController.{
  SessionController, SessionWrapper, on_new_connection, on_connection_destroyed, remove_wrapper,
}
use kheadless_krdp.SessionController.Connections.{ids, connections, on_new_connection-wrappers}
use kheadless_krdp.Service.{
  Service, wrappers_of, destroy_all, destroy_connection, Reach, begins, connects, announces,
}

remove_all : List ℕ → List SessionWrapper → List SessionWrapper
remove_all [] ws = ws
remove_all (id ∷ rest) ws = remove_all rest (remove_wrapper id ws)

destroy_all-wrappers :
    (gone : List ℕ) (c : SessionController)
    → (destroy_all gone c).wrappers ≡ remove_all gone c.wrappers
unfolding destroy_all on_connection_destroyed remove_all
destroy_all-wrappers [] c = refl
destroy_all-wrappers (id ∷ gone) c = destroy_all-wrappers gone (on_connection_destroyed id c)

Lacks : ℕ → List ℕ → Type 0
Lacks id xs = All (λ x. (id == x) ≡ false) xs

remove_all-cons :
    (gone : List ℕ) (w : SessionWrapper) (ws : List SessionWrapper)
    → Lacks w.id gone
    → remove_all gone (w ∷ ws) ≡ w ∷ remove_all gone ws
unfolding remove_all remove_wrapper Lacks
remove_all-cons [] w ws h = refl
remove_all-cons (id ∷ gone) w ws h = rw h.0 (remove_all-cons gone w (remove_wrapper id ws) h.1)

wrappers_of-Lacks :
    (id j : ℕ) (ws : List SessionWrapper)
    → contains id (ids ws) ≡ false
    → Lacks id (wrappers_of j ws)
unfolding wrappers_of contains Lacks
wrappers_of-Lacks id j [] h = tt
wrappers_of-Lacks id j (w ∷ ws) h = elim (Bool-cases (w.connection == j)) [
  | inl e ↦ rw e (ground arith, wrappers_of-Lacks id j ws (ground arith))
  | inr e ↦ rw e (wrappers_of-Lacks id j ws (ground arith))
]

remove_wrapper-absent :
    (id : ℕ) (ws : List SessionWrapper) → contains id (ids ws) ≡ false → remove_wrapper id ws ≡ ws
unfolding remove_wrapper contains
remove_wrapper-absent id [] h = refl
remove_wrapper-absent id (w ∷ ws) h = ground (arith, remove_wrapper-absent id ws)

wrappers_of-absent :
    (j : ℕ) (ws : List SessionWrapper) → contains j (connections ws) ≡ false → wrappers_of j ws ≡ []
unfolding wrappers_of contains
wrappers_of-absent j [] h = refl
wrappers_of-absent j (w ∷ ws) h = ground (arith, wrappers_of-absent j ws)

abbrev rest_of : ℕ → List SessionWrapper → List SessionWrapper
rest_of j [] = []
rest_of j (w ∷ ws) = let rest = rest_of j ws in if w.connection == j then ws else w ∷ rest

remove_wrapper-first :
    (w : SessionWrapper) (ws : List SessionWrapper)
    → contains w.id (ids ws) ≡ false
    → remove_wrapper w.id (w ∷ ws) ≡ ws
unfolding remove_wrapper
remove_wrapper-first w ws h =
    let same : (w.id == w.id) ≡ true = ground arith in
    rw (remove_wrapper, same) (remove_wrapper-absent w.id ws h)

-- With distinct pointers, the wrapper of a connection is removed, and only that.
remove_all-rest_of :
    (j : ℕ) (ws : List SessionWrapper)
    → IsDistinct (ids ws)
    → IsDistinct (connections ws)
    → remove_all (wrappers_of j ws) ws ≡ rest_of j ws
unfolding wrappers_of remove_all
remove_all-rest_of j [] d e = refl
remove_all-rest_of j (w ∷ ws) d e = elim (Bool-cases (w.connection == j)) [
  | inl same ↦
      let at : w.connection ≡ j = ground arith in
      let only = wrappers_of-absent j ws (ap (λ x. contains x (connections ws)) (sym at) ∙ e.0) in
      rw (same, only) (remove_wrapper-first w ws d.0)
  | inr other ↦ rw other (
      remove_all-cons (wrappers_of j ws) w ws (wrappers_of-Lacks w.id j ws d.0)
      ∙ ap (λ rest. w ∷ rest) (remove_all-rest_of j ws d.1 e.1))
]

connections-rest_of :
    (j : ℕ) (ws : List SessionWrapper) → connections (rest_of j ws) ≡ erase j (connections ws)
unfolding erase
connections-rest_of j [] = refl
connections-rest_of j (w ∷ ws) = ground (arith, connections-rest_of j ws)

contains-rest_of :
    (id j : ℕ) (ws : List SessionWrapper)
    → contains id (ids ws) ≡ false
    → contains id (ids (rest_of j ws)) ≡ false
unfolding contains
contains-rest_of id j [] h = refl
contains-rest_of id j (w ∷ ws) h = ground (arith, contains-rest_of id j ws)

rest_of-IsDistinct :
    (j : ℕ) (ws : List SessionWrapper) → IsDistinct (ids ws) → IsDistinct (ids (rest_of j ws))
rest_of-IsDistinct j [] d = tt
rest_of-IsDistinct j (w ∷ ws) d = elim (Bool-cases (w.connection == j)) [
  | inl same ↦ rw same d.1
  | inr other ↦ rw other (contains-rest_of w.id j ws d.0, rest_of-IsDistinct j ws d.1)
]

-- The wrappers of a controller are those of the server's connections.
abbrev pub Joins : Service → Type 0
Joins s =
    (connections s.controller.wrappers ≡ s.server.sessions)
    × IsDistinct s.server.sessions
    × IsDistinct (ids s.controller.wrappers)

destroy_connection-wrappers :
    (j : ℕ) (c : SessionController)
    → IsDistinct (ids c.wrappers)
    → IsDistinct (connections c.wrappers)
    → (destroy_connection j c).wrappers ≡ rest_of j c.wrappers
unfolding destroy_connection
destroy_connection-wrappers j c d e =
    destroy_all-wrappers (wrappers_of j c.wrappers) c ∙ remove_all-rest_of j c.wrappers d e

announces-Joins :
    (s : Service) (j : ℕ) (state : State) (t : Server)
    → on_state_changed j state s.server ≡ some t
    → Joins s
    → Joins (record {
      server = t;
      controller =
          if rank state == rank closed then destroy_connection j s.controller else s.controller;
    })
unfolding on_state_changed
announces-Joins s j state t done (k, d, u) = elim (Bool-cases (rank state == rank closed)) [
  | inr open_still ↦
      let same : some s.server ≡ some t = rw open_still at done in
      let sessions : t.sessions ≡ s.server.sessions = cc in rw (open_still, sessions) (k, d, u)
  | inl ends ↦ elim (Bool-cases (contains j s.server.sessions)) [
    | inr unknown ↦ absurd (let missing : none ≡ some t = rw (ends, unknown) at done in cc)
    | inl known ↦
        let gone : some (record (s.server) {
          closes = s.server.closes ++ j ∷ [];
          sessions = erase j s.server.sessions;
        })
            ≡ some t =
          rw (ends, known) at done in
        let sessions : t.sessions ≡ erase j s.server.sessions = ground arith in
        let left = destroy_connection-wrappers j s.controller u (subst IsDistinct (sym k) d) in
        rw (ends, sessions, left)
          (
            connections-rest_of j s.controller.wrappers ∙ ap (erase j) k,
            erase-IsDistinct j s.server.sessions d,
            rest_of-IsDistinct j s.controller.wrappers u,
          )
  ]
]

connects-Joins :
    (with_plasma : Bool) (s : Service) (c : SessionController) (w j : ℕ)
    → contains j s.server.sessions ≡ false
    → contains w (ids s.controller.wrappers) ≡ false
    → on_new_connection with_plasma w j s.controller ≡ some c
    → Joins s
    → Joins (record { server = incoming_connection j s.server; controller = c })
unfolding incoming_connection
connects-Joins with_plasma s c w j fj fw made (k, d, u) =
    let (same, pointers) = on_new_connection-wrappers with_plasma w j s.controller made in
    (
      same ∙ ap (λ xs. xs ++ j ∷ []) k,
      snoc-IsDistinct j s.server.sessions fj d,
      subst IsDistinct (sym pointers) (snoc-IsDistinct w (ids s.controller.wrappers) fw u),
    )

-- However connections come and go, each under a pointer that is not in use, and however their states change: the
-- wrappers of the controller are those of the server's connections, one for each, in the same order.
pub Reach-Joins : {with_plasma : Bool} {s : Service} → Reach with_plasma s → Joins s
Reach-Joins (begins local_host c empty) = rw empty (refl, tt, tt)
Reach-Joins {with_plasma} (connects {s} {c} w j fj fw made r) =
    connects-Joins with_plasma s c w j fj fw made (Reach-Joins r)
Reach-Joins (announces {s} {t} j state done r) = announces-Joins s j state t done (Reach-Joins r)
