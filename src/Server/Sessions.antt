-- ===== src/Server/Sessions.antt =====
-- src/Server.cpp: the list of connections over the life of the server.
use kheadless_krdp.Prelude.{
  ℕ, ◌≡◌, refl, ◌∙◌, Bool, true, false, ◌||◌, not, Option, none, some, List, [], ◌∷◌, ◌++◌, ◌==◌,
  if◌then◌else◌, arith, Bool-cases, inl, inr,
}
use kheadless_krdp.Connection.{State, rank, closed}
use kheadless_krdp.Server.{Server, incoming_connection, contains, erase, on_state_changed, initial}

pub data ServerEvent : Type 0 where
  connects : ℕ → ServerEvent
  announces : ℕ → State → ServerEvent

abbrev pub step : ServerEvent → Server → Option Server
step (connects id) s = some (incoming_connection id s)
step (announces id state) s = on_state_changed id state s

abbrev pub run : List ServerEvent → Option Server → Option Server
run [] s = s
run (event ∷ events) none = none
run (event ∷ events) (some s) = run events (step event s)

-- Whether a connection is open after an event, from what concerns it alone.
abbrev pub opens : ServerEvent → (ℕ → Bool) → ℕ → Bool
opens (connects j) is_open id = if j == id then true else is_open id
opens (announces j state) is_open id =
    if rank state == rank closed then (if j == id then false else is_open id) else is_open id

abbrev pub is_open_after : List ServerEvent → (ℕ → Bool) → ℕ → Bool
is_open_after [] is_open = is_open
is_open_after (event ∷ events) is_open = is_open_after events (opens event is_open)

-- A connection is made when its pointer is not in use, and announces that it has closed at most once while it is open.
abbrev IsAllowed : (ℕ → Bool) → ServerEvent → Type 0
IsAllowed is_open (connects j) = is_open j ≡ false
IsAllowed is_open (announces j state) = (not (rank state == rank closed) || is_open j) ≡ true

abbrev pub IsLifecycle : (ℕ → Bool) → List ServerEvent → Type 0
IsLifecycle is_open [] = Unit
IsLifecycle is_open (event ∷ events) =
    IsAllowed is_open event × IsLifecycle (opens event is_open) events

abbrev pub IsDistinct : List ℕ → Type 0
IsDistinct [] = Unit
IsDistinct (x ∷ xs) = (contains x xs ≡ false) × IsDistinct xs

pub contains-snoc :
    (id j : ℕ) (xs : List ℕ) → contains id (xs ++ j ∷ []) ≡ (contains id xs || (j == id))
unfolding contains
contains-snoc id j [] = ground arith
contains-snoc id j (x ∷ xs) = ground (arith, contains-snoc id j xs)

pub snoc-IsDistinct :
    (j : ℕ) (xs : List ℕ) → contains j xs ≡ false → IsDistinct xs → IsDistinct (xs ++ j ∷ [])
unfolding contains
snoc-IsDistinct j [] c d = (refl, tt)
snoc-IsDistinct j (x ∷ xs) c d =
    (ground (arith, contains-snoc x j xs), snoc-IsDistinct j xs (ground arith) d.1)

pub contains-erase :
    (id j : ℕ) (xs : List ℕ)
    → IsDistinct xs
    → contains id (erase j xs) ≡ (if j == id then false else contains id xs)
unfolding contains erase
contains-erase id j [] d = ground arith
contains-erase id j (x ∷ xs) d = ground (arith, contains-erase id j xs d.1)

pub erase-IsDistinct : (j : ℕ) (xs : List ℕ) → IsDistinct xs → IsDistinct (erase j xs)
unfolding erase
erase-IsDistinct j [] d = tt
erase-IsDistinct j (x ∷ xs) d = elim (Bool-cases (x == j)) [
  | inl e ↦ rw e d.1
  | inr e ↦ rw e (ground (arith, contains-erase x j xs d.1, d.0), erase-IsDistinct j xs d.1)
]

-- The list holds exactly the open connections, each once.
abbrev Lists : (ℕ → Bool) → Server → Type 0
Lists is_open s = ((id : ℕ) → contains id s.sessions ≡ is_open id) × IsDistinct s.sessions

abbrev ListsAfter : (ℕ → Bool) → Option Server → Type 0
ListsAfter is_open result = (t : Server) × (result ≡ some t) × Lists is_open t

connects-Lists :
    (is_open : ℕ → Bool) (j : ℕ) (s : Server)
    → is_open j ≡ false
    → Lists is_open s
    → Lists (opens (connects j) is_open) (incoming_connection j s)
unfolding incoming_connection
connects-Lists is_open j s n h = (
  λ id. ground (arith, contains-snoc id j s.sessions, h.0 id),
  snoc-IsDistinct j s.sessions (h.0 j ∙ n) h.1,
)

closing-Lists :
    (is_open : ℕ → Bool) (j : ℕ) (state : State) (s : Server)
    → IsAllowed is_open (announces j state)
    → Lists is_open s
    → ListsAfter (opens (announces j state) is_open) (on_state_changed j state s)
unfolding on_state_changed
closing-Lists is_open j state s n h = elim (Bool-cases (rank state == rank closed)) [
  | inr e ↦ rw (on_state_changed, e) (s, refl, h)
  | inl e ↦
      let known : contains j s.sessions ≡ true = ground (arith, h.0 j) in
      rw (on_state_changed, e, known)
        (
          record s { closes = s.closes ++ j ∷ []; sessions = erase j s.sessions },
          refl,
          (
            λ id. ground (arith, contains-erase id j s.sessions h.1, h.0 id),
            erase-IsDistinct j s.sessions h.1,
          ),
        )
]

step-Lists :
    (is_open : ℕ → Bool) (event : ServerEvent) (s : Server)
    → IsAllowed is_open event
    → Lists is_open s
    → ListsAfter (opens event is_open) (step event s)
step-Lists is_open (connects j) s n h =
    (incoming_connection j s, refl, connects-Lists is_open j s n h)
step-Lists is_open (announces j state) s n h = closing-Lists is_open j state s n h

run-Lists :
    (is_open : ℕ → Bool) (events : List ServerEvent) (s : Server)
    → IsLifecycle is_open events
    → Lists is_open s
    → ListsAfter (is_open_after events is_open) (run events (some s))
run-Lists is_open [] s n h = (s, refl, h)
run-Lists is_open (event ∷ events) s n h =
    let next = step-Lists is_open event s n.0 h in
    rw next.1 (run-Lists (opens event is_open) events next.0 n.1 next.2)

no_sessions : (local_host : ℕ) → Lists (λ id. false) (initial local_host)
unfolding contains
no_sessions local_host = (λ id. refl, tt)

-- Connections are made under pointers that are not in use, and each announces that it has closed at most once, while it
-- is there. Then, whatever the order in which they come and go, the end of the list is never used, and the list holds a
-- connection exactly if its last making was not followed by its closing.
pub run-contains :
    (local_host id : ℕ) (events : List ServerEvent)
    → IsLifecycle (λ j. false) events
    → (t : Server) × (run events (some (initial local_host)) ≡ some t)
      × (contains id t.sessions ≡ is_open_after events (λ j. false) id)
run-contains local_host id events n =
    let r = run-Lists (λ j. false) events (initial local_host) n (no_sessions local_host) in
    (r.0, r.1, r.2.0 id)
