-- ===== src/Service/Examples.antt =====
-- src/Server.cpp with server/SessionController.cpp: a connection that comes and closes.
use kheadless_krdp.Prelude.{ℕ, ◌≡◌, refl, false, ◌==◌, if◌then◌else◌, some, [], ◌∷◌}
use kheadless_krdp.Prelude.Int.{pos}
use kheadless_krdp.Connection.{closed}
use kheadless_krdp.Connection as Connection
use kheadless_krdp.Connection.Loop.Examples.{constants, never, same, all_well, joins, leaves}
use kheadless_krdp.Server
use kheadless_krdp.Server.{Server, on_state_changed, incoming_connection, contains}
use kheadless_krdp.SessionController.{
  SessionController, created, portal, add_wrapper, on_new_connection,
}
use kheadless_krdp.SessionController.Connections.{connections}
use kheadless_krdp.Service.{Service, Reach, begins, connects, announces, destroy_connection}
use kheadless_krdp.Service.Life.{hear_states, life, hear_states-life}
use kheadless_krdp.Service.Wrappers.{Joins, Reach-Joins}

abbrev ready : SessionController
ready = record (created portal) { quality = some (pos 50) }

abbrev one_connection : Service
one_connection = record {
  server = incoming_connection 7 (Server.initial 1);
  controller = add_wrapper false 3 7 ready (pos 50);
}

one_connection-Reach : Reach false one_connection
unfolding contains on_new_connection
one_connection-Reach = connects 3 7 refl refl refl (begins 1 ready refl)

abbrev after_closing : Server
after_closing = record (one_connection.server) { sessions = []; closes = 7 ∷ [] }

closing_test : on_state_changed 7 closed one_connection.server ≡ some after_closing
unfolding on_state_changed incoming_connection
closing_test = refl

Reach-Joins_example :
    Joins (record {
      server = after_closing;
      controller = destroy_connection 7 one_connection.controller;
    })
Reach-Joins_example = Reach-Joins (announces 7 closed closing_test one_connection-Reach)

hear_states-life_example :
    (t : Service) × (hear_states 7
        (life constants never same all_well (joins ∷ leaves ∷ [])).announced
        one_connection
      ≡ some t)
    × Reach false t
    × ((id : ℕ)
        → (contains id t.server.sessions
            ≡ (if 7 == id then false else contains id one_connection.server.sessions))
          × (contains id (connections t.controller.wrappers)
              ≡ (if 7 == id then false else contains id one_connection.server.sessions)))
unfolding Connection.initialize Connection.set_state contains incoming_connection
hear_states-life_example =
    hear_states-life constants never same all_well (joins ∷ []) [] leaves 7 one_connection refl
      one_connection-Reach refl
