-- ===== src/Server/Examples.antt =====
-- src/Server.cpp: two connections, of which the first closes.
use kheadless_krdp.Prelude.{◌≡◌, refl, true, false, some, List, [], ◌∷◌}
use kheadless_krdp.Connection.{running, closed}
use kheadless_krdp.Server.{Server, initial, start, contains}
use kheadless_krdp.Server.Sessions.{ServerEvent, connects, announces, run, run-contains}

no_certificate_test : start (λ path. false) (λ address port. true) (initial 1) ≡ (initial 1, false)
unfolding start
no_certificate_test = refl

abbrev events : List ServerEvent
events = connects 5 ∷ announces 5 running ∷ connects 6 ∷ announces 5 closed ∷ []

run-contains_example :
    (t : Server) × (run events (some (initial 1)) ≡ some t) × (contains 6 t.sessions ≡ true)
run-contains_example = run-contains 1 6 events (refl, (refl, (refl, (refl, tt))))
