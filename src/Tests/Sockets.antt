-- ===== src/Tests/Sockets.antt =====
-- A run of the server of include/hyperliquid/websocket_server.h: two connections, of which the
-- handshake of the first fails, and the second closes.
use hyperliquid_matching_eng.Base.{ℕ, ◌+◌, ◌≡◌, refl, true, false, List, [], ◌∷◌, none, some}
use hyperliquid_matching_eng.Json.{codes}
use hyperliquid_matching_eng.WebSocketServer.{
  Config, WebSocketServer, handshake, reading, opened, has_session, client_count, Event, started,
  broadcasted, accepted, shaken, read, handle, on_handshake, ServerRuns, done, step,
}
use hyperliquid_matching_eng.WebSocketServer.Sessions.{Unique}
use hyperliquid_matching_eng.WebSocketServer.Runs.{awaits, client_count_lem, failed_handshake_stays}

abbrev config : Config
config = record { port = 8080; address = codes "0.0.0.0"; io_threads = 1 }

abbrev run : List Event → WebSocketServer → WebSocketServer
run [] s = s
run (e ∷ es) s = run es (handle config e s)

abbrev before : List Event
before = started ∷ accepted false ∷ []

abbrev two_clients : List Event
two_clients =
    started
    ∷ accepted false
    ∷ accepted false
    ∷ shaken 1 false
    ∷ broadcasted (codes "{}")
    ∷ read 1 (some (codes "hi"))
    ∷ read 1 none
    ∷ []

abbrev after : List Event
after = accepted false ∷ shaken 1 false ∷ read 1 none ∷ []

two_clients_run : ServerRuns config opened two_clients (run two_clients opened)
unfolding handle
two_clients_run = step tt (step refl (step refl (step refl (step tt (step refl (step refl done))))))

before_run : ServerRuns config opened before (run before opened)
unfolding handle
before_run = step tt (step refl done)

after_run :
    ServerRuns config
      (on_handshake 0 true (run before opened))
      after
      (run after (on_handshake 0 true (run before opened)))
unfolding handle
after_run = step refl (step refl (step refl done))

client_count_lem_example :
    (client_count (run two_clients opened) + 1 ≡ 2)
    × Unique (run two_clients opened).sessions
    × ((k : ℕ)
        → (run two_clients opened).awaiting k ≡ reading
        → has_session k (run two_clients opened).sessions ≡ true)
client_count_lem_example =
    client_count_lem config two_clients (run two_clients opened) two_clients_run

waits_for_handshake : (run before opened).awaiting 0 ≡ handshake
unfolding handle
waits_for_handshake = refl

failed_handshake_stays_example :
    (has_session 0 (run after (on_handshake 0 true (run before opened))).sessions ≡ true)
    × (awaits ((run after (on_handshake 0 true (run before opened))).awaiting 0) ≡ false)
failed_handshake_stays_example =
    failed_handshake_stays config before after 0 (run before opened)
      (run after (on_handshake 0 true (run before opened))) before_run waits_for_handshake after_run
