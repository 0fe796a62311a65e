-- ===== src/WebSocketServer.antt =====
-- include/hyperliquid/websocket_server.h: the server's sessions and the callbacks that it leaves
-- with Boost.Beast. Sockets and threads are outside, and so are the exceptions of the acceptor: a
-- callback may run at any time after it was left there, and once. A session is the number of its
-- shared pointer. A message is posted where `send` leaves it to the session's executor.
pub mod Sessions
pub mod Runs
use hyperliquid_matching_eng.Base.{
  ℕ, zero, suc, ◌+◌, ◌≡◌, Bool, true, false, List, [], ◌∷◌, ◌++◌, Option, none, some, ◌==◌,
  if◌then◌else◌, length, map,
}
use hyperliquid_matching_eng.Json.{Bytes}

pub record Config : Type 0 where
  pub port : ℕ
  pub address : Bytes
  pub io_threads : ℕ

-- The callback that a session waits for.
pub data Awaiting : Type 0 where
  nothing handshake reading : Awaiting

pub record WebSocketServer : Type 0 where
  pub running : Bool
  pub accepting : Bool
  pub io_threads : ℕ
  pub next_session : ℕ
  pub sessions : List ℕ
  pub awaiting : ℕ → Awaiting
  pub posted : List (ℕ × Bytes)
  pub has_on_message : Bool
  pub received : List Bytes

-- A server as it is made.
abbrev pub opened : WebSocketServer
opened = record {
  running = false;
  accepting = false;
  io_threads = 0;
  next_session = 0;
  sessions = [];
  awaiting = λ k. nothing;
  posted = [];
  has_on_message = false;
  received = [];
}

-- The set of sessions.
unfoldable pub has_session : ℕ → List ℕ → Bool
has_session k [] = false
has_session k (j ∷ js) = let later = has_session k js in if j == k then true else later

unfoldable pub insert : ℕ → List ℕ → List ℕ
unfolding has_session
insert k js = if has_session k js then js else k ∷ js

unfoldable pub erase : ℕ → List ℕ → List ℕ
erase k [] = []
erase k (j ∷ js) = let later = erase k js in if j == k then js else j ∷ later

-- What session `k` waits for from now on.
unfoldable pub wait_for : ℕ → Awaiting → WebSocketServer → WebSocketServer
wait_for k a s = record s { awaiting = λ j. if j == k then a else s.awaiting j }

unfoldable pub do_accept : WebSocketServer → WebSocketServer
do_accept s = record s { accepting = true }

unfoldable pub start : Config → WebSocketServer → WebSocketServer
unfolding do_accept
start config s = if s.running then s else record (do_accept (record s { running = true })) {
  io_threads = s.io_threads + config.io_threads;
}

unfoldable pub stop : WebSocketServer → WebSocketServer
stop s = if s.running then record s { running = false; io_threads = 0 } else s

unfoldable pub set_on_message : WebSocketServer → WebSocketServer
set_on_message s = record s { has_on_message = true }

abbrev pub client_count : WebSocketServer → ℕ
client_count s = length s.sessions

-- Every session is sent the message.
unfoldable pub broadcast : Bytes → WebSocketServer → WebSocketServer
broadcast message s = record s { posted = s.posted ++ map (λ k. (k, message)) s.sessions }

-- The callback of `async_accept`, with whether there was an error.
unfoldable pub on_accept : Bool → WebSocketServer → WebSocketServer
unfolding do_accept insert wait_for
on_accept true s = let s' = record s { accepting = false } in if s.running then do_accept s' else s'
on_accept false s =
    let k = s.next_session in
    let s' =
      wait_for k handshake
        (record s { accepting = false; next_session = suc k; sessions = insert k s.sessions }) in
    if s.running then do_accept s' else s'

-- The callback of the session's `async_accept`, with whether there was an error.
unfoldable pub on_handshake : ℕ → Bool → WebSocketServer → WebSocketServer
unfolding wait_for
on_handshake k true s = wait_for k nothing s
on_handshake k false s = wait_for k reading s

-- The callback of `async_read`, with the message, or `none` on an error.
unfoldable pub on_read : ℕ → Option Bytes → WebSocketServer → WebSocketServer
unfolding wait_for erase
on_read k none s = record (wait_for k nothing s) { sessions = erase k s.sessions }
on_read k (some message) s = record (wait_for k reading s) {
  received = if s.has_on_message then s.received ++ message ∷ [] else s.received;
}

-- The calls of the server, and the callbacks.
pub data Event : Type 0 where
  started stopped listened : Event
  broadcasted : Bytes → Event
  accepted : Bool → Event
  shaken : ℕ → Bool → Event
  read : ℕ → Option Bytes → Event

unfoldable pub handle : Config → Event → WebSocketServer → WebSocketServer
unfolding start stop set_on_message broadcast on_accept on_handshake on_read
handle config started s = start config s
handle config stopped s = stop s
handle config listened s = set_on_message s
handle config (broadcasted message) s = broadcast message s
handle config (accepted ec) s = on_accept ec s
handle config (shaken k ec) s = on_handshake k ec s
handle config (read k message) s = on_read k message s

-- A callback runs only where it is awaited.
abbrev pub IsAwaited : Event → WebSocketServer → Type 0
IsAwaited (accepted ec) s = s.accepting ≡ true
IsAwaited (shaken k ec) s = s.awaiting k ≡ handshake
IsAwaited (read k message) s = s.awaiting k ≡ reading
IsAwaited _ s = Unit {0}

pub data ServerRuns (config : Config)
    : WebSocketServer → List Event → WebSocketServer → Type 0 where
  done : {s : WebSocketServer} → ServerRuns config s [] s
  step :
      {e : Event} {es : List Event} {s s' : WebSocketServer}
      → IsAwaited e s
      → ServerRuns config (handle config e s) es s'
      → ServerRuns config s (e ∷ es) s'
