-- ===== src/WebSocketServer/Runs.antt =====
-- include/hyperliquid/websocket_server.h: which sessions the server keeps, whatever callbacks run.
use hyperliquid_matching_eng.Base.{
  ℕ, suc, ◌+◌, ◌<◌, ◌≡◌, ◌≢◌, refl, ap, ◌∙◌, arith, Bool, true, false, List, [], ◌∷◌, none, some,
  Bool-cases, inl, inr, ◌==◌, if◌then◌else◌,
}
use hyperliquid_matching_eng.WebSocketServer.{
  Config, Awaiting, nothing, handshake, reading, WebSocketServer, opened, has_session, insert,
  wait_for, do_accept, start, stop, set_on_message, client_count, broadcast, on_accept,
  on_handshake, on_read, Event, started, stopped, listened, broadcasted, accepted, shaken, read,
  handle, IsAwaited, ServerRuns, done, step,
}
use hyperliquid_matching_eng.WebSocketServer.Sessions.{
  Unique, length-insert, insert_kept, insert_self, of_insert, length-erase, erase_ne, of_erase,
  Unique-insert, Unique-erase,
}

abbrev pub awaits : Awaiting → Bool
awaits nothing = false
awaits handshake = true
awaits reading = true

-- A session that waits for a callback is in the set, and the numbers in the set have been given out.
abbrev pub IsTracked : WebSocketServer → Type 0
IsTracked s =
    ((k : ℕ) → has_session k s.sessions ≡ true → k < s.next_session)
    × Unique s.sessions
    × ((k : ℕ) → awaits (s.awaiting k) ≡ true → has_session k s.sessions ≡ true)

-- The connections that were accepted, and those whose reading failed.
abbrev pub connected : List Event → ℕ
connected [] = 0
connected (accepted false ∷ es) = suc (connected es)
connected (accepted true ∷ es) = connected es
connected (started ∷ es) = connected es
connected (stopped ∷ es) = connected es
connected (listened ∷ es) = connected es
connected (broadcasted message ∷ es) = connected es
connected (shaken k ec ∷ es) = connected es
connected (read k message ∷ es) = connected es

abbrev pub closed : List Event → ℕ
closed [] = 0
closed (read k none ∷ es) = suc (closed es)
closed (read k (some message) ∷ es) = closed es
closed (accepted ec ∷ es) = closed es
closed (started ∷ es) = closed es
closed (stopped ∷ es) = closed es
closed (listened ∷ es) = closed es
closed (broadcasted message ∷ es) = closed es
closed (shaken k ec ∷ es) = closed es

-- What one event does to the set.
abbrev Counted : Event → WebSocketServer → WebSocketServer → Type 0
Counted e s s' =
    IsTracked s' × (client_count s' + closed (e ∷ []) ≡ client_count s + connected (e ∷ []))

start-Counted : (c : Config) (s : WebSocketServer) → IsTracked s → Counted started s (start c s)
unfolding start do_accept
start-Counted c s v = elim (Bool-cases s.running) [
  | inl on ↦ rw on (v, refl)
  | inr off ↦ rw off (v, refl)
]

stop-Counted : (s : WebSocketServer) → IsTracked s → Counted stopped s (stop s)
unfolding stop
stop-Counted s v = elim (Bool-cases s.running) [
  | inl on ↦ rw on (v, refl)
  | inr off ↦ rw off (v, refl)
]

-- The same session waits for another callback.
wait_for-IsTracked :
    (k : ℕ) (a : Awaiting) (s : WebSocketServer)
    → has_session k s.sessions ≡ true
    → IsTracked s
    → IsTracked (wait_for k a s)
unfolding wait_for
wait_for-IsTracked k a s here v = (v.0, v.1, λ j h. ground (arith, v.2 j))

accepted-IsTracked :
    (s : WebSocketServer)
    → IsTracked s
    → IsTracked (
        wait_for s.next_session handshake (record s {
          accepting = false;
          next_session = suc s.next_session;
          sessions = insert s.next_session s.sessions;
        }))
unfolding wait_for
accepted-IsTracked s v = (
  λ k h. ground (arith, of_insert k s.next_session s.sessions h, v.0 k),
  Unique-insert s.next_session s.sessions v.1,
  λ k h. ground (
    arith,
    insert_self s.next_session s.sessions,
    insert_kept k s.next_session s.sessions,
    v.2 k,
  ),
)

new_session : (s : WebSocketServer) → IsTracked s → has_session s.next_session s.sessions ≡ false
new_session s v = let old = v.0 s.next_session in ground arith

accept-Counted :
    (ec : Bool) (s : WebSocketServer) → IsTracked s → Counted (accepted ec) s (on_accept ec s)
unfolding on_accept do_accept
accept-Counted true s v = elim (Bool-cases s.running) [
  | inl on ↦ rw on (v, refl)
  | inr off ↦ rw off (v, refl)
]
accept-Counted false s v =
    let w = accepted-IsTracked s v in
    let n = length-insert s.next_session s.sessions (new_session s v) in
    elim (Bool-cases s.running) [
      | inl on ↦ rw on (w, omega (arith, n))
      | inr off ↦ rw off (w, omega (arith, n))
    ]

read-Counted :
    (k : ℕ) (s : WebSocketServer)
    → s.awaiting k ≡ reading
    → IsTracked s
    → Counted (read k none) s (on_read k none s)
unfolding on_read wait_for
read-Counted k s e v =
    let here : has_session k s.sessions ≡ true = v.2 k (ap awaits e) in
    (
      (
        λ j h. v.0 j (of_erase j k s.sessions h),
        Unique-erase k s.sessions v.1,
        λ j h. ground (arith, erase_ne j k s.sessions, v.2 j),
      ),
      omega (arith, length-erase k s.sessions here),
    )

handle-Counted :
    (c : Config) (e : Event) (s : WebSocketServer)
    → IsAwaited e s
    → IsTracked s
    → Counted e s (handle c e s)
unfolding handle set_on_message broadcast on_handshake on_read
handle-Counted c started s a v = start-Counted c s v
handle-Counted c stopped s a v = stop-Counted s v
handle-Counted c listened s a v = (v, refl)
handle-Counted c (broadcasted message) s a v = (v, refl)
handle-Counted c (accepted ec) s a v = accept-Counted ec s v
handle-Counted c (shaken k true) s a v =
    (wait_for-IsTracked k nothing s (v.2 k (ap awaits a)) v, refl)
handle-Counted c (shaken k false) s a v =
    (wait_for-IsTracked k reading s (v.2 k (ap awaits a)) v, refl)
handle-Counted c (read k none) s a v = read-Counted k s a v
handle-Counted c (read k (some message)) s a v =
    (wait_for-IsTracked k reading s (v.2 k (ap awaits a)) v, refl)

split_counts :
    (e : Event) (es : List Event)
    → (connected (e ∷ es) ≡ connected (e ∷ []) + connected es)
      × (closed (e ∷ es) ≡ closed (e ∷ []) + closed es)
split_counts started es = (omega arith, omega arith)
split_counts stopped es = (omega arith, omega arith)
split_counts listened es = (omega arith, omega arith)
split_counts (broadcasted message) es = (omega arith, omega arith)
split_counts (accepted true) es = (omega arith, omega arith)
split_counts (accepted false) es = (omega arith, omega arith)
split_counts (shaken k ec) es = (omega arith, omega arith)
split_counts (read k none) es = (omega arith, omega arith)
split_counts (read k (some message)) es = (omega arith, omega arith)

ServerRuns-IsTracked :
    (c : Config) (es : List Event) (s s' : WebSocketServer)
    → ServerRuns c s es s'
    → IsTracked s
    → IsTracked s' × (client_count s' + closed es ≡ client_count s + connected es)
ServerRuns-IsTracked c es s s' done v = (v, refl)
ServerRuns-IsTracked c es s s' (step {e = e} {es = fs} a r) v =
    let (w, one) = handle-Counted c e s a v in
    let (w', later) = ServerRuns-IsTracked c fs (handle c e s) s' r w in
    let (split, split') = split_counts e fs in (w', omega (arith, one, later, split, split'))

opened-IsTracked : IsTracked opened
unfolding has_session
opened-IsTracked = (λ k h. ground (arith, h), tt, λ k h. ground (arith, h))

-- In every run of a new WebSocket server, whatever callbacks run in whatever order, the clients
-- that it counts and the sessions whose reading failed are together the connections that it
-- accepted; no session is twice in its set; and every session that reads is in the set, so that a
-- broadcast is sent to it.
pub client_count_lem :
    (c : Config) (es : List Event) (s : WebSocketServer)
    → ServerRuns c opened es s
    → (client_count s + closed es ≡ connected es)
      × Unique s.sessions
      × ((k : ℕ) → s.awaiting k ≡ reading → has_session k s.sessions ≡ true)
client_count_lem c es s r =
    let (v, n) = ServerRuns-IsTracked c es opened s r opened-IsTracked in
    (omega (arith, n), v.1, λ k e. v.2 k (ap awaits e))

-- A session in the set that waits for nothing.
abbrev Stays : ℕ → WebSocketServer → Type 0
Stays k s =
    (has_session k s.sessions ≡ true) × (awaits (s.awaiting k) ≡ false) × (k < s.next_session)

other_session :
    (j k : ℕ) (s : WebSocketServer) (a : Awaiting)
    → Stays k s
    → awaits (s.awaiting j) ≡ true
    → (k ≢ j) × (awaits (if k == j then a else s.awaiting k) ≡ false)
other_session j k s a v w =
    let ne : k ≢ j =
      λ e. let same = ap (λ i. awaits (s.awaiting i)) e in let idle = v.1 in ground arith in
    let idle = v.1 in (ne, ground (arith, ne, idle))

handle-Stays :
    (c : Config) (e : Event) (k : ℕ) (s : WebSocketServer)
    → IsAwaited e s
    → Stays k s
    → Stays k (handle c e s)
unfolding handle start stop set_on_message broadcast on_accept on_handshake on_read do_accept
    wait_for
handle-Stays c started k s a v = elim (Bool-cases s.running) [
  | inl on ↦ rw on v
  | inr off ↦ rw off v
]
handle-Stays c stopped k s a v = elim (Bool-cases s.running) [
  | inl on ↦ rw on v
  | inr off ↦ rw off v
]
handle-Stays c listened k s a v = v
handle-Stays c (broadcasted message) k s a v = v
handle-Stays c (accepted true) k s a v = elim (Bool-cases s.running) [
  | inl on ↦ rw on v
  | inr off ↦ rw off v
]
handle-Stays c (accepted false) k s a v =
    let w : (has_session k (insert s.next_session s.sessions) ≡ true)
        × (awaits (if k == s.next_session then handshake else s.awaiting k) ≡ false)
        × (k < suc s.next_session) =
      (insert_kept k s.next_session s.sessions v.0, ground (arith, v.1, v.2), omega (arith, v.2)) in
    elim (Bool-cases s.running) [ inl on ↦ rw on w | inr off ↦ rw off w ]
handle-Stays c (shaken j true) k s a v = (v.0, (other_session j k s nothing v (ap awaits a)).1, v.2)
handle-Stays c (shaken j false) k s a v =
    (v.0, (other_session j k s reading v (ap awaits a)).1, v.2)
handle-Stays c (read j none) k s a v =
    let (ne, idle) = other_session j k s nothing v (ap awaits a) in
    (erase_ne k j s.sessions ne ∙ v.0, idle, v.2)
handle-Stays c (read j (some message)) k s a v =
    (v.0, (other_session j k s reading v (ap awaits a)).1, v.2)

ServerRuns-Stays :
    (c : Config) (es : List Event) (k : ℕ) (s s' : WebSocketServer)
    → ServerRuns c s es s'
    → Stays k s
    → Stays k s'
ServerRuns-Stays c es k s s' done v = v
ServerRuns-Stays c es k s s' (step {e = e} {es = fs} a r) v =
    ServerRuns-Stays c fs k (handle c e s) s' r (handle-Stays c e k s a v)

-- In a run of a new WebSocket server, a session whose handshake fails waits for no callback any
-- more, and after any further run it is still in the set of sessions.
pub failed_handshake_stays :
    (c : Config) (es fs : List Event) (k : ℕ) (s s' : WebSocketServer)
    → ServerRuns c opened es s
    → s.awaiting k ≡ handshake
    → ServerRuns c (on_handshake k true s) fs s'
    → (has_session k s'.sessions ≡ true) × (awaits (s'.awaiting k) ≡ false)
unfolding on_handshake wait_for
failed_handshake_stays c es fs k s s' before waits after =
    let (v, n) = ServerRuns-IsTracked c es opened s before opened-IsTracked in
    let here = v.2 k (ap awaits waits) in
    let w : Stays k (on_handshake k true s) = (here, ground arith, v.0 k here) in
    let end = ServerRuns-Stays c fs k (on_handshake k true s) s' after w in (end.0, end.1)
