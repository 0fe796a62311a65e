-- ===== src/WebSocketServer/Sessions.antt =====
-- include/hyperliquid/websocket_server.h: its set of sessions.
use hyperliquid_matching_eng.Base.{
  ℕ, suc, Bool-cases, inl, inr, ◌≡◌, ◌≢◌, ◌⊎◌, refl, arith, true, false, List, [], ◌∷◌, ◌==◌,
  length,
}
use hyperliquid_matching_eng.WebSocketServer.{has_session, insert, erase}

-- No session stands twice.
abbrev pub Unique : List ℕ → Type 0
Unique [] = Unit {0}
Unique (j ∷ js) = (has_session j js ≡ false) × Unique js

pub length-insert :
    (k : ℕ) (js : List ℕ) → has_session k js ≡ false → length (insert k js) ≡ suc (length js)
unfolding insert
length-insert k js h = ground arith

pub insert_kept :
    (j k : ℕ) (js : List ℕ) → has_session j js ≡ true → has_session j (insert k js) ≡ true
unfolding insert has_session
insert_kept j k js h = ground arith

pub insert_self : (k : ℕ) (js : List ℕ) → has_session k (insert k js) ≡ true
unfolding insert has_session
insert_self k js = ground arith

pub of_insert :
    (j k : ℕ) (js : List ℕ)
    → has_session j (insert k js) ≡ true
    → (j ≡ k) ⊎ (has_session j js ≡ true)
unfolding insert has_session
of_insert j k js h = ground arith

pub length-erase :
    (k : ℕ) (js : List ℕ) → has_session k js ≡ true → suc (length (erase k js)) ≡ length js
unfolding erase has_session
length-erase k [] h = ground arith
length-erase k (j ∷ js) h = ground (arith, length-erase k js)

pub erase_ne : (j k : ℕ) (js : List ℕ) → j ≢ k → has_session j (erase k js) ≡ has_session j js
unfolding erase has_session
erase_ne j k [] ne = refl
erase_ne j k (i ∷ js) ne = ground (arith, erase_ne j k js ne)

pub of_erase : (j k : ℕ) (js : List ℕ) → has_session j (erase k js) ≡ true → has_session j js ≡ true
unfolding erase has_session
of_erase j k [] h = h
of_erase j k (i ∷ js) h = ground (arith, of_erase j k js)

pub Unique-insert : (k : ℕ) (js : List ℕ) → Unique js → Unique (insert k js)
unfolding insert
Unique-insert k js u = elim (Bool-cases (has_session k js)) [
  | inl here ↦ rw here u
  | inr new ↦ rw new (new, u)
]

pub Unique-erase : (k : ℕ) (js : List ℕ) → Unique js → Unique (erase k js)
unfolding erase
Unique-erase k [] u = u
Unique-erase k (j ∷ js) u = elim (Bool-cases (j == k)) [
  | inl same ↦ rw same u.1
  | inr other ↦
      let first = u.0 in rw other (ground (arith, first, of_erase j k js), Unique-erase k js u.1)
]
