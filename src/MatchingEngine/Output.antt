-- ===== src/MatchingEngine/Output.antt =====
-- The events of a command on their way to the output queue (src/matching_engine.cpp).
use mathlib.Core.List.{append-nil, append_assoc}
use hyperliquid_matching_eng.Base.{
  ◌+◌, ◌≤◌, ◌≡◌, refl, some, arith, List, [], ◌∷◌, ◌++◌, length, length-append, subst, sym,
}
use hyperliquid_matching_eng.Command.{AnyEvent}
use hyperliquid_matching_eng.SpscQueue.{SpscQueue, capacity}
use hyperliquid_matching_eng.SpscQueue.Fifo.{Holds, push_or_wait-Holds}
use hyperliquid_matching_eng.MatchingEngine.{push_event, push_events}

-- An output queue with room for all the events of a command takes them all without waiting, in
-- the order in which the book emitted them, behind those that it holds.
pub push_events-Holds :
    (es xs : List AnyEvent) (q : SpscQueue AnyEvent)
    → Holds q xs
    → length xs + length es ≤ capacity q
    → (r : SpscQueue AnyEvent) × (push_events es q ≡ some r) × Holds r (xs ++ es)
unfolding push_events push_event
push_events-Holds [] xs q v room = (q, refl, subst (Holds q) (sym (append-nil xs)) v)
push_events-Holds (e ∷ es) xs q v room =
    let (r, eq, w, same) = push_or_wait-Holds q e xs v (omega arith) in
    let (z, eq', u) =
      push_events-Holds es (xs ++ e ∷ []) r w (omega (arith, length-append xs (e ∷ []))) in
    (z, rw eq eq', subst (Holds z) (append_assoc xs (e ∷ []) es) u)
