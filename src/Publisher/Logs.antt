-- ===== src/Publisher/Logs.antt =====
-- What the publisher (src/publisher.cpp) writes to its logs.
use mathlib.Core.List.{append-nil, append_assoc}
use hyperliquid_matching_eng.Base.{
  ℕ, suc, ◌+◌, ◌≡◌, none, some, true, false, arith, List, [], ◌∷◌, ◌++◌, length, length-append, sym,
  ◌∙◌, refl, ap,
}
use hyperliquid_matching_eng.Command.{AnyEvent, TradeEvent, BookUpdate, trade, book_update}
use hyperliquid_matching_eng.SpscQueue.{SpscQueue, pop}
use hyperliquid_matching_eng.SpscQueue.Fifo.{Holds, pop-Holds, pop-empty}
use hyperliquid_matching_eng.Publisher.{Publisher, write_event, drain}

-- The trades and the book updates among the events.
unfoldable pub trades : List AnyEvent → List TradeEvent
trades [] = []
trades (trade t ∷ es) = t ∷ trades es
trades (book_update u ∷ es) = trades es

unfoldable pub updates : List AnyEvent → List BookUpdate
updates [] = []
updates (trade t ∷ es) = updates es
updates (book_update u ∷ es) = u ∷ updates es

-- Each event is in its log, in order and behind what the log held, and is counted.
pub record Logged (p p' : Publisher) (es : List AnyEvent) : Type 0 where
  pub trades_logged : p'.trades_log ≡ p.trades_log ++ trades es
  pub updates_logged : p'.book_updates_log ≡ p.book_updates_log ++ updates es
  pub counted : p'.total_events ≡ p.total_events + length es

Logged-∷ :
    (e : AnyEvent) (es : List AnyEvent) (p p' : Publisher)
    → Logged (write_event e p) p' es
    → Logged p p' (e ∷ es)
unfolding write_event trades updates
Logged-∷ (trade t) es p p' l = record {
  trades_logged = l.trades_logged ∙ append_assoc p.trades_log (t ∷ []) (trades es);
  updates_logged = l.updates_logged;
  counted = omega (arith, l.counted);
}
Logged-∷ (book_update u) es p p' l = record {
  trades_logged = l.trades_logged;
  updates_logged = l.updates_logged ∙ append_assoc p.book_updates_log (u ∷ []) (updates es);
  counted = omega (arith, l.counted);
}

trades-append : (xs ys : List AnyEvent) → trades (xs ++ ys) ≡ trades xs ++ trades ys
unfolding trades
trades-append [] ys = refl
trades-append (trade t ∷ xs) ys = ap (λ ts. t ∷ ts) (trades-append xs ys)
trades-append (book_update u ∷ xs) ys = trades-append xs ys

updates-append : (xs ys : List AnyEvent) → updates (xs ++ ys) ≡ updates xs ++ updates ys
unfolding updates
updates-append [] ys = refl
updates-append (trade t ∷ xs) ys = updates-append xs ys
updates-append (book_update u ∷ xs) ys = ap (λ us. u ∷ us) (updates-append xs ys)

pub Logged-append :
    (p q r : Publisher) (xs ys : List AnyEvent)
    → Logged p q xs
    → Logged q r ys
    → Logged p r (xs ++ ys)
Logged-append p q r xs ys l m = record {
  trades_logged =
      m.trades_logged
      ∙ ap (λ t. t ++ trades ys) l.trades_logged
      ∙ append_assoc p.trades_log (trades xs) (trades ys)
      ∙ ap (λ t. p.trades_log ++ t) (sym (trades-append xs ys));
  updates_logged =
      m.updates_logged
      ∙ ap (λ t. t ++ updates ys) l.updates_logged
      ∙ append_assoc p.book_updates_log (updates xs) (updates ys)
      ∙ ap (λ t. p.book_updates_log ++ t) (sym (updates-append xs ys));
  counted = omega (arith, l.counted, m.counted, length-append xs ys);
}

pub Logged-nil : (p : Publisher) → Logged p p []
unfolding trades updates
Logged-nil p = record {
  trades_logged = sym (append-nil p.trades_log);
  updates_logged = sym (append-nil p.book_updates_log);
  counted = omega arith;
}

pub Logged-one : (p : Publisher) (e : AnyEvent) → Logged p (write_event e p) (e ∷ [])
Logged-one p e = Logged-∷ e [] p (write_event e p) (Logged-nil (write_event e p))

drain-empty :
    (fuel : ℕ) (q : SpscQueue AnyEvent) (p : Publisher)
    → pop q ≡ (false, none, q)
    → drain (suc fuel) q p ≡ some (q, p)
unfolding drain
drain-empty fuel q p e = ground (arith, e)

drain-pop :
    (fuel : ℕ) (q r : SpscQueue AnyEvent) (p : Publisher) (e : AnyEvent)
    → pop q ≡ (true, some e, r)
    → drain (suc fuel) q p ≡ drain fuel r (write_event e p)
unfolding drain
drain-pop fuel q r p e popped = ground (arith, popped)

-- On fuel for one pop more than the queue holds events, `drain` ends, leaves the queue empty,
-- counts the events, and appends each to the log of its kind, in order.
pub drain_lem :
    (es : List AnyEvent) (q : SpscQueue AnyEvent) (p : Publisher)
    → Holds q es
    → (r : SpscQueue AnyEvent) × (p' : Publisher) × (drain (suc (length es)) q p ≡ some (r, p'))
      × Holds r []
      × Logged p p' es
unfolding drain
drain_lem [] q p h = (q, p, drain-empty 0 q p (pop-empty q h), h, Logged-nil p)
drain_lem (e ∷ es) q p h =
    let (q', popped, rest) = pop-Holds q e es h in
    let (r, p', runs, emptied, logged) = drain_lem es q' (write_event e p) rest in
    (r, p', drain-pop (suc (length es)) q q' p e popped ∙ runs, emptied, Logged-∷ e es p p' logged)
