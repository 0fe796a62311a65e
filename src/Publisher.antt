-- ===== src/Publisher.antt =====
-- src/publisher.cpp: the events of the output queues are written to two logs. A log is the list
-- of the records written to it; the files are outside.
pub mod Logs
use hyperliquid_matching_eng.Base.{
  ℕ, zero, suc, ◌+◌, Bool, true, false, List, [], ◌∷◌, ◌++◌, Option, none, some, ◌>>=◌,
}
use hyperliquid_matching_eng.Command.{AnyEvent, TradeEvent, BookUpdate, trade, book_update}
use hyperliquid_matching_eng.SpscQueue.{SpscQueue, pop}

pub record Publisher : Type 0 where
  pub trades_log : List TradeEvent
  pub book_updates_log : List BookUpdate
  pub total_events : ℕ
  pub work_done : Bool

unfoldable pub write_event : AnyEvent → Publisher → Publisher
write_event (trade t) p = record p {
  trades_log = p.trades_log ++ t ∷ [];
  total_events = p.total_events + 1;
  work_done = true;
}
write_event (book_update u) p = record p {
  book_updates_log = p.book_updates_log ++ u ∷ [];
  total_events = p.total_events + 1;
  work_done = true;
}

-- `while (queue->pop(evt))` on fuel, while nothing is pushed at the other end; `none` is fuel that
-- ran out.
unfoldable pub drain : ℕ → SpscQueue AnyEvent → Publisher → Option (SpscQueue AnyEvent × Publisher)
unfolding write_event
drain zero q p = none
drain (suc fuel) q p =
    let (popped, item, q') = pop q in
    elim item [ none ↦ some (q', p) | some evt ↦ drain fuel q' (write_event evt p) ]

unfoldable pub poll :
    ℕ → List (SpscQueue AnyEvent) → Publisher → Option (List (SpscQueue AnyEvent) × Publisher)
unfolding drain
poll fuel [] p = some ([], p)
poll fuel (q ∷ qs) p = do
  (q', p') ← drain fuel q p
  (qs', p'') ← poll fuel qs p'
  some (q' ∷ qs', p'')

-- A turn of `run`: every queue is drained in its turn.
unfoldable pub turn :
    ℕ → List (SpscQueue AnyEvent) → Publisher → Option (List (SpscQueue AnyEvent) × Publisher)
unfolding poll
turn fuel qs p = poll fuel qs (record p { work_done = false })
