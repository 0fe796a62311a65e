-- ===== src/Book/Filling.antt =====
-- What the fill of the best level does to its side and to the book
-- (include/hyperliquid/order_book.h).
use hyperliquid_matching_eng.Base.{ℕ, ◌≡◌, refl, true, false, arith, some, ◌⊎◌, [], get_elem?, set}
use hyperliquid_matching_eng.Base.Int.{◌+ℤ◌, ◌≤ℤ◌, 0ℤ, +ℤ_parts, eq_of_parts, Same-of_eq, min_parts}
use hyperliquid_matching_eng.Types.{Quantity, Side, bid, ask}
use hyperliquid_matching_eng.Order.{LevelFifo, open_qty}
use hyperliquid_matching_eng.Order.Copies.{held-set, IsMoved}
use hyperliquid_matching_eng.Order.Laws.{IsLevel}
use hyperliquid_matching_eng.PriceLevels.{PriceLevels}
use hyperliquid_matching_eng.Book.State.{OrderBook, levels_of, with_levels, best_of, empty_of}
use hyperliquid_matching_eng.Book.Matching.{Incoming, Taker, Fill, past_limit, taker_at, start_fill}
use hyperliquid_matching_eng.Book.Consume.{consume, eligible}
use hyperliquid_matching_eng.Book.Consume.Amounts.{
  open_qty-consume, consume-AllOpen, consume-Distinct, consume-traded, eligible-open,
}
use hyperliquid_matching_eng.Book.Consume.Priority.{sum-trades-consume}
use hyperliquid_matching_eng.Book.Trading.{IsFilled, nodes_of}
use hyperliquid_matching_eng.Book.Sides.{IsSide, Recedes}
use hyperliquid_matching_eng.Book.Matched.{Matched, nodes_in, consume-AllInLimit, depth, sum_ℤ-set}

-- Why matching stops: the quantity is used up, the side is empty, its best price is outside the
-- limit, or self-trade prevention is on (and has left orders at the best price).
abbrev pub IsStopped : Side → Incoming → Quantity → OrderBook → Type 0
IsStopped s c rest b =
    (rest ≤ℤ 0ℤ)
    ⊎ (best_of s (levels_of s b) ≡ empty_of s)
    ⊎ (past_limit s (best_of s (levels_of s b)) c.px_limit ≡ true)
    ⊎ (c.enable_stp ≡ true)

-- The members of a book that `after_fill` and the search for the best price give anew.
abbrev pub with_fill : Side → PriceLevels → Fill → OrderBook → OrderBook
with_fill s p f b =
    with_levels s p
      (record b { order_pool = f.order_pool; id_index = f.id_index; events = f.events })

-- What a fill says of the level's total and of the traded quantity.
record Amounts (levels : PriceLevels) (q traded : Quantity) (p : PriceLevels) : Type 0 where
  falls : depth p +ℤ traded ≡ depth levels
  not_negative : 0ℤ ≤ℤ traded
  at_most : traded ≤ℤ q

fill-Amounts :
    (t : Taker) (q : Quantity) (p p' : PriceLevels) (i : ℕ) (f g : Fill)
    → 0ℤ ≤ℤ q
    → get_elem? p.levels i ≡ some f.level
    → IsLevel f.level
    → IsFilled f [] (consume t q f.level.orders) g
    → p'.levels ≡ set p.levels i g.level
    → Amounts p q (consume t q f.level.orders).traded p'
fill-Amounts t q p p' i f g hq here v w levels =
    let os = f.level.orders in
    let traded = consume-traded t q os hq v.all_open in
    let el = eligible-open t os v.all_open in
    record {
      falls = rw levels (
          eq_of_parts _ _ (
            omega (
              arith,
              +ℤ_parts,
              Same-of_eq _ _ w.total,
              Same-of_eq _ _
                  (sum_ℤ-set (λ (l : LevelFifo). l.total_qty) p.levels i f.level g.level here),
            )));
      not_negative =
          omega (arith, Same-of_eq _ _ traded, min_parts q (open_qty (eligible t os)), el);
      at_most = omega (arith, Same-of_eq _ _ traded, min_parts q (open_qty (eligible t os)));
    }

-- What the fill of one level does to the nodes of its side.
fill-IsMoved :
    (p p' : PriceLevels) (i : ℕ) (f g : Fill)
    → get_elem? p.levels i ≡ some f.level
    → p'.levels ≡ set p.levels i g.level
    → IsMoved f.order_pool g.order_pool (nodes_of f.level) (nodes_of g.level)
    → IsMoved f.order_pool g.order_pool (nodes_in p) (nodes_in p')
fill-IsMoved p p' i f g here levels w = record {
  slab_objects = w.slab_objects;
  num_slabs = w.num_slabs;
  balance = λ a. rw levels (omega (arith, w.balance a, held-set a p.levels i f.level g.level here));
}

-- The queue that a fill leaves is well formed.
pub fill-IsLevel :
    (t : Taker) (q : Quantity) (f g : Fill)
    → IsLevel f.level
    → IsFilled f [] (consume t q f.level.orders) g
    → IsLevel g.level
fill-IsLevel t q f g v w =
    let os = f.level.orders in
    record {
      distinct = rw (w.orders) (consume-Distinct t q os v.distinct);
      all_open = rw (w.orders) (consume-AllOpen t q os v.all_open);
      total = rw (w.orders) (
          eq_of_parts _ _ (
            omega (
              arith,
              +ℤ_parts,
              Same-of_eq _ _ w.total,
              Same-of_eq _ _ v.total,
              Same-of_eq _ _ (open_qty-consume t q os),
            )));
    }

-- The best level of side `s` of the book `b`, and what the loop over its makers made of it.
module _ (c : Incoming) (q tf : Quantity) (b : OrderBook) (i : ℕ) (g : Fill) (p : PriceLevels)
    (hq : 0ℤ ≤ℤ q) where
  abbrev FillMatched : Side → Type 0
  FillMatched s =
      (l : LevelFifo)
      → get_elem? (levels_of s b).levels i ≡ some l
      → IsLevel l
      → past_limit s (best_of s (levels_of s b)) c.px_limit ≡ false
      → IsFilled (start_fill l q tf b) []
          (consume (taker_at c b (best_of s (levels_of s b))) q l.orders) g
      → IsSide s p
      → p.levels ≡ set (levels_of s b).levels i g.level
      → p.band ≡ (levels_of s b).band
      → Recedes s (levels_of s b) p
      → Matched s c.px_limit q b
          (consume (taker_at c b (best_of s (levels_of s b))) q l.orders).traded (with_fill s p g b)

  pub fill-Matched : (s : Side) → FillMatched s
  fill-Matched bid l here v lim f side levels band recedes =
      let t = taker_at c b b.bids.best_bid in
      let a = fill-Amounts t q b.bids p i (start_fill l q tf b) g hq here v f levels in
      record {
        nodes = fill-IsMoved b.bids p i (start_fill l q tf b) g here levels f.nodes;
        side = side;
        table = f.table;
        other = refl;
        depth_falls = a.falls;
        not_negative = a.not_negative;
        at_most = a.at_most;
        trades = (consume t q l.orders).trades;
        events = f.events;
        reported = sum-trades-consume t q l.orders;
        in_limit = consume-AllInLimit bid c.px_limit t q l.orders lim;
        on_trade = refl;
        on_book_update = refl;
        band = band;
        recedes = recedes;
      }
  fill-Matched ask l here v lim f side levels band recedes =
      let t = taker_at c b b.asks.best_ask in
      let a = fill-Amounts t q b.asks p i (start_fill l q tf b) g hq here v f levels in
      record {
        nodes = fill-IsMoved b.asks p i (start_fill l q tf b) g here levels f.nodes;
        side = side;
        table = f.table;
        other = refl;
        depth_falls = a.falls;
        not_negative = a.not_negative;
        at_most = a.at_most;
        trades = (consume t q l.orders).trades;
        events = f.events;
        reported = sum-trades-consume t q l.orders;
        in_limit = consume-AllInLimit ask c.px_limit t q l.orders lim;
        on_trade = refl;
        on_book_update = refl;
        band = band;
        recedes = recedes;
      }
