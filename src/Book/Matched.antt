-- ===== src/Book/Matched.antt =====
-- What a run of `match_against_side` (include/hyperliquid/order_book.h) has done to the book.
use mathlib.Core.List.{append_assoc, append-nil}
use hyperliquid_matching_eng.Base.{
  ℕ, zero, suc, ◌≡◌, refl, true, false, arith, List, [], ◌∷◌, ◌++◌, some, Bool-cases, inl, inr, ◌∙◌,
  sym, get_elem?, set,
}
use hyperliquid_matching_eng.Base.Int.{
  ℤ, ◌+ℤ◌, ◌-ℤ◌, ◌≤ℤ◌, 0ℤ, sum_ℤ, +ℤ_parts, -ℤ_parts, eq_of_parts, Same-of_eq, sum_ℤ-append, min_ℤ,
}
use hyperliquid_matching_eng.Types.{Tick, Quantity, Side}
use hyperliquid_matching_eng.Command.{AnyEvent, trade, book_update}
use hyperliquid_matching_eng.Order.{Addr, Order}
use hyperliquid_matching_eng.Order.Copies.{held, IsMoved, IsMoved-refl, IsMoved-trans}
use hyperliquid_matching_eng.PriceLevels.{PriceLevels}
use hyperliquid_matching_eng.FlatMap.Counting.{IsTable}
use hyperliquid_matching_eng.Book.State.{OrderBook, levels_of, opposite}
use hyperliquid_matching_eng.Book.Matching.{Taker, past_limit}
use hyperliquid_matching_eng.Book.Consume.{consume, consume_cases, report}
use hyperliquid_matching_eng.Book.Consume.Priority.{trade_qty}
use hyperliquid_matching_eng.Book.Sides.{IsSide, Recedes, Recedes-refl, Recedes-trans}

-- A trade at a price that the taker's limit allows.
abbrev pub InLimit : Side → Tick → AnyEvent → Type 0
InLimit s px_limit (trade e) = past_limit s e.price_ticks px_limit ≡ false
InLimit s px_limit (book_update u) = Unit {0}

abbrev pub AllInLimit : Side → Tick → List AnyEvent → Type 0
AllInLimit s px_limit [] = Unit {0}
AllInLimit s px_limit (e ∷ es) = InLimit s px_limit e × AllInLimit s px_limit es

pub AllInLimit-append :
    (s : Side) (px_limit : Tick) (xs ys : List AnyEvent)
    → AllInLimit s px_limit xs
    → AllInLimit s px_limit ys
    → AllInLimit s px_limit (xs ++ ys)
AllInLimit-append s l [] ys h k = k
AllInLimit-append s l (x ∷ xs) ys h k = (h.0, AllInLimit-append s l xs ys h.1 k)

report-AllInLimit :
    (s : Side) (px_limit : Tick) (t : Taker) (o : Order) (m : Quantity)
    → past_limit s t.price px_limit ≡ false
    → AllInLimit s px_limit (report t o m)
report-AllInLimit s l t o m h = elim (Bool-cases t.on_trade) [
  | inl on ↦ rw on (h, tt)
  | inr off ↦ rw off tt
]

pub consume-AllInLimit :
    (s : Side) (px_limit : Tick) (t : Taker) (q : Quantity) (os : List Order)
    → past_limit s t.price px_limit ≡ false
    → AllInLimit s px_limit (consume t q os).trades
unfolding consume
consume-AllInLimit s l t q [] h = tt
consume-AllInLimit s l t q (o ∷ os) h =
    consume_cases (λ r. AllInLimit s l r.trades) t q o os (λ _. tt)
      (λ _ _. consume-AllInLimit s l t q os h)
      (λ _ _.
        AllInLimit-append s l (report t o (min_ℤ q o.qty)) _ (report-AllInLimit s l t o _ h)
          (consume-AllInLimit s l t (q -ℤ min_ℤ q o.qty) os h))

-- The quantity that rests on a side.
abbrev pub depth : PriceLevels → ℤ
depth p = sum_ℤ (λ l. l.total_qty) p.levels

pub sum_ℤ-set {ℓ} :
    {A : Type ℓ} (f : A → ℤ) (xs : List A) (i : ℕ) (x y : A)
    → get_elem? xs i ≡ some x
    → sum_ℤ f (set xs i y) +ℤ f x ≡ sum_ℤ f xs +ℤ f y
unfolding sum_ℤ
sum_ℤ-set f [] i x y h = cc
sum_ℤ-set f (z ∷ xs) zero x y h = eq_of_parts _ _ (
    ground (
      arith,
      +ℤ_parts (f y +ℤ sum_ℤ f xs) (f x),
      +ℤ_parts (f z +ℤ sum_ℤ f xs) (f y),
      +ℤ_parts (f y) (sum_ℤ f xs),
      +ℤ_parts (f z) (sum_ℤ f xs),
    ))
sum_ℤ-set f (z ∷ xs) (suc i) x y h =
    eq_of_parts _ _ (omega (arith, +ℤ_parts, Same-of_eq _ _ (sum_ℤ-set f xs i x y h)))

-- How many orders of a side stand at an address.
abbrev pub nodes_in : PriceLevels → Addr → ℕ
nodes_in p a = held a p.levels

-- The book after `traded` of the quantity `q` has been matched against side `s`.
pub record Matched (s : Side) (px_limit : Tick) (q : Quantity) (b : OrderBook) (traded : Quantity)
    (b' : OrderBook) : Type 0 where
  pub side : IsSide s (levels_of s b')
  pub table : IsTable b'.id_index
  pub other : levels_of (opposite s) b' ≡ levels_of (opposite s) b
  pub depth_falls : depth (levels_of s b') +ℤ traded ≡ depth (levels_of s b)
  pub not_negative : 0ℤ ≤ℤ traded
  pub at_most : traded ≤ℤ q
  pub trades : List AnyEvent
  pub events : b'.events ≡ b.events ++ trades
  pub reported : b.on_trade ≡ true → sum_ℤ trade_qty trades ≡ traded
  pub in_limit : AllInLimit s px_limit trades
  pub on_trade : b'.on_trade ≡ b.on_trade
  pub on_book_update : b'.on_book_update ≡ b.on_book_update
  pub band : (levels_of s b').band ≡ (levels_of s b).band
  pub recedes : Recedes s (levels_of s b) (levels_of s b')
  pub nodes :
      IsMoved b.order_pool b'.order_pool (nodes_in (levels_of s b)) (nodes_in (levels_of s b'))

pub Matched-refl :
    (s : Side) (l : Tick) (q : Quantity) (b : OrderBook)
    → 0ℤ ≤ℤ q
    → IsSide s (levels_of s b)
    → IsTable b.id_index
    → Matched s l q b 0ℤ b
Matched-refl s l q b h v w = record {
  side = v;
  table = w;
  other = refl;
  depth_falls = eq_of_parts _ _ (omega (arith, +ℤ_parts));
  not_negative = omega arith;
  at_most = h;
  trades = [];
  events = sym (append-nil b.events);
  reported = λ _. unfold sum_ℤ in refl;
  in_limit = tt;
  on_trade = refl;
  on_book_update = refl;
  band = refl;
  recedes = Recedes-refl s (levels_of s b);
  nodes = IsMoved-refl b.order_pool (nodes_in (levels_of s b));
}

pub Matched-trans :
    (s : Side) (l : Tick) (q t u : Quantity) (a b c : OrderBook)
    → Matched s l q a t b
    → Matched s l (q -ℤ t) b u c
    → Matched s l q a (t +ℤ u) c
Matched-trans s l q t u a b c m n = record {
  side = n.side;
  table = n.table;
  other = n.other ∙ m.other;
  depth_falls =
      eq_of_parts _ _
        (omega (arith, +ℤ_parts, Same-of_eq _ _ m.depth_falls, Same-of_eq _ _ n.depth_falls));
  not_negative = omega (arith, +ℤ_parts, m.not_negative, n.not_negative);
  at_most = omega (arith, +ℤ_parts, -ℤ_parts, m.at_most, n.at_most);
  trades = m.trades ++ n.trades;
  events = n.events ∙ rw (m.events) (append_assoc a.events m.trades n.trades);
  reported = λ on.
      sum_ℤ-append trade_qty m.trades n.trades ∙ rw (m.reported on, n.reported (m.on_trade ∙ on));
  in_limit = AllInLimit-append s l m.trades n.trades m.in_limit n.in_limit;
  on_trade = n.on_trade ∙ m.on_trade;
  on_book_update = n.on_book_update ∙ m.on_book_update;
  band = n.band ∙ m.band;
  recedes = Recedes-trans s (levels_of s a) (levels_of s b) (levels_of s c) m.recedes n.recedes;
  nodes =
      IsMoved-trans a.order_pool b.order_pool c.order_pool (nodes_in (levels_of s a))
        (nodes_in (levels_of s b)) (nodes_in (levels_of s c)) m.nodes n.nodes;
}
