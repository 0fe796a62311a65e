-- ===== src/Command.antt =====
-- include/hyperliquid/command.h and event.h: what the engine is told and what it reports.
use hyperliquid_matching_eng.Base.{Bool, true}
use hyperliquid_matching_eng.Types.{
  OrderId, UserId, SymbolId, Tick, Quantity, Timestamp, Side, OrderType, TimeInForce, CommandType,
}
use hyperliquid_matching_eng.Base.{ℕ}

pub record OrderCommand : Type 0 where
  pub type : CommandType
  pub recv_ts : Timestamp
  pub order_id : OrderId
  pub symbol_id : SymbolId
  pub user_id : UserId
  pub price_ticks : Tick
  pub qty : Quantity
  pub side : Side
  pub order_type : OrderType
  pub tif : TimeInForce
  pub flags : ℕ
  pub stop_price : Tick
  pub display_qty : Quantity
  pub expiry_ts : Timestamp

pub record TradeEvent : Type 0 where
  pub ts : Timestamp
  pub taker_id : OrderId
  pub maker_id : OrderId
  pub symbol_id : SymbolId
  pub price_ticks : Tick
  pub qty : Quantity

pub record BookUpdate : Type 0 where
  pub ts : Timestamp
  pub symbol_id : SymbolId
  pub best_bid : Tick
  pub best_ask : Tick
  pub bid_qty : Quantity
  pub ask_qty : Quantity

pub record ExecResult : Type 0 where
  pub filled : Quantity
  pub remaining : Quantity
  pub accepted : Bool

-- ExecResult(f, r)
abbrev pub exec_result : Quantity → Quantity → ExecResult
exec_result f r = record { filled = f; remaining = r; accepted = true }

-- The tagged union AnyEvent: its tag EventType is the constructor.
pub data AnyEvent : Type 0 where
  trade : TradeEvent → AnyEvent
  book_update : BookUpdate → AnyEvent
