-- ===== src/Core/Models.antt =====
-- packages/core/models: instruments, order books, positions. A symbol is only compared, so it is a
-- number.
use quantbot.Prelude.{ℕ, Bool, Option, none, some, List, [], ◌∷◌}
use quantbot.Core.Enums.{PositionSide, PositionStatus, PositionSource, ExitReason}

abbrev pub Symbol : Type 0
Symbol = ℕ

-- `SymbolMeta`, without the coins and the limits that no modelled code reads; `trading` is
-- `status == "Trading"`.
pub record SymbolMeta (D : Type 0) : Type 0 where
  pub symbol : Symbol
  pub trading : Bool
  pub tick_size : D
  pub qty_step : D
  pub min_order_qty : D
  pub min_notional : D

pub record OrderBookLevel (D : Type 0) : Type 0 where
  pub price : D
  pub size : D

pub record OrderBook (D : Type 0) : Type 0 where
  pub bids : List (OrderBookLevel D)
  pub asks : List (OrderBookLevel D)

module _ {D : Type 0} where
  abbrev pub best_price : List (OrderBookLevel D) → Option D
  best_price [] = none
  best_price (l ∷ _) = some l.price

  -- `OrderBook.best_bid`, `OrderBook.best_ask`
  abbrev pub best_bid : OrderBook D → Option D
  best_bid book = best_price book.bids

  abbrev pub best_ask : OrderBook D → Option D
  best_ask book = best_price book.asks

-- The fields of `Position` that the modelled code reads or writes; `closed_at` is whether it is set.
pub record Position (D : Type 0) : Type 0 where
  pub symbol : Symbol
  pub side : PositionSide
  pub status : PositionStatus
  pub source : PositionSource
  pub qty : D
  pub avg_entry_price : D
  pub manual_added_qty : D
  pub leverage : D
  pub stop_loss_price : Option D
  pub take_profit_price : Option D
  pub initial_risk_per_unit : Option D
  pub liq_price : Option D
  pub realized_pnl : D
  pub unrealized_pnl : D
  pub fees_paid : D
  pub highest_price : Option D
  pub lowest_price : Option D
  pub partial_tp_done : Bool
  pub trailing_active : Bool
  pub runner_mode_active : Bool
  pub runner_trailing_atr_multiplier : Option D
  pub last_runner_trailing_update_at : Option ℕ
  pub last_runner_trailing_stop : Option D
  pub closed_at : Bool
  pub exit_reason : Option ExitReason
