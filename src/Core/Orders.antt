-- ===== src/Core/Orders.antt =====
-- packages/core/models/exchange.py and the internal order of packages/core/models/trading.py. Ids
-- are numbers, and an empty one is `none`.
use quantbot.Prelude.{ℕ, Bool, false, ◌&&◌, Option, none, some}
use quantbot.Number.{Number, num, ◌<<◌}
use quantbot.Core.Enums.{
  Side, OrderType, OrderStatus, TimeInForce, TriggerBy, last_price, EntryMode,
}
use quantbot.Core.Models.{Symbol}

-- `ExchangeOrder`, the fields that the order manager reads.
pub record ExchangeOrder (D : Type 0) : Type 0 where
  pub order_id : Option ℕ
  pub client_order_id : Option ℕ
  pub cum_exec_qty : D
  pub avg_price : Option D
  pub status : OrderStatus

-- `ExchangePosition`, the fields that the protection manager reads; `is_open` is whether it has a side.
pub record ExchangePosition (D : Type 0) : Type 0 where
  pub symbol : Symbol
  pub is_open : Bool
  pub size : D
  pub avg_price : D

-- The four fields that `_entry_tpsl_fields` sets, without `tpsl_mode`, which is a text passed on.
pub record TpSl (D : Type 0) : Type 0 where
  pub take_profit : Option D
  pub stop_loss : Option D
  pub tp_trigger_by : TriggerBy
  pub sl_trigger_by : TriggerBy

pub record OrderRequest (D : Type 0) : Type 0 where
  pub symbol : Symbol
  pub side : Side
  pub order_type : OrderType
  pub qty : D
  pub price : Option D
  pub time_in_force : Option TimeInForce
  pub reduce_only : Bool
  pub client_order_id : Option ℕ
  pub tpsl : TpSl D

-- Without `raw`, which no modelled code reads.
pub record ExchangeOrderResult (D : Type 0) : Type 0 where
  pub order_id : Option ℕ
  pub client_order_id : Option ℕ
  pub status : OrderStatus
  pub filled_qty : D
  pub avg_fill_price : Option D

-- `Order`; its source is always BOT here, and the time of its creation is left out.
pub record Order (D : Type 0) : Type 0 where
  pub symbol : Symbol
  pub side : Side
  pub order_type : OrderType
  pub qty : D
  pub price : Option D
  pub client_order_id : Option ℕ
  pub order_id : Option ℕ
  pub status : OrderStatus
  pub filled_qty : D
  pub avg_fill_price : Option D
  pub reduce_only : Bool
  pub entry_mode : Option EntryMode

pub record TradingStopRequest (D : Type 0) : Type 0 where
  pub symbol : Symbol
  pub tpsl : TpSl D

pub record PositionTpSlState (D : Type 0) : Type 0 where
  pub take_profit : Option D
  pub stop_loss : Option D

module _ {D : Type 0} ⦃d : Number D⦄ where
  abbrev pub is_positive : Option D → Bool
  is_positive none = false
  is_positive (some x) = num 0 << x

  -- `has_tp`, `has_sl`, `is_protected`
  abbrev pub has_tp : PositionTpSlState D → Bool
  has_tp state = is_positive state.take_profit

  abbrev pub has_sl : PositionTpSlState D → Bool
  has_sl state = is_positive state.stop_loss

  abbrev pub is_protected : PositionTpSlState D → Bool
  is_protected state = has_tp state && has_sl state

module _ {D : Type 0} where
  abbrev pub no_tpsl : TpSl D
  no_tpsl = record {
    take_profit = none;
    stop_loss = none;
    tp_trigger_by = last_price;
    sl_trigger_by = last_price;
  }
