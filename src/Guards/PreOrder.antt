-- ===== src/Guards/PreOrder.antt =====
-- packages/guards/pre_order_check.py: the last gate before a live order.
use quantbot.Prelude.{Bool, not, ◌&&◌, ◌||◌, if◌then◌else◌, Option, none, some}
use quantbot.Core.Models.{OrderBook, best_bid, best_ask}
use quantbot.Number.{Number, num, ◌⊕◌, ◌⊖◌, ◌⊗◌, ◌⊘◌, ◌<=◌, ◌<<◌}
use quantbot.Guards.ClockSync.{ClockSyncGuard, is_within_tolerance}
use quantbot.Scanner.Depth.{depth_usdt_within}

pub record PreOrderCheck (D : Type 0) : Type 0 where
  pub block_if_status_not_trading : Bool
  pub max_spread : D
  pub max_slippage : D
  pub depth_multiple : D
  pub depth_band : D

pub data OrderBlock : Type 0 where
  symbol_not_trading : OrderBlock
  clock_drift : OrderBlock
  no_orderbook : OrderBlock
  spread_too_wide : OrderBlock
  slippage_too_high : OrderBlock
  insufficient_depth : OrderBlock

-- The arguments of `check`; `trading` is `symbol_status == "Trading"`.
pub record OrderInputs (D : Type 0) : Type 0 where
  pub orderbook : OrderBook D
  pub order_notional : D
  pub expected_slippage_percent : D
  pub trading : Bool
  pub clock : ClockSyncGuard D

module _ {D : Type 0} ⦃d : Number D⦄ where
  unfoldable pub spread_percent : D → D → D
  spread_percent bid ask = (ask ⊖ bid) ⊘ ((bid ⊕ ask) ⊘ num 2) ⊗ num 100

  -- What follows the guards on the status and the clock.
  unfoldable pub check_book : PreOrderCheck D → OrderInputs D → D → D → Option OrderBlock
  check_book c i bid ask =
      if (bid <= num 0) || (ask <= num 0)
      then some no_orderbook
      else if c.max_spread << spread_percent bid ask
      then some spread_too_wide
      else if c.max_slippage << i.expected_slippage_percent
      then some slippage_too_high
      else if depth_usdt_within i.orderbook c.depth_band << (i.order_notional ⊗ c.depth_multiple)
      then some insufficient_depth
      else none

  abbrev pub check_prices :
      PreOrderCheck D → OrderInputs D → Option D → Option D → Option OrderBlock
  check_prices c i none _ = some no_orderbook
  check_prices c i (some bid) none = some no_orderbook
  check_prices c i (some bid) (some ask) = check_book c i bid ask

  unfoldable pub check : PreOrderCheck D → OrderInputs D → Option OrderBlock
  check c i =
      if c.block_if_status_not_trading && not i.trading
      then some symbol_not_trading
      else if not (is_within_tolerance i.clock)
      then some clock_drift
      else check_prices c i (best_bid i.orderbook) (best_ask i.orderbook)
