-- ===== src/Execution/Policy.antt =====
-- packages/execution/order_policy.py, and what the order manager is configured with.
use quantbot.Prelude.{ℕ, Bool, not, ◌&&◌, Option}
use quantbot.Number.{Number, num, ◌⊕◌, ◌⊖◌, ◌⊗◌, ◌⊘◌}
use quantbot.Core.Enums.{
  Side, buy, sell, OrderType, EntryMode, pre_breakout_scout, breakout_confirm, retest_confirm,
  TriggerBy, is_market,
}
use quantbot.Config.{OrdersSection}

-- The order manager's configuration and wiring. The poll interval is in milliseconds; `has_sinks`
-- is whether the callbacks on orders and reservations are given, as they are in the running bot.
-- A trigger is none where the configured text is not one that `TriggerBy` takes.
pub record OrderConfig (D : Type 0) : Type 0 where
  pub orders : OrdersSection D
  pub tp_trigger_by : Option TriggerBy
  pub sl_trigger_by : Option TriggerBy
  pub poll_interval : ℕ
  pub has_sinks : Bool

module _ {D : Type 0} where
  abbrev pub entry_order_type : EntryMode → OrdersSection D → Option OrderType
  entry_order_type pre_breakout_scout cfg = cfg.scout_order_type
  entry_order_type breakout_confirm cfg = cfg.breakout_order_type
  entry_order_type retest_confirm cfg = cfg.retest_order_type

  -- `assert_live_new_entry_allowed`: whether it raises.
  abbrev pub is_forbidden : OrderType → Bool → OrdersSection D → Bool
  is_forbidden order_type reduce_only cfg =
      is_market order_type && not reduce_only && not cfg.live_new_entry_market_order_allowed

  -- `_limit_ttl_sec`
  abbrev pub limit_ttl_sec : EntryMode → OrdersSection D → ℕ
  limit_ttl_sec pre_breakout_scout cfg = cfg.scout_limit_order_ttl_sec
  limit_ttl_sec retest_confirm cfg = cfg.retest_limit_order_ttl_sec
  limit_ttl_sec breakout_confirm cfg = cfg.limit_order_ttl_sec

module _ {D : Type 0} ⦃d : Number D⦄ where
  abbrev pub aggressive_limit_price : Side → D → D → D → D
  aggressive_limit_price buy best_ask best_bid slippage_percent =
      best_ask ⊗ (num 1 ⊕ slippage_percent ⊘ num 100)
  aggressive_limit_price sell best_ask best_bid slippage_percent =
      best_bid ⊗ (num 1 ⊖ slippage_percent ⊘ num 100)
