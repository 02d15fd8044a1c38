-- ===== src/Config.antt =====
-- packages/config/settings.py: the sections that the modelled code reads, with their fields in the
-- source's order and its names. A float that the code wraps as `Decimal(str(x))` is a number of type
-- D, an `int` a natural number.
use quantbot.Prelude.{ℕ, Bool, Option, List}
use quantbot.Core.Enums.{EntryMode, OrderType}

-- An order type is a text; one that names none is `none`.
pub record OrdersSection (D : Type 0) : Type 0 where
  pub live_new_entry_market_order_allowed : Bool
  pub scout_order_type : Option OrderType
  pub breakout_order_type : Option OrderType
  pub retest_order_type : Option OrderType
  pub max_slippage_percent : D
  pub limit_order_ttl_sec : ℕ
  pub scout_limit_order_ttl_sec : ℕ
  pub retest_limit_order_ttl_sec : ℕ
  pub limit_reorder_attempts : ℕ
  pub partial_fill_min_ratio_to_keep : D

pub record TargetNotionalPercentSection (D : Type 0) : Type 0 where
  pub enabled : Bool
  pub scout_no_compression : D
  pub scout_compression : D
  pub breakout_confirm : D
  pub retest_confirm : D
  pub high_quality : D
  pub high_quality_min_score : D

pub record RiskSection (D : Type 0) : Type 0 where
  pub account_risk_per_trade_percent : D
  pub daily_max_loss_percent : D
  pub intraday_drawdown_percent : D
  pub max_symbol_risk_percent : D
  pub max_total_open_risk_percent : D
  pub max_same_direction_positions : ℕ
  pub min_leverage : ℕ
  pub scout_max_leverage : ℕ
  pub breakout_max_leverage : ℕ
  pub retest_max_leverage : ℕ
  pub high_quality_max_leverage : ℕ
  pub high_atr_max_leverage : ℕ
  pub high_atr_derisk_threshold_percent : D
  pub consecutive_loss_derisk_count : ℕ
  pub consecutive_loss_max_leverage : ℕ
  pub daily_loss_derisk_percent : D
  pub daily_loss_max_leverage : ℕ
  pub min_stop_distance_atr : D
  pub min_stop_distance_percent : D
  pub breakout_min_stop_distance_percent : D
  pub retest_min_stop_distance_percent : D
  pub max_stop_distance_atr : D
  pub scout_max_stop_distance_atr : D
  pub retest_max_stop_distance_atr : D
  pub thin_stop_distance_percent : D
  pub thin_stop_max_leverage : D
  pub target_notional_percent : TargetNotionalPercentSection D

-- `apply_to_entry_modes` holds names; one that is no entry mode matches nothing and is left out.
pub record StructureStopSection (D : Type 0) : Type 0 where
  pub enabled : Bool
  pub apply_to_entry_modes : List EntryMode
  pub max_stop_distance_atr : D
  pub use_structure_stop_for_scout : Bool
  pub use_structure_stop_for_retest : Bool

pub record LiquidationGuardSection (D : Type 0) : Type 0 where
  pub min_liquidation_distance_percent : D
  pub min_liquidation_distance_atr : D
  pub block_if_liq_price_inside_stop : Bool

-- `entry.pre_breakout`, the two fields that the risk manager reads.
pub record PreBreakoutEntry (D : Type 0) : Type 0 where
  pub min_stop_distance_percent : D
  pub min_stop_distance_atr : D

-- What `RiskManager` reads of `AppConfig`.
pub record RiskConfig (D : Type 0) : Type 0 where
  pub max_active_positions : ℕ
  pub pre_breakout : PreBreakoutEntry D
  pub structure_stop : StructureStopSection D
  pub risk : RiskSection D
  pub liquidation_guard : LiquidationGuardSection D
  pub initial_take_profit_r : D
