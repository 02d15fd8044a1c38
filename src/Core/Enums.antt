-- ===== src/Core/Enums.antt =====
-- packages/core/enums/enums.py: the enumerations, with the source's members in its order, and the
-- Boolean tests that the code writes with `==` and `in`.
use quantbot.Prelude.{Bool, true, false}

pub data BotState : Type 0 where
  booting standby start_requested syncing ready running paused risk_locked : BotState
  reconciling order_locked emergency_stop stopping stopped : BotState

pub data BotMode : Type 0 where
  paper live : BotMode

pub data Side : Type 0 where
  buy sell : Side

pub data PositionSide : Type 0 where
  long short : PositionSide

pub data OrderType : Type 0 where
  limit aggressive_limit market : OrderType

pub data OrderStatus : Type 0 where
  new partially_filled filled cancelled rejected expired unknown : OrderStatus

pub data TimeInForce : Type 0 where
  gtc ioc fok post_only : TimeInForce

pub data TriggerBy : Type 0 where
  last_price mark_price index_price : TriggerBy

pub data PositionStatus : Type 0 where
  pending active closing closed : PositionStatus

pub data PositionSource : Type 0 where
  bot external : PositionSource

pub data EntryMode : Type 0 where
  pre_breakout_scout breakout_confirm retest_confirm : EntryMode

pub data ScoutState : Type 0 where
  unscouted scout_pending scout_warning scout_confirmed active_trend : ScoutState

pub data SignalDirection : Type 0 where
  to_long to_short exit : SignalDirection

pub data ExitReason : Type 0 where
  take_profit stop_loss partial_take_profit trailing_stop runner_trailing_stop : ExitReason
  runner_scenario_invalid stagnation scenario_invalid scout_defensive_reduce : ExitReason
  scout_catastrophic_reduce max_holding_time manual_close emergency_close : ExitReason
  funding_guard partial_fill_too_small tpsl_failed : ExitReason

abbrev pub same_side : PositionSide → PositionSide → Bool
same_side long long = true
same_side short short = true
same_side _ _ = false

abbrev pub same_mode : EntryMode → EntryMode → Bool
same_mode pre_breakout_scout pre_breakout_scout = true
same_mode breakout_confirm breakout_confirm = true
same_mode retest_confirm retest_confirm = true
same_mode _ _ = false

abbrev pub opposite : Side → Side
opposite buy = sell
opposite sell = buy

abbrev pub is_market : OrderType → Bool
is_market market = true
is_market _ = false

abbrev pub is_ioc : TimeInForce → Bool
is_ioc ioc = true
is_ioc _ = false

abbrev pub is_filled : OrderStatus → Bool
is_filled filled = true
is_filled _ = false
