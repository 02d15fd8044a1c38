-- ===== src/Risk/Tests/Sample.antt =====
-- A breakout order under a sample configuration, on fractions.
use quantbot.Prelude.{true, false, none, some, [], ◌∷◌}
use quantbot.Core.Enums.{
  long, pre_breakout_scout, breakout_confirm, retest_confirm, to_long, PositionStatus,
  PositionSource,
}
use quantbot.Core.Models.{Position}
use quantbot.Config.{RiskSection, RiskConfig}
use quantbot.Number.Fraction.{Fraction, frac, dec}
use quantbot.Risk.Manager.{Request, Approval}

abbrev pub F : Type 0
F = Fraction

abbrev pub risk_section : RiskSection F
risk_section = record {
  account_risk_per_trade_percent = dec 18 1;
  daily_max_loss_percent = dec 5 0;
  intraday_drawdown_percent = dec 3 0;
  max_symbol_risk_percent = dec 2 0;
  max_total_open_risk_percent = dec 7 0;
  max_same_direction_positions = 4;
  min_leverage = 1;
  scout_max_leverage = 6;
  breakout_max_leverage = 9;
  retest_max_leverage = 10;
  high_quality_max_leverage = 12;
  high_atr_max_leverage = 5;
  high_atr_derisk_threshold_percent = dec 35 1;
  consecutive_loss_derisk_count = 2;
  consecutive_loss_max_leverage = 3;
  daily_loss_derisk_percent = dec 3 0;
  daily_loss_max_leverage = 2;
  min_stop_distance_atr = dec 5 1;
  min_stop_distance_percent = dec 30 2;
  breakout_min_stop_distance_percent = dec 30 2;
  retest_min_stop_distance_percent = dec 40 2;
  max_stop_distance_atr = dec 18 1;
  scout_max_stop_distance_atr = dec 35 1;
  retest_max_stop_distance_atr = dec 25 1;
  thin_stop_distance_percent = dec 35 2;
  thin_stop_max_leverage = dec 8 0;
  target_notional_percent = record {
    enabled = false;
    scout_no_compression = dec 30 0;
    scout_compression = dec 50 0;
    breakout_confirm = dec 70 0;
    retest_confirm = dec 80 0;
    high_quality = dec 120 0;
    high_quality_min_score = dec 9 0;
  };
}

abbrev pub config : RiskConfig F
config = record {
  max_active_positions = 5;
  pre_breakout = record { min_stop_distance_percent = dec 45 2; min_stop_distance_atr = dec 18 1 };
  structure_stop = record {
    enabled = true;
    apply_to_entry_modes = pre_breakout_scout ∷ retest_confirm ∷ [];
    max_stop_distance_atr = dec 18 1;
    use_structure_stop_for_scout = true;
    use_structure_stop_for_retest = true;
  };
  risk = risk_section;
  liquidation_guard = record {
    min_liquidation_distance_percent = dec 2 0;
    min_liquidation_distance_atr = dec 2 0;
    block_if_liq_price_inside_stop = true;
  };
  initial_take_profit_r = dec 2 0;
}

abbrev pub request : Request F
request = record {
  cfg = config;
  decision = record {
    symbol = 7;
    direction = to_long;
    entry_mode = breakout_confirm;
    position_fraction = dec 6 1;
    stop_atr = dec 1 0;
    score = dec 8 0;
    structure_stop_price = none;
    has_compression = false;
  };
  entry_price = dec 100 0;
  atr = dec 1 0;
  meta = record {
    symbol = 7;
    trading = true;
    tick_size = dec 1 1;
    qty_step = dec 1 2;
    min_order_qty = dec 1 2;
    min_notional = dec 5 0;
  };
  ctx = record {
    equity = dec 10000 0;
    open_positions = [];
    daily_loss_percent = dec 0 0;
    intraday_drawdown_percent = dec 0 0;
    consecutive_losses = 0;
  };
}

abbrev pub granted : Approval F
granted = record {
  side = long;
  qty = frac 10800 0 99;
  leverage = frac 2 0 0;
  notional = frac 1080000 0 99;
  stop_loss_price = frac 990 0 9;
  take_profit_price = frac 1020 0 9;
  liq_price = frac 201000 100000 1999;
  risk_usdt = frac 10800000 10692000 999;
}

abbrev pub bad_day : Request F
bad_day = record request {
  ctx = record {
    equity = dec 10000 0;
    open_positions = [];
    daily_loss_percent = dec 6 0;
    intraday_drawdown_percent = dec 0 0;
    consecutive_losses = 3;
  };
}

-- The position that the approved order opens.
abbrev pub opened : Position F
opened = record {
  symbol = 7;
  side = long;
  status = PositionStatus.active;
  source = PositionSource.bot;
  qty = frac 10800 0 99;
  avg_entry_price = dec 100 0;
  manual_added_qty = dec 0 0;
  leverage = dec 2 0;
  stop_loss_price = none;
  take_profit_price = none;
  initial_risk_per_unit = some (frac 1000 990 9);
  liq_price = none;
  realized_pnl = dec 0 0;
  unrealized_pnl = dec 0 0;
  fees_paid = dec 0 0;
  highest_price = none;
  lowest_price = none;
  partial_tp_done = false;
  trailing_active = false;
  runner_mode_active = false;
  runner_trailing_atr_multiplier = none;
  last_runner_trailing_update_at = none;
  last_runner_trailing_stop = none;
  closed_at = false;
  exit_reason = none;
}
