-- ===== src/Positions/Evaluate/Tests.antt =====
-- A new position of a symbol after an earlier one, a scout position, and the theorems there.
use quantbot.Prelude.{
  count_if, ◌+◌, ◌*◌, ◌≡◌, refl, ◌≤◌, ℕ, true, false, Option, none, some, List, [], ◌∷◌, arith,
}
use quantbot.Core.Enums.{
  long, PositionStatus, PositionSource, EntryMode, pre_breakout_scout, breakout_confirm, ScoutState,
  unscouted, scout_pending, trailing_stop,
}
use quantbot.Core.Models.{Position}
use quantbot.Number.{min_of, max_of}
use quantbot.Number.Fraction.{Fraction, dec, fraction_number}
use quantbot.Number.Fraction.Ordered.{Fraction-IsOrdered}
use quantbot.Positions.Trailing.{
  r_multiple, update_extremes, trail_stop, stop_breached, effective_stop,
}
use quantbot.Positions.Managed.{exit, PositionSection, Bar, Managed, advance_bar_counter}
use quantbot.Positions.Runner.{runner_state_actions}
use quantbot.Positions.Stagnation.{leave}
use quantbot.Positions.Scout.{scout_management_action}
use quantbot.Positions.Evaluate.{
  max_r_of, observed, trailing_step, partial_step, general_step, managed_step, evaluate,
}
use quantbot.Positions.Evaluate.Actions.{evaluate_acts_once}
use quantbot.Positions.Evaluate.Single.{IsSingle}
use quantbot.Positions.Evaluate.Spent.{reduces_scout}
use quantbot.Positions.Evaluate.Carried.{earlier_position_starts_trailing}
use quantbot.Positions.Evaluate.Bars.{
  evaluate_all, Protected, scout_reductions_bounded, stop_never_loosens,
}

abbrev settings : PositionSection Fraction
settings = record {
  partial_r = dec 2 0;
  partial_fraction = dec 5 1;
  trailing_start_r = dec 2 0;
  max_holding_minutes = 180;
  trailing = record {
    trailing_mult = dec 24 1;
    trailing_ext_after_r = dec 5 0;
    trailing_ext_mult = dec 3 0;
    min_trailing_update_interval_sec = 5;
    min_trailing_improvement_atr = dec 2 1;
  };
  runner_mode = record {
    enabled = true;
    activate_after_partial_tp = true;
    activate_min_r = dec 2 0;
    weak_trend_trailing_atr = dec 2 0;
    strong_trend_trailing_atr = dec 28 1;
    very_strong_trend_trailing_atr = dec 32 1;
    strong_trend_min_r = dec 2 0;
    very_strong_trend_min_r = dec 5 0;
    require_5m_trend_hold = true;
    require_1m_ema20_hold = true;
    long_min_1m_rsi = dec 50 0;
    short_max_1m_rsi = dec 50 0;
    tighten_on_1m_ema20_break_bars = 2;
    tighten_on_strong_opposite_candle = true;
    tighten_on_strong_opposite_candle_bars = 2;
  };
  scout_management = record {
    enabled = true;
    grace_bars = 6;
    confirmation_boundary_atr = dec 3 2;
    confirmation_volume_ratio = dec 11 1;
    min_hold_bars_before_defensive_reduce = 3;
    warning_confirm_bars = 2;
    max_defensive_reductions = 1;
    defensive_reduce_fraction = dec 5 1;
    invalidate_on_box_mid_reclaim = true;
    invalidate_on_ema20_reclaim_bars = 2;
    long_invalid_rsi_threshold = dec 45 0;
    short_invalid_rsi_threshold = dec 55 0;
    strong_opposite_candle_body_ratio = dec 55 2;
    strong_opposite_candle_volume_ratio = dec 15 1;
    catastrophic_opposite_candle_body_ratio = dec 75 2;
    catastrophic_opposite_candle_volume_ratio = dec 3 0;
    catastrophic_opposite_move_atr = dec 12 1;
    convert_to_active_on_confirmation = true;
  };
  stagnation_exit = record {
    enabled = true;
    scout_max_bars_without_breakout = 10;
    scout_min_progress_r = dec 4 1;
    breakout_reduce_after_bars = 7;
    breakout_reduce_fraction = dec 5 1;
    breakout_max_bars_without_1r = 14;
    retest_tighten_after_bars = 8;
    retest_max_bars_without_1r = 16;
    retest_scenario_invalid_grace_bars = 3;
  };
}

abbrev base : Position Fraction
base = record {
  symbol = 7;
  side = long;
  status = PositionStatus.active;
  source = PositionSource.bot;
  qty = dec 3 0;
  avg_entry_price = dec 100 0;
  manual_added_qty = dec 0 0;
  leverage = dec 2 0;
  stop_loss_price = some (dec 97 0);
  take_profit_price = none;
  initial_risk_per_unit = some (dec 3 0);
  liq_price = none;
  realized_pnl = dec 0 0;
  unrealized_pnl = dec 0 0;
  fees_paid = dec 0 0;
  highest_price = none;
  lowest_price = none;
  partial_tp_done = false;
  trailing_active = false;
  runner_mode_active = false;
  runner_trailing_atr_multiplier = none;
  last_runner_trailing_update_at = none;
  last_runner_trailing_stop = none;
  closed_at = false;
  exit_reason = none;
}

-- A position with what the manager keeps of its symbol.
abbrev managed : EntryMode → ScoutState → Option Fraction → Managed Fraction
managed mode state max_r = record {
  position = record {
    base = base;
    entry_mode = some mode;
    opened_at = 1000;
    runner_trend_strength = none;
    bars_since_entry = 0;
    last_open_time = none;
    breakout_level = none;
    scout_state = state;
    box_high = none;
    box_low = none;
    box_mid = none;
    scout_entry_bar_index = none;
    warning_started_at_bar = none;
    defensive_reduction_count = 0;
  };
  memory = record {
    max_r = max_r;
    stag_reduced = false;
    scenario_recovery = none;
    scenario_reduced = [];
    break_level_fail_closes = [];
    scout_invalid_closes = [];
    scout_ema_reclaim_count = 0;
    runner_ema_break_count = 0;
    runner_weak_signal_count = 0;
    runner_weak_signal_open_time = none;
    delays_emitted = [];
  };
}

abbrev bar_at : ℕ → ℕ → Bar Fraction
bar_at price now = record {
  price = dec price 0;
  atr = dec 1 0;
  candle_1m = some (record {
    open_time = now * 1000;
    prices = record {
      open_price = dec 101 0;
      high = dec 102 0;
      low = dec price 0;
      close = dec price 0;
    };
  });
  snapshot_1m = none;
  snapshot_5m = none;
  volume_ratio = some (dec 4 0);
  now = now;
}

-- An earlier position of the symbol reached three times its risk; the new one has lost a third of
-- its own.
abbrev second : Managed Fraction
second = managed breakout_confirm unscouted (some (dec 3 0))

-- The new position is closed by the trailing stop of its first bar.
second_is_stopped_out :
    (evaluate settings (bar_at 99 1060) second).0 ≡ exit (dec 3 0) trailing_stop ∷ []
unfolding evaluate managed_step observed advance_bar_counter update_extremes max_r_of r_multiple
    scout_management_action general_step runner_state_actions partial_step trailing_step trail_stop
    effective_stop stop_breached leave min_of max_of
second_is_stopped_out = refl

evaluate_acts_once_example : IsSingle (evaluate settings (bar_at 99 1060) second)
evaluate_acts_once_example = evaluate_acts_once settings (bar_at 99 1060) second refl

-- The earlier position gains twice its risk and is then closed; the new one is evaluated after it.
abbrev earlier_bars : List (Bar Fraction)
earlier_bars = bar_at 99 1120 ∷ bar_at 98 1180 ∷ []

earlier_position_starts_trailing_example :
    let old = managed breakout_confirm unscouted none in
    let memory = (evaluate_all settings (bar_at 106 1060 ∷ earlier_bars) old).1.memory in
    let s : Managed Fraction = record { position = old.position; memory = memory } in
    (evaluate settings (bar_at 101 1240) s).1.position.base.trailing_active ≡ true
unfolding r_multiple
earlier_position_starts_trailing_example =
    earlier_position_starts_trailing Fraction-IsOrdered settings
      (managed breakout_confirm unscouted none) (bar_at 106 1060) earlier_bars
      (managed breakout_confirm unscouted none).position (bar_at 101 1240) refl refl refl refl refl
      refl refl refl refl

abbrev scout : Managed Fraction
scout = managed pre_breakout_scout scout_pending none

abbrev bars : List (Bar Fraction)
bars = bar_at 97 1060 ∷ bar_at 97 1120 ∷ bar_at 98 1180 ∷ []

scout_reductions_bounded_example :
    0 + count_if reduces_scout (evaluate_all settings bars scout).0 ≤ 1
scout_reductions_bounded_example = scout_reductions_bounded settings bars scout (omega arith)

stop_never_loosens_example :
    Protected long (dec 3 0) (dec 97 0) (evaluate_all settings bars scout).1.position
stop_never_loosens_example =
    stop_never_loosens Fraction-IsOrdered settings bars scout (dec 97 0) refl refl
