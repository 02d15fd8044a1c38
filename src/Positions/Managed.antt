-- ===== src/Positions/Managed.antt =====
-- packages/position/position_manager.py: what the manager reads and keeps. Its dicts by symbol are
-- seen at the one symbol of the position, and those by symbol and opening time are keyed by the time.
-- Times are in seconds, opening times of candles in milliseconds.
use quantbot.Prelude.{
  ℕ, ◌+◌, Bool, true, false, ◌&&◌, ltb, ◌==◌, if◌then◌else◌, Option, none, some, List, Dict,
}
use quantbot.Core.Enums.{PositionSide, long, short, EntryMode, ScoutState, ExitReason}
use quantbot.Core.Models.{Position}
use quantbot.Number.{Number, ◌<=◌, ◌<<◌}
use quantbot.Entry.Metrics.{Candle, metrics_of}
use quantbot.Positions.Trailing.{TrailingConfig}

pub data Strength : Type 0 where
  weak strong very_strong : Strength

-- What `_runner_trend_strength` gives as its reason, without the reasons of the strong trends.
pub data Weakness : Type 0 where
  five_min_ema20_break one_min_ema20_break strong_opposite_candle trend_hold_weak : Weakness

-- The event types of SCOUT_EVENT actions.
pub data EventType : Type 0 where
  runner_mode_activated runner_trend_strength_changed runner_trailing_updated : EventType
  runner_trailing_hit runner_scenario_broken : EventType
  scout_activated scout_was_confirmed scout_warning_started scout_warning_recovered : EventType
  scout_invalidated delayed_by_entry_mode : EventType

-- Why a stagnation exit is delayed.
pub data Delay : Type 0 where
  scout_stagnation breakout_exit breakout_reduce retest_exit retest_tighten : Delay

-- `PositionAction`, without the data that is logged.
pub data PositionAction (D : Type 0) : Type 0 where
  partial_tp : D → PositionAction D
  reduce : D → ExitReason → PositionAction D
  exit : D → ExitReason → PositionAction D
  trail_update : D → PositionAction D
  scout_event : EventType → PositionAction D

pub record RunnerModeSection (D : Type 0) : Type 0 where
  pub enabled : Bool
  pub activate_after_partial_tp : Bool
  pub activate_min_r : D
  pub weak_trend_trailing_atr : D
  pub strong_trend_trailing_atr : D
  pub very_strong_trend_trailing_atr : D
  pub strong_trend_min_r : D
  pub very_strong_trend_min_r : D
  pub require_5m_trend_hold : Bool
  pub require_1m_ema20_hold : Bool
  pub long_min_1m_rsi : D
  pub short_max_1m_rsi : D
  pub tighten_on_1m_ema20_break_bars : ℕ
  pub tighten_on_strong_opposite_candle : Bool
  pub tighten_on_strong_opposite_candle_bars : ℕ

pub record ScoutManagementSection (D : Type 0) : Type 0 where
  pub enabled : Bool
  pub grace_bars : ℕ
  pub confirmation_boundary_atr : D
  pub confirmation_volume_ratio : D
  pub min_hold_bars_before_defensive_reduce : ℕ
  pub warning_confirm_bars : ℕ
  pub max_defensive_reductions : ℕ
  pub defensive_reduce_fraction : D
  pub invalidate_on_box_mid_reclaim : Bool
  pub invalidate_on_ema20_reclaim_bars : ℕ
  pub long_invalid_rsi_threshold : D
  pub short_invalid_rsi_threshold : D
  pub strong_opposite_candle_body_ratio : D
  pub strong_opposite_candle_volume_ratio : D
  pub catastrophic_opposite_candle_body_ratio : D
  pub catastrophic_opposite_candle_volume_ratio : D
  pub catastrophic_opposite_move_atr : D
  pub convert_to_active_on_confirmation : Bool

-- The three sections of `stagnation_exit`, with the mode first in each name.
pub record StagnationExitSection (D : Type 0) : Type 0 where
  pub enabled : Bool
  pub scout_max_bars_without_breakout : ℕ
  pub scout_min_progress_r : D
  pub breakout_reduce_after_bars : ℕ
  pub breakout_reduce_fraction : D
  pub breakout_max_bars_without_1r : ℕ
  pub retest_tighten_after_bars : ℕ
  pub retest_max_bars_without_1r : ℕ
  pub retest_scenario_invalid_grace_bars : ℕ

pub record PositionSection (D : Type 0) : Type 0 where
  pub partial_r : D
  pub partial_fraction : D
  pub trailing_start_r : D
  pub max_holding_minutes : ℕ
  pub trailing : TrailingConfig D
  pub runner_mode : RunnerModeSection D
  pub scout_management : ScoutManagementSection D
  pub stagnation_exit : StagnationExitSection D

-- The close, the average and the RSI of an `IndicatorSnapshot`.
pub record Snapshot (D : Type 0) : Type 0 where
  pub close : D
  pub ema20 : Option D
  pub rsi14 : Option D

pub record BarCandle (D : Type 0) : Type 0 where
  pub open_time : ℕ
  pub prices : Candle D

-- The arguments of `evaluate`.
pub record Bar (D : Type 0) : Type 0 where
  pub price : D
  pub atr : D
  pub candle_1m : Option (BarCandle D)
  pub snapshot_1m : Option (Snapshot D)
  pub snapshot_5m : Option (Snapshot D)
  pub volume_ratio : Option D
  pub now : ℕ

-- A position with its remaining fields. The text of the scout warning is only logged.
pub record Tracked (D : Type 0) : Type 0 where
  pub base : Position D
  pub entry_mode : Option EntryMode
  pub opened_at : ℕ
  pub runner_trend_strength : Option Strength
  pub bars_since_entry : ℕ
  pub last_open_time : Option ℕ
  pub breakout_level : Option D
  pub scout_state : ScoutState
  pub box_high : Option D
  pub box_low : Option D
  pub box_mid : Option D
  pub scout_entry_bar_index : Option ℕ
  pub warning_started_at_bar : Option ℕ
  pub defensive_reduction_count : ℕ

-- The manager's own dicts, `PositionManager.__init__`.
pub record Memory (D : Type 0) : Type 0 where
  pub max_r : Option D
  pub stag_reduced : Bool
  pub scenario_recovery : Option ℕ
  pub scenario_reduced : List ℕ
  pub break_level_fail_closes : Dict (Option ℕ × ℕ)
  pub scout_invalid_closes : Dict (Option ℕ × ℕ)
  pub scout_ema_reclaim_count : ℕ
  pub runner_ema_break_count : ℕ
  pub runner_weak_signal_count : ℕ
  pub runner_weak_signal_open_time : Option ℕ
  pub delays_emitted : List (Delay × ℕ)

pub record Managed (D : Type 0) : Type 0 where
  pub position : Tracked D
  pub memory : Memory D

-- A candle's opening time where it is given and above zero.
abbrev pub known_time : {D : Type 0} → Option (BarCandle D) → Option ℕ
known_time none = none
known_time (some candle) = if ltb 0 candle.open_time then some candle.open_time else none

abbrev pub same_time : Option ℕ → Option ℕ → Bool
same_time (some a) (some b) = a == b
same_time none none = true
same_time _ _ = false

-- Whether two known times are the same.
abbrev pub repeats : Option ℕ → Option ℕ → Bool
repeats none last = false
repeats (some t) last = same_time (some t) last

module _ {D : Type 0} ⦃d : Number D⦄ where
  -- Whether a close is on the losing side of a level.
  abbrev pub against : PositionSide → D → D → Bool
  against long close level = close << level
  against short close level = level << close

  -- `snapshot is not None and snapshot.ema20 is not None` and the close is against it.
  abbrev pub ema_against : PositionSide → Option D → D → Bool
  ema_against side none close = false
  ema_against side (some ema) close = against side close ema

  -- A candle against the side that closes near its own end.
  abbrev pub opposes : PositionSide → D → D → Candle D → Bool
  opposes long low high c =
      (c.close << c.open_price) && ((metrics_of c).close_position_in_range <= low)
  opposes short low high c =
      (c.open_price << c.close) && (high <= (metrics_of c).close_position_in_range)

  -- A strong candle: of some body and volume, and with the ends that `opposes` takes.
  abbrev pub strong_opposite : D → D → D → D → PositionSide → Candle D → Option D → Bool
  strong_opposite body volume low high side c none = false
  strong_opposite body volume low high side c (some ratio) =
      (metrics_of c).valid
      && ((body <= (metrics_of c).body_ratio) && (volume <= ratio))
      && opposes side low high c

  -- `_advance_bar_counter`
  unfoldable pub advance_bar_counter : Option (BarCandle D) → Tracked D → Tracked D
  advance_bar_counter candle p =
      let counted = record p { bars_since_entry = p.bars_since_entry + 1 } in
      elim (known_time candle) [
        | none ↦ counted
        | some t ↦
            if same_time p.last_open_time (some t)
            then p
            else record counted { last_open_time = some t }
      ]
