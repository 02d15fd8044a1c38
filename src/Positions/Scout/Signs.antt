-- ===== src/Positions/Scout/Signs.antt =====
-- packages/position/position_manager.py: the signs that a scout position is judged by.
use quantbot.Prelude.{
  ℕ, ◌+◌, Bool, true, false, not, ◌&&◌, ◌||◌, leb, if◌then◌else◌, Option, none, some,
}
use quantbot.Core.Enums.{PositionSide, long, short}
use quantbot.Number.{Number, num, ◌⊕◌, ◌⊖◌, ◌⊗◌, ◌⊘◌, ◌<=◌, ◌<<◌}
use quantbot.Entry.Metrics.{Candle, metrics_of}
use quantbot.Positions.Managed.{
  ScoutManagementSection, Snapshot, BarCandle, Bar, Tracked, Managed, against, ema_against,
  strong_opposite,
}

module _ {D : Type 0} ⦃d : Number D⦄ where
  abbrev at_least : D → Option D → Bool
  at_least least none = false
  at_least least (some x) = least <= x

  -- The close beyond the box on the winning side.
  abbrev beyond_box : D → Candle D → Tracked D → PositionSide → Bool
  beyond_box boundary c p long = elim p.box_high [
    | none ↦ false
    | some high ↦
        ((high ⊕ boundary) << c.close) && (d.dec 65 2 <= (metrics_of c).close_position_in_range)
  ]
  beyond_box boundary c p short = elim p.box_low [
    | none ↦ false
    | some low ↦
        (c.close << (low ⊖ boundary)) && ((metrics_of c).close_position_in_range <= d.dec 35 2)
  ]

  -- `_scout_confirmed`
  unfoldable pub is_confirmed : ScoutManagementSection D → BarCandle D → Bar D → Tracked D → Bool
  is_confirmed c candle bar p =
      at_least c.confirmation_volume_ratio bar.volume_ratio
      && (metrics_of candle.prices).valid
      && beyond_box (bar.atr ⊗ c.confirmation_boundary_atr) candle.prices p p.base.side

  -- `_scout_strong_opposite_reason`: whether there is a reason.
  unfoldable pub strong_against :
      ScoutManagementSection D → PositionSide → BarCandle D → Bar D → Bool
  strong_against c side candle bar =
      strong_opposite c.strong_opposite_candle_body_ratio c.strong_opposite_candle_volume_ratio
        (d.dec 25 2) (d.dec 75 2) side candle.prices bar.volume_ratio

  -- `_scout_opposite_move_atr`, with a positive ATR
  abbrev opposite_move : PositionSide → Candle D → D → D
  opposite_move long c atr =
      if c.close << c.open_price then (c.open_price ⊖ c.close) ⊘ atr else num 0
  opposite_move short c atr =
      if c.open_price << c.close then (c.close ⊖ c.open_price) ⊘ atr else num 0

  -- `_scout_catastrophic_opposite_reason`: whether there is a reason.
  unfoldable pub catastrophic : ScoutManagementSection D → PositionSide → BarCandle D → Bar D → Bool
  catastrophic c side candle bar =
      not (bar.atr <= num 0)
      && (c.catastrophic_opposite_move_atr <= opposite_move side candle.prices bar.atr)
      && strong_opposite c.catastrophic_opposite_candle_body_ratio
          c.catastrophic_opposite_candle_volume_ratio (d.dec 2 1) (d.dec 8 1) side candle.prices
          bar.volume_ratio

  abbrev ema_of : Option (Snapshot D) → Option D
  ema_of none = none
  ema_of (some s) = s.ema20

  abbrev rsi_of : Option (Snapshot D) → Option D
  rsi_of none = none
  rsi_of (some s) = s.rsi14

  abbrev wins : PositionSide → D → D → Bool
  wins long close level = level <= close
  wins short close level = close <= level

  abbrev wins_known : PositionSide → D → Option D → Bool
  wins_known side close none = false
  wins_known side close (some level) = wins side close level

  -- `_scout_warning_recovered`
  unfoldable pub recovered : BarCandle D → Bar D → Tracked D → Bool
  recovered candle bar p =
      let c = candle.prices in
      (metrics_of c).valid
      && (wins p.base.side c.close p.base.avg_entry_price
          || wins_known p.base.side c.close (ema_of bar.snapshot_1m)
          || wins p.base.side (metrics_of c).close_position_in_range (d.dec 5 1))

  -- `_scout_ema_reclaim_reason`: whether there is a reason.
  abbrev ema_reclaimed : ℕ → Bool → Managed D → Bool × Managed D
  ema_reclaimed most true s = (
    leb most (s.memory.scout_ema_reclaim_count + 1),
    record s {
      memory = record s.memory { scout_ema_reclaim_count = s.memory.scout_ema_reclaim_count + 1 };
    },
  )
  ema_reclaimed most false s =
      (false, record s { memory = record s.memory { scout_ema_reclaim_count = 0 } })

  abbrev reclaim_known : ℕ → PositionSide → D → Managed D → Option D → Bool × Managed D
  reclaim_known most side close s none = (false, s)
  reclaim_known most side close s (some ema) = ema_reclaimed most (against side close ema) s

  abbrev rsi_weak : ScoutManagementSection D → PositionSide → Option D → Bool
  rsi_weak c side none = false
  rsi_weak c long (some rsi) = rsi <= c.long_invalid_rsi_threshold
  rsi_weak c short (some rsi) = c.short_invalid_rsi_threshold <= rsi

  -- `_scout_weakness_reason`: whether there is a reason.
  unfoldable pub weakness :
      ScoutManagementSection D → BarCandle D → Bar D → Managed D → Bool × Managed D
  unfolding strong_against
  weakness c candle bar s =
      let side = s.position.base.side in
      let close = candle.prices.close in
      let mid_lost = c.invalidate_on_box_mid_reclaim && ema_against side s.position.box_mid close in
      let (reclaimed, counted) =
        reclaim_known c.invalidate_on_ema20_reclaim_bars side close s (ema_of bar.snapshot_1m) in
      if mid_lost then (true, s) else (
        reclaimed || rsi_weak c side (rsi_of bar.snapshot_1m) || strong_against c side candle bar,
        counted,
      )
