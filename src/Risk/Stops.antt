-- ===== src/Risk/Stops.antt =====
-- packages/risk/risk_manager.py: the stop that an order gets. The candidates are the ATR stop, the
-- structure stop and the stop at the configured minimum distance, and the farthest is selected.
pub mod Sides
use quantbot.Prelude.{Bool, true, false, not, ◌&&◌, ◌||◌, if◌then◌else◌, any, Option, none, some}
use quantbot.Core.Enums.{
  PositionSide, long, short, EntryMode, pre_breakout_scout, breakout_confirm, retest_confirm,
  same_mode,
}
use quantbot.Config.{RiskConfig}
use quantbot.Number.{Number, num, ◌⊕◌, ◌⊖◌, ◌⊗◌, ◌⊘◌, ◌<=◌, ◌<<◌, min_of, max_of}

module _ {D : Type 0} ⦃d : Number D⦄ where
  -- `_round_stop_to_tick`
  unfoldable pub round_stop_to_tick : D → PositionSide → D → D
  round_stop_to_tick price long tick =
      if tick <= num 0 then price else d.floor (price ⊘ tick) ⊗ tick
  round_stop_to_tick price short tick =
      if tick <= num 0 then price else d.ceiling (price ⊘ tick) ⊗ tick

  -- `_select_stop`
  unfoldable pub select_stop : PositionSide → D → Option D → D
  select_stop side atr_stop none = atr_stop
  select_stop long atr_stop (some other) = min_of atr_stop other
  select_stop short atr_stop (some other) = max_of atr_stop other

  -- `_structure_stop_enabled`
  unfoldable pub structure_stop_enabled : RiskConfig D → EntryMode → Bool
  structure_stop_enabled cfg mode =
      let c = cfg.structure_stop in
      if not c.enabled
      then false
      else if same_mode mode pre_breakout_scout && not c.use_structure_stop_for_scout
      then false
      else if same_mode mode retest_confirm && not c.use_structure_stop_for_retest
      then false
      else any (same_mode mode) c.apply_to_entry_modes

  -- `_structure_stop_price`
  unfoldable pub structure_stop_price :
      RiskConfig D → Option D → EntryMode → PositionSide → D → Option D
  structure_stop_price cfg none mode side tick = none
  structure_stop_price cfg (some price) mode side tick =
      if not (structure_stop_enabled cfg mode)
      then none
      else some (round_stop_to_tick price side tick)

  -- `_min_stop_distance_percent`
  unfoldable pub min_stop_distance_percent : RiskConfig D → EntryMode → D
  min_stop_distance_percent cfg pre_breakout_scout =
      max_of cfg.risk.min_stop_distance_percent cfg.pre_breakout.min_stop_distance_percent
  min_stop_distance_percent cfg breakout_confirm =
      max_of cfg.risk.min_stop_distance_percent cfg.risk.breakout_min_stop_distance_percent
  min_stop_distance_percent cfg retest_confirm =
      max_of cfg.risk.min_stop_distance_percent cfg.risk.retest_min_stop_distance_percent

  -- `_min_stop_distance_atr`
  unfoldable pub min_stop_distance_atr : RiskConfig D → EntryMode → D
  min_stop_distance_atr cfg pre_breakout_scout = cfg.pre_breakout.min_stop_distance_atr
  min_stop_distance_atr cfg _ = num 0

  -- `entry - offset` for a long position, `entry + offset` for a short one.
  abbrev pub away : PositionSide → D → D → D
  away long entry offset = entry ⊖ offset
  away short entry offset = entry ⊕ offset

  -- `_min_distance_stop_price`: up to two candidates, and the farther of them.
  unfoldable pub min_distance_stop_price :
      RiskConfig D → EntryMode → D → D → PositionSide → D → Option D
  unfolding select_stop
  min_distance_stop_price cfg mode entry atr side tick =
      let percent = min_stop_distance_percent cfg mode in
      let by_percent = round_stop_to_tick (away side entry (entry ⊗ percent ⊘ num 100)) side tick in
      let multiple = min_stop_distance_atr cfg mode in
      let by_atr = round_stop_to_tick (away side entry (atr ⊗ multiple)) side tick in
      if num 0 << percent
      then (if num 0 << multiple
          then some (select_stop side by_percent (some by_atr))
          else some by_percent)
      else if num 0 << multiple
      then some by_atr
      else none

  -- `_max_stop_distance_atr`
  unfoldable pub max_stop_distance_atr : RiskConfig D → EntryMode → D
  max_stop_distance_atr cfg pre_breakout_scout = cfg.risk.scout_max_stop_distance_atr
  max_stop_distance_atr cfg breakout_confirm = cfg.risk.max_stop_distance_atr
  max_stop_distance_atr cfg retest_confirm =
      if structure_stop_enabled cfg retest_confirm
      then min_of cfg.risk.retest_max_stop_distance_atr cfg.structure_stop.max_stop_distance_atr
      else cfg.risk.retest_max_stop_distance_atr
