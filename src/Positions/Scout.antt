-- ===== src/Positions/Scout.antt =====
-- packages/position/position_manager.py: the management of scout positions
-- (`_scout_management_action`).
pub mod Signs
use quantbot.Prelude.{
  ℕ, ◌+◌, ◌-◌, Bool, true, false, not, ◌&&◌, ◌||◌, ltb, leb, if◌then◌else◌, Option, none, some,
  List, [], ◌∷◌, is_some,
}
use quantbot.Core.Enums.{
  PositionSide, EntryMode, ScoutState, unscouted, scout_pending, scout_warning, scout_confirmed,
  active_trend, ExitReason, scout_defensive_reduce, scout_catastrophic_reduce,
}
use quantbot.Number.{Number, num, ◌⊗◌, ◌<=◌}
use quantbot.Positions.Managed.{
  scout_activated, scout_was_confirmed, scout_warning_started, scout_warning_recovered,
  scout_invalidated, delayed_by_entry_mode, PositionAction, reduce, scout_event, PositionSection,
  ScoutManagementSection, StagnationExitSection, BarCandle, Bar, Tracked, Memory, Managed,
}
use quantbot.Positions.Scenario.{is_scout}
use quantbot.Positions.Stagnation.{Choice, stagnation_action}
use Signs.{is_confirmed, weakness, strong_against, catastrophic, recovered}

-- The actions, whether the general management goes on, and what is kept.
abbrev pub Managing : Type 0 → Type 0
Managing D = List (PositionAction D) × Bool × Managed D

-- `_scout_bars_since_entry`
abbrev pub scout_bars : {D : Type 0} → Tracked D → ℕ
scout_bars p = elim p.scout_entry_bar_index [
  | none ↦ p.bars_since_entry
  | some start ↦ p.bars_since_entry - start
]

-- `_scout_warning_bars`
abbrev pub warning_bars : {D : Type 0} → Tracked D → ℕ
warning_bars p = elim p.warning_started_at_bar [ none ↦ 0 | some started ↦ scout_bars p - started ]

-- States that leave the position to the general management before the candle is looked at.
abbrev is_past : ScoutState → Bool
is_past unscouted = true
is_past active_trend = true
is_past _ = false

module _ {D : Type 0} where
  abbrev pub set_state : ScoutState → Managed D → Managed D
  set_state state s = record s { position = record s.position { scout_state = state } }

  -- `_clear_scout_warning`, and a new state
  abbrev pub end_warning : ScoutState → Managed D → Managed D
  end_warning state s = record s {
    position = record s.position { warning_started_at_bar = none; scout_state = state };
  }

  abbrev pub start_warning : Managed D → Managed D
  start_warning s = record s {
    position = record s.position {
      scout_state = scout_warning;
      warning_started_at_bar = some (scout_bars s.position);
    };
  }

  -- Whether another defensive reduction is allowed.
  abbrev pub can_reduce : ScoutManagementSection D → Managed D → Bool
  can_reduce c s = ltb s.position.defensive_reduction_count c.max_defensive_reductions

module _ {D : Type 0} ⦃d : Number D⦄ where
  -- `_scout_reduce_action`
  unfoldable pub reduce_scout : ScoutManagementSection D → ExitReason → Managed D → Managing D
  reduce_scout c reason s = (
    reduce (s.position.base.qty ⊗ c.defensive_reduce_fraction) reason ∷ [],
    false,
    record s {
      position = record s.position {
        defensive_reduction_count = s.position.defensive_reduction_count + 1;
        warning_started_at_bar = none;
        scout_state = scout_pending;
      };
    },
  )

  abbrev pub confirmed : ScoutManagementSection D → Managed D → Managing D
  confirmed c s =
      if c.convert_to_active_on_confirmation
      then (
        scout_event scout_was_confirmed ∷ scout_event scout_activated ∷ [],
        true,
        end_warning active_trend s,
      )
      else (scout_event scout_was_confirmed ∷ [], false, end_warning scout_confirmed s)

  abbrev activated : ScoutManagementSection D → Managed D → Managing D
  activated c s =
      if c.convert_to_active_on_confirmation
      then (scout_event scout_activated ∷ [], true, set_state active_trend s)
      else ([], false, s)

  -- The event before a stagnation action, unless that is only delayed.
  abbrev announced : PositionAction D → List (PositionAction D)
  announced (scout_event e) = scout_event e ∷ []
  announced a = scout_event scout_invalidated ∷ a ∷ []

  abbrev pub announce : Choice D → Managing D
  announce (none, s) = ([], false, s)
  announce (some a, s) = (announced a, false, s)

  unfoldable pub scout_stagnation : StagnationExitSection D → D → Managed D → Managing D
  unfolding stagnation_action
  scout_stagnation c max_r s = announce (stagnation_action c max_r s)

  -- The weak signs after the grace bars, and then stagnation.
  unfoldable pub after_grace : PositionSection D → BarCandle D → Bar D → D → Managed D → Managing D
  unfolding weakness reduce_scout scout_stagnation
  after_grace c candle bar max_r s =
      let m = c.scout_management in
      let (sign, counted) = weakness m candle bar s in
      let in_grace = ltb (scout_bars s.position) m.grace_bars in
      if in_grace
      then scout_stagnation c.stagnation_exit max_r s
      else if sign && can_reduce m counted
      then reduce_scout m scout_defensive_reduce counted
      else scout_stagnation c.stagnation_exit max_r counted

  -- A pending scout without confirmation and without a catastrophic candle.
  unfoldable pub pending : PositionSection D → BarCandle D → Bar D → D → Managed D → Managing D
  unfolding strong_against after_grace
  pending c candle bar max_r s =
      let m = c.scout_management in
      if strong_against m s.position.base.side candle bar && can_reduce m s
      then (scout_event scout_warning_started ∷ [], false, start_warning s)
      else after_grace c candle bar max_r s

  -- A scout under a warning.
  unfoldable pub warned : PositionSection D → BarCandle D → Bar D → D → Managed D → Managing D
  unfolding recovered reduce_scout pending
  warned c candle bar max_r s =
      let m = c.scout_management in
      if recovered candle bar s.position
      then (scout_event scout_warning_recovered ∷ [], false, end_warning scout_pending s)
      else if ltb (warning_bars s.position) m.warning_confirm_bars
          || ltb (scout_bars s.position) m.min_hold_bars_before_defensive_reduce
      then ([], false, s)
      else if can_reduce m s
      then reduce_scout m scout_defensive_reduce s
      else pending c candle bar max_r (end_warning scout_pending s)

  abbrev pub unconfirmed :
      PositionSection D → BarCandle D → Bar D → D → Managed D → ScoutState → Managing D
  unconfirmed c candle bar max_r s scout_warning = warned c candle bar max_r s
  unconfirmed c candle bar max_r s _ = pending c candle bar max_r s

  -- A scout that is pending or under a warning.
  unfoldable pub watched : PositionSection D → BarCandle D → Bar D → D → Managed D → Managing D
  unfolding is_confirmed catastrophic reduce_scout warned pending
  watched c candle bar max_r s =
      let m = c.scout_management in
      if is_confirmed m candle bar s.position
      then confirmed m s
      else if catastrophic m s.position.base.side candle bar && can_reduce m s
      then reduce_scout m scout_catastrophic_reduce s
      else unconfirmed c candle bar max_r s s.position.scout_state

  abbrev pub in_state :
      PositionSection D → BarCandle D → Bar D → D → Managed D → ScoutState → Managing D
  in_state c candle bar max_r s unscouted = ([], true, s)
  in_state c candle bar max_r s active_trend = ([], true, s)
  in_state c candle bar max_r s scout_confirmed = activated c.scout_management s
  in_state c candle bar max_r s _ = watched c candle bar max_r s

  abbrev pub with_candle :
      PositionSection D → D → Bar D → Managed D → Option (BarCandle D) → Managing D
  with_candle c max_r bar s none = ([], false, s)
  with_candle c max_r bar s (some candle) =
      if bar.atr <= num 0
      then ([], false, s)
      else in_state c candle bar max_r s s.position.scout_state

  -- `_scout_management_action`
  unfoldable pub scout_management_action : PositionSection D → D → Bar D → Managed D → Managing D
  unfolding watched
  scout_management_action c max_r bar s =
      if not c.scout_management.enabled
        || not (is_scout s.position.entry_mode)
        || is_past s.position.scout_state
      then ([], true, s)
      else with_candle c max_r bar s bar.candle_1m
