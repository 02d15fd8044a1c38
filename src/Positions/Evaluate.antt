-- ===== src/Positions/Evaluate.antt =====
-- packages/position/position_manager.py: `evaluate`, one bar of a position, and the start of the
-- runner mode.
pub mod Single
pub mod Spent
pub mod Settled
pub mod Actions
mod Changes
mod Stable
pub mod Bars
pub mod Carried
mod Tests
use quantbot.Prelude.{
  ℕ, ◌+◌, ◌-◌, ◌*◌, Bool, true, false, not, ◌&&◌, ◌||◌, leb, if◌then◌else◌, Option, none, some,
  List, [], ◌∷◌, ◌++◌,
}
use quantbot.Core.Enums.{
  PositionStatus, pending, active, closing, closed, ExitReason, max_holding_time,
  partial_take_profit, runner_trailing_stop, trailing_stop, runner_scenario_invalid,
}
use quantbot.Core.Models.{Position}
use quantbot.Number.{Number, num, ◌⊗◌, ◌<=◌, max_of}
use quantbot.Runtime.{is_bot_managed}
use quantbot.Positions.Trailing.{
  r_multiple, update_extremes, trail_stop, stop_breached, effective_stop, ratchet, update_allowed,
  record_update,
}
use quantbot.Positions.Managed.{
  runner_mode_activated, runner_trailing_updated, runner_trailing_hit, runner_scenario_broken,
  PositionAction, partial_tp, trail_update, scout_event, PositionSection, BarCandle, Bar, Tracked,
  Memory, Managed, advance_bar_counter,
}
use quantbot.Positions.Runner.{runner_multiplier, trend_strength, runner_state_actions}
use quantbot.Positions.Stagnation.{leave, Choice, stagnation_action}
use quantbot.Positions.Scenario.{is_scenario_invalid, scenario_action}
use quantbot.Positions.Scout.{Managing, scout_management_action}

abbrev pub is_status_active : PositionStatus → Bool
is_status_active active = true
is_status_active _ = false

-- What one evaluation gives: the actions and what is kept.
abbrev pub Evaluation : Type 0 → Type 0
Evaluation D = List (PositionAction D) × Managed D

module _ {D : Type 0} where
  abbrev pub set_base : Position D → Managed D → Managed D
  set_base base s = record s { position = record s.position { base = base } }

  -- More actions before those of an evaluation.
  abbrev pub after : List (PositionAction D) → Evaluation D → Evaluation D
  after before (actions, s) = (before ++ actions, s)

  abbrev runner_only : Bool → PositionAction D → List (PositionAction D)
  runner_only true a = a ∷ []
  runner_only false a = []

  abbrev pub last_action : PositionAction D × Managed D → Evaluation D
  last_action (a, s) = (a ∷ [], s)

module _ {D : Type 0} ⦃d : Number D⦄ where
  -- The high and the low of a bar.
  abbrev high_of : Bar D → D
  high_of bar = elim bar.candle_1m [ none ↦ bar.price | some c ↦ c.prices.high ]

  abbrev low_of : Bar D → D
  low_of bar = elim bar.candle_1m [ none ↦ bar.price | some c ↦ c.prices.low ]

  abbrev or_zero : Option D → D
  or_zero none = num 0
  or_zero (some r) = r

  -- The largest multiple of the risk that the symbol has seen, with the current one.
  unfoldable pub max_r_of : Bar D → Managed D → D
  unfolding r_multiple
  max_r_of bar s = max_of (or_zero s.memory.max_r) (r_multiple s.position.base bar.price)

  -- The counters and extremes that every evaluation updates first.
  unfoldable pub observed : Bar D → Managed D → Managed D
  unfolding advance_bar_counter update_extremes max_r_of
  observed bar s =
      let p = advance_bar_counter bar.candle_1m s.position in
      record s {
        position = record p { base = update_extremes (high_of bar) (low_of bar) p.base };
        memory = record s.memory { max_r = some (max_r_of bar s) };
      }

  -- A move of the stop to a new price, or none.
  abbrev pub move_stop : PositionSection D → Bar D → Managed D → Option D → Evaluation D
  move_stop c bar s none = ([], s)
  move_stop c bar s (some new_stop) =
      let p = s.position.base in
      if update_allowed c.trailing p new_stop bar.atr bar.now
      then (
        runner_only p.runner_mode_active (scout_event runner_trailing_updated)
            ++ (trail_update new_stop ∷ []),
        set_base (record_update new_stop bar.now (record p { stop_loss_price = some new_stop })) s,
      )
      else ([], s)

  -- Step 6: the ratchet.
  unfoldable pub ratchet_step : PositionSection D → D → Bar D → Managed D → Evaluation D
  unfolding trail_stop ratchet update_allowed
  ratchet_step c max_r bar s =
      let p = s.position.base in
      move_stop c bar s (ratchet p (trail_stop c.trailing bar.atr max_r p))

  abbrev ratchet_if_trailing : PositionSection D → D → Bar D → Managed D → Evaluation D
  ratchet_if_trailing c max_r bar s =
      let moved = ratchet_step c max_r bar s in
      if s.position.base.trailing_active then moved else ([], s)

  abbrev or_ratchet : PositionSection D → D → Bar D → Choice D → Evaluation D
  or_ratchet c max_r bar (some a, s) = (a ∷ [], s)
  or_ratchet c max_r bar (none, s) = ratchet_if_trailing c max_r bar s

  -- Step 4, outside the runner mode.
  unfoldable pub stagnation_step : PositionSection D → D → Bar D → Managed D → Evaluation D
  unfolding stagnation_action ratchet_step
  stagnation_step c max_r bar s =
      or_ratchet c max_r bar (stagnation_action c.stagnation_exit max_r s)

  abbrev or_stagnation : PositionSection D → D → Bar D → Choice D → Evaluation D
  or_stagnation c max_r bar (some a, s) = (a ∷ [], s)
  or_stagnation c max_r bar (none, s) = stagnation_step c max_r bar s

  abbrev runner_scenario : PositionSection D → D → Bar D → Bool × Managed D → Evaluation D
  runner_scenario c max_r bar (true, s) =
      after (scout_event runner_scenario_broken ∷ [])
        (last_action (leave runner_scenario_invalid s))
  runner_scenario c max_r bar (false, s) = ratchet_if_trailing c max_r bar s

  -- Step 3: in the runner mode an invalid scenario ends the position.
  unfoldable pub scenario_step : PositionSection D → D → D → Bar D → Managed D → Evaluation D
  unfolding is_scenario_invalid leave scenario_action stagnation_step ratchet_step
  scenario_step c r max_r bar s =
      if s.position.base.runner_mode_active
      then runner_scenario c max_r bar (is_scenario_invalid false bar s)
      else or_stagnation c max_r bar (scenario_action c.stagnation_exit r bar s)

  -- The exit at the trailing stop.
  abbrev pub stopped_out : Managed D → Evaluation D
  stopped_out s =
      if s.position.base.runner_mode_active
      then after (scout_event runner_trailing_hit ∷ []) (last_action (leave runner_trailing_stop s))
      else last_action (leave trailing_stop s)

  -- Step 2b: the trailing stop, from `trailing_start_r` on.
  unfoldable pub trailing_step : PositionSection D → D → D → Bar D → Managed D → Evaluation D
  unfolding trail_stop effective_stop stop_breached leave scenario_step
  trailing_step c r max_r bar s =
      let p = record s.position.base { trailing_active = true } in
      let stop = effective_stop p (trail_stop c.trailing bar.atr max_r p) in
      if not (c.trailing_start_r <= max_r)
      then scenario_step c r max_r bar s
      else if stop_breached p bar.price stop
      then stopped_out (set_base p s)
      else scenario_step c r max_r bar (set_base p s)

  -- Step 2a: the partial take-profit.
  unfoldable pub partial_step : PositionSection D → D → D → Bar D → Managed D → Evaluation D
  unfolding trailing_step
  partial_step c r max_r bar s =
      let p = s.position.base in
      if not p.partial_tp_done && (c.partial_r <= r)
      then (
        partial_tp (p.qty ⊗ c.partial_fraction) ∷ [],
        set_base (record p { partial_tp_done = true }) s,
      )
      else trailing_step c r max_r bar s

  -- The general management, after that of scouts.
  unfoldable pub general_step : PositionSection D → D → D → Bar D → Managing D → Evaluation D
  unfolding runner_state_actions partial_step
  general_step c r max_r bar (before, false, s) = (before, s)
  general_step c r max_r bar (before, true, s) =
      let (events, t) = runner_state_actions c.runner_mode max_r bar s in
      after before (after events (partial_step c r max_r bar t))

  -- An evaluation of an active position of the bot.
  unfoldable pub managed_step : PositionSection D → Bar D → Managed D → Evaluation D
  unfolding r_multiple observed max_r_of leave scout_management_action general_step
  managed_step c bar s =
      let t = observed bar s in
      let r = r_multiple s.position.base bar.price in
      let max_r = max_r_of bar s in
      if leb (c.max_holding_minutes * 60) (bar.now - s.position.opened_at)
      then last_action (leave max_holding_time t)
      else general_step c r max_r bar (scout_management_action c max_r bar t)

  unfoldable pub evaluate : PositionSection D → Bar D → Managed D → Evaluation D
  unfolding managed_step
  evaluate c bar s =
      if is_bot_managed s.position.base.source && is_status_active s.position.base.status
      then managed_step c bar s
      else ([], s)

  abbrev can_run : PositionSection D → D → Position D → Bool
  can_run c max_r p =
      c.runner_mode.enabled
      && c.runner_mode.activate_after_partial_tp
      && p.partial_tp_done
      && not p.runner_mode_active
      && not (p.qty <= num 0)
      && (c.runner_mode.activate_min_r <= max_r)

  -- `activate_runner_after_partial_tp`; it does not store the largest multiple.
  unfoldable pub activate_runner_after_partial_tp :
      PositionSection D → Bar D → Managed D → Evaluation D
  unfolding max_r_of update_extremes trend_strength runner_multiplier ratchet_step
  activate_runner_after_partial_tp c bar s =
      let max_r = max_r_of bar s in
      let p = s.position in
      let base = update_extremes (high_of bar) (low_of bar) p.base in
      let (found, m) = trend_strength c.runner_mode base.side max_r bar s.memory in
      let running = record base {
        runner_mode_active = true;
        runner_trailing_atr_multiplier = some (runner_multiplier c.runner_mode found.0);
      } in
      let started : Managed D = record {
        position = record p { base = running; runner_trend_strength = some found.0 };
        memory = m;
      } in
      if can_run c max_r p.base
      then after (scout_event runner_mode_activated ∷ []) (ratchet_step c max_r bar started)
      else ([], set_base base s)
