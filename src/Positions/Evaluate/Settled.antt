-- ===== src/Positions/Evaluate/Settled.antt =====
-- packages/position/position_manager.py and apps/bot/workers/trading_pipeline.py: outside the retest
-- mode the stop of a TRAIL_UPDATE is the one that the manager has set.
pub mod Whole
use quantbot.Prelude.{
  ap, ◌∙◌, inl, inr, Bool-cases, ◌≡◌, refl, ℕ, Bool, true, false, if◌then◌else◌, Option, none, some,
  List, [], ◌∷◌, ◌++◌, count_if, arith,
}
use quantbot.Core.Enums.{
  EntryMode, retest_confirm, ScoutState, unscouted, scout_pending, scout_warning, scout_confirmed,
  active_trend, ExitReason, scout_defensive_reduce, scout_catastrophic_reduce, max_holding_time,
}
use quantbot.Number.{Number}
use quantbot.Positions.Managed.{
  EventType, scout_warning_started, scout_warning_recovered, Strength, Weakness, PositionAction,
  trail_update, scout_event, PositionSection, StagnationExitSection, ScoutManagementSection,
  BarCandle, RunnerModeSection, Bar, Tracked, Memory, Managed, advance_bar_counter,
}
use quantbot.Positions.Trailing.{r_multiple, update_extremes}
use quantbot.Positions.Stagnation.{leave, Choice, stagnation_delay_event, stagnation_action}
use quantbot.Positions.Scenario.{
  is_scenario_invalid, break_level_invalid, scout_invalid_confirmed, invalidated, scenario_action,
}
use quantbot.Positions.Runner.{settle, trend_strength, weak_downgrade_pending, runner_state_actions}
use quantbot.Positions.Scout.{
  start_warning, unconfirmed, in_state, confirmed, Managing, end_warning, scout_management_action,
  watched, warned, after_grace, reduce_scout, scout_stagnation, announce,
}
use quantbot.Positions.Scout
use quantbot.Positions.Scout.Signs.{weakness}
use quantbot.Positions.Evaluate.{
  runner_scenario, or_ratchet, or_stagnation, Evaluation, after, ratchet_step, stagnation_step,
  scenario_step, trailing_step, partial_step, general_step, set_base, last_action, max_r_of,
  observed, managed_step,
}
use quantbot.Positions.Evaluate.Changes.{is_scenario_invalid-same, weakness-same}

abbrev pub is_retest : Option EntryMode → Bool
is_retest (some retest_confirm) = true
is_retest _ = false

module _ {D : Type 0} where
  abbrev pub is_trail : PositionAction D → Bool
  is_trail (trail_update stop) = true
  is_trail _ = false

  -- The stop after the actions are applied: `pos.stop_loss_price = action.new_stop`.
  abbrev pub stop_after : List (PositionAction D) → Option D → Option D
  stop_after [] stop = stop
  stop_after (trail_update u ∷ actions) stop = stop_after actions (some u)
  stop_after (_ ∷ actions) stop = stop_after actions stop

  abbrev pub retest_of : Tracked D → Bool
  retest_of p = is_retest p.entry_mode

  abbrev pub IsPlain : Managed D → Type 0
  IsPlain s = retest_of s.position ≡ false

  -- The actions leave the stop as the manager has set it.
  unfoldable pub IsSettled : Evaluation D → Type 0
  IsSettled (actions, s) =
      stop_after actions s.position.base.stop_loss_price ≡ s.position.base.stop_loss_price

  abbrev pub IsSettledChoice : Choice D → Type 0
  IsSettledChoice (none, s) = IsPlain s
  IsSettledChoice (some a, s) = is_trail a ≡ false

  unfoldable pub IsSettledManaging : Managing D → Type 0
  IsSettledManaging (actions, b, s) = (count_if is_trail actions ≡ 0) × IsPlain s

  pub if-IsSettled :
      (b : Bool) (e f : Evaluation D) → IsSettled e → IsSettled f → IsSettled (if b then e else f)
  if-IsSettled true e f h k = h
  if-IsSettled false e f h k = k

  pub if-IsSettledManaging :
      (b : Bool) (e f : Managing D)
      → IsSettledManaging e
      → IsSettledManaging f
      → IsSettledManaging (if b then e else f)
  if-IsSettledManaging true e f h k = h
  if-IsSettledManaging false e f h k = k

  stop_after-plain :
      (actions : List (PositionAction D)) (stop : Option D)
      → count_if is_trail actions ≡ 0
      → stop_after actions stop ≡ stop
  stop_after-plain [] stop h = refl
  stop_after-plain (a ∷ actions) stop h = ground (arith, stop_after-plain actions stop)

  after-IsSettled :
      (events : List (PositionAction D)) (e : Evaluation D)
      → count_if is_trail events ≡ 0
      → IsSettled e
      → IsSettled (after events e)
  unfolding IsSettled
  after-IsSettled [] e q h = h
  after-IsSettled (a ∷ events) e q h = ground (arith, after-IsSettled events e)

module _ {D : Type 0} ⦃d : Number D⦄ where
  ratchet_step-IsSettled :
      (c : PositionSection D) (max_r : D) (bar : Bar D) (s : Managed D)
      → IsSettled (ratchet_step c max_r bar s)
  unfolding ratchet_step IsSettled
  ratchet_step-IsSettled c max_r bar s = ground arith

  pub stagnation_action-IsSettledChoice :
      (c : StagnationExitSection D) (max_r : D) (s : Managed D)
      → IsPlain s
      → IsSettledChoice (stagnation_action c max_r s)
  unfolding stagnation_action leave stagnation_delay_event
  stagnation_action-IsSettledChoice c max_r s h = ground arith

  invalidated-IsSettledChoice :
      (c : StagnationExitSection D) (r : D) (bar : Bar D) (s : Managed D)
      → IsPlain s
      → IsSettledChoice (invalidated c r bar s)
  unfolding invalidated scout_invalid_confirmed
  invalidated-IsSettledChoice c r bar s h = ground arith

  scenario_action-IsSettledChoice :
      (c : StagnationExitSection D) (r : D) (bar : Bar D) (s : Managed D)
      → IsPlain s
      → IsSettledChoice (scenario_action c r bar s)
  unfolding scenario_action leave
  scenario_action-IsSettledChoice c r bar s h = ground (
    arith,
    is_scenario_invalid-same true bar s,
    invalidated-IsSettledChoice c r bar (is_scenario_invalid true bar s).1,
  )

  or_ratchet-IsSettled :
      (c : PositionSection D) (max_r : D) (bar : Bar D) (choice : Choice D)
      → IsSettledChoice choice
      → IsSettled (or_ratchet c max_r bar choice)
  unfolding IsSettled
  or_ratchet-IsSettled c max_r bar (none, s) h =
      ground (arith, ratchet_step-IsSettled c max_r bar s)
  or_ratchet-IsSettled c max_r bar (some a, s) h = ground arith

  or_stagnation-IsSettled :
      (c : PositionSection D) (max_r : D) (bar : Bar D) (choice : Choice D)
      → IsSettledChoice choice
      → IsSettled (or_stagnation c max_r bar choice)
  unfolding stagnation_step IsSettled
  or_stagnation-IsSettled c max_r bar (none, s) h =
      or_ratchet-IsSettled c max_r bar _
        (stagnation_action-IsSettledChoice c.stagnation_exit max_r s h)
  or_stagnation-IsSettled c max_r bar (some a, s) h = ground arith

  runner_scenario-IsSettled :
      (c : PositionSection D) (max_r : D) (bar : Bar D) (e : Bool × Managed D)
      → IsSettled (runner_scenario c max_r bar e)
  unfolding leave IsSettled
  runner_scenario-IsSettled c max_r bar (true, s) = ground arith
  runner_scenario-IsSettled c max_r bar (false, s) =
      ground (arith, ratchet_step-IsSettled c max_r bar s)

  scenario_step-IsSettled :
      (c : PositionSection D) (r max_r : D) (bar : Bar D) (s : Managed D)
      → IsPlain s
      → IsSettled (scenario_step c r max_r bar s)
  unfolding scenario_step
  scenario_step-IsSettled c r max_r bar s h =
      if-IsSettled s.position.base.runner_mode_active _ _
        (runner_scenario-IsSettled c max_r bar (is_scenario_invalid false bar s))
        (or_stagnation-IsSettled c max_r bar _
          (scenario_action-IsSettledChoice c.stagnation_exit r bar s h))

  trailing_step-IsSettled :
      (c : PositionSection D) (r max_r : D) (bar : Bar D) (s : Managed D)
      → IsPlain s
      → IsSettled (trailing_step c r max_r bar s)
  unfolding trailing_step leave IsSettled
  trailing_step-IsSettled c r max_r bar s h =
      let p = record s.position.base { trailing_active = true } in
      ground (
        arith,
        scenario_step-IsSettled c r max_r bar s h,
        scenario_step-IsSettled c r max_r bar (set_base p s) h,
      )

  partial_step-IsSettled :
      (c : PositionSection D) (r max_r : D) (bar : Bar D) (s : Managed D)
      → IsPlain s
      → IsSettled (partial_step c r max_r bar s)
  unfolding partial_step IsSettled
  partial_step-IsSettled c r max_r bar s h =
      ground (arith, trailing_step-IsSettled c r max_r bar s h)

  settle-quiet :
      (c : RunnerModeSection D) (p : Tracked D) (found : Strength × Option Weakness)
      (waits : Bool × Memory D)
      → retest_of p ≡ false
      → (count_if is_trail (settle c p found waits).0 ≡ 0) × IsPlain (settle c p found waits).1
  settle-quiet c p found (true, t) h = ground arith
  settle-quiet c p found (false, t) h = ground arith

  runner-quiet :
      (c : RunnerModeSection D) (max_r : D) (bar : Bar D) (s : Managed D)
      → IsPlain s
      → (count_if is_trail (runner_state_actions c max_r bar s).0 ≡ 0)
        × IsPlain (runner_state_actions c max_r bar s).1
  unfolding runner_state_actions
  runner-quiet c max_r bar s h = elim (Bool-cases s.position.base.runner_mode_active) [
    | inl on ↦
        let (found, t) = trend_strength c s.position.base.side max_r bar s.memory in
        simp on (
          settle-quiet c s.position found
            (weak_downgrade_pending c s.position.runner_trend_strength found bar.candle_1m t) h)
    | inr off ↦ simp off (refl, h)
  ]

  pub general_step-IsSettled :
      (c : PositionSection D) (r max_r : D) (bar : Bar D) (g : Managing D)
      → IsSettledManaging g
      → IsSettled (general_step c r max_r bar g)
  unfolding general_step IsSettledManaging IsSettled
  general_step-IsSettled c r max_r bar (before, false, s) h = stop_after-plain before _ h.0
  general_step-IsSettled c r max_r bar (before, true, s) h =
      let (events, t) = runner_state_actions c.runner_mode max_r bar s in
      let quiet = runner-quiet c.runner_mode max_r bar s h.1 in
      let rest = partial_step c r max_r bar t in
      after-IsSettled before (after events rest) h.0
        (after-IsSettled events rest quiet.0 (partial_step-IsSettled c r max_r bar t quiet.1))
