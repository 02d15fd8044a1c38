-- ===== src/Positions/Evaluate/Spent.antt =====
-- packages/position/position_manager.py: what the steps of an evaluation leave of the memory, and the
-- reductions of a scout that they count.
pub mod Whole
use quantbot.Prelude.{
  ap, ◌∙◌, inl, inr, Bool-cases, ◌≡◌, refl, ℕ, ◌+◌, ◌≤◌, Bool, true, false, not, ◌&&◌, ◌||◌, ltb,
  if◌then◌else◌, Option, none, some, List, [], ◌∷◌, ◌++◌, count_if, any, arith,
}
use quantbot.Core.Enums.{
  ScoutState, unscouted, scout_pending, scout_warning, scout_confirmed, active_trend, ExitReason,
  scout_defensive_reduce, scout_catastrophic_reduce, max_holding_time,
}
use quantbot.Number.{Number, num, ◌<=◌}
use quantbot.Positions.Managed.{
  EventType, scout_warning_started, scout_warning_recovered, Strength, Weakness, PositionAction,
  reduce, exit, scout_event, PositionSection, StagnationExitSection, ScoutManagementSection,
  BarCandle, RunnerModeSection, Bar, Tracked, Memory, Managed, advance_bar_counter,
}
use quantbot.Positions.Trailing.{r_multiple}
use quantbot.Positions.Stagnation.{leave, Choice, stagnation_delay_event, stagnation_action}
use quantbot.Positions.Scenario.{
  is_scenario_invalid, break_level_invalid, scout_invalid_confirmed, invalidated, scenario_action,
}
use quantbot.Positions.Runner.{
  settle, trend_strength, weakening_reason, weak_downgrade_pending, runner_state_actions,
}
use quantbot.Positions.Scout.{
  start_warning, unconfirmed, in_state, confirmed, Managing, end_warning, scout_management_action,
  watched, warned, after_grace, reduce_scout, scout_stagnation, announce,
}
use quantbot.Positions.Scout
use quantbot.Positions.Scout.Signs.{weakness}
use quantbot.Positions.Evaluate.{
  runner_scenario, or_ratchet, or_stagnation, Evaluation, after, ratchet_step, stagnation_step,
  scenario_step, trailing_step, partial_step, general_step, set_base, stopped_out, last_action,
  max_r_of, observed, managed_step, evaluate,
}

module _ {D : Type 0} where
  -- A reduction that the management of scouts asks for.
  abbrev pub reduces_scout : PositionAction D → Bool
  reduces_scout (reduce qty scout_defensive_reduce) = true
  reduces_scout (reduce qty scout_catastrophic_reduce) = true
  reduces_scout _ = false

  -- The memory has a largest multiple, and the count is at least a number.
  abbrev pub Base : Option D → ℕ → Managed D → Type 0
  Base m n s = (s.memory.max_r ≡ m) × (n ≤ s.position.defensive_reduction_count)

  -- The reductions among the actions are counted, on top of a number before them.
  unfoldable pub IsSpent : Option D → ℕ → Evaluation D → Type 0
  IsSpent m n (actions, s) =
      (s.memory.max_r ≡ m)
      × (n + count_if reduces_scout actions ≤ s.position.defensive_reduction_count)

  abbrev pub IsSpentChoice : Option D → ℕ → Choice D → Type 0
  IsSpentChoice m n (none, s) = Base m n s
  IsSpentChoice m n (some a, s) = Base m n s × (reduces_scout a ≡ false)

  unfoldable pub IsSpentManaging : Option D → ℕ → Managing D → Type 0
  unfolding IsSpent
  IsSpentManaging m n (actions, b, s) = IsSpent m n (actions, s)

  pub if-IsSpent :
      (m : Option D) (n : ℕ) (b : Bool) (e f : Evaluation D)
      → IsSpent m n e
      → IsSpent m n f
      → IsSpent m n (if b then e else f)
  if-IsSpent m n true e f h k = h
  if-IsSpent m n false e f h k = k

  pub if-IsSpentManaging :
      (m : Option D) (n : ℕ) (b : Bool) (e f : Managing D)
      → IsSpentManaging m n e
      → IsSpentManaging m n f
      → IsSpentManaging m n (if b then e else f)
  if-IsSpentManaging m n true e f h k = h
  if-IsSpentManaging m n false e f h k = k

  pub after-IsSpent :
      (m : Option D) (n : ℕ) (events : List (PositionAction D)) (e : Evaluation D)
      → IsSpent m (n + count_if reduces_scout events) e
      → IsSpent m n (after events e)
  unfolding IsSpent
  after-IsSpent m n [] e h = ground arith
  after-IsSpent m n (a ∷ events) e h = elim (Bool-cases (reduces_scout a)) [
    | inl yes' ↦ ground (arith, after-IsSpent m (n + 1) events e)
    | inr no' ↦ ground (arith, after-IsSpent m n events e)
  ]

module _ {D : Type 0} ⦃d : Number D⦄ (m : Option D) (n : ℕ) where
  ratchet_step-IsSpent :
      (c : PositionSection D) (max_r : D) (bar : Bar D) (s : Managed D)
      → Base m n s
      → IsSpent m n (ratchet_step c max_r bar s)
  unfolding ratchet_step IsSpent
  ratchet_step-IsSpent c max_r bar s h = ground arith

  pub stagnation_action-IsSpentChoice :
      (c : StagnationExitSection D) (max_r : D) (s : Managed D)
      → Base m n s
      → IsSpentChoice m n (stagnation_action c max_r s)
  unfolding stagnation_action leave stagnation_delay_event
  stagnation_action-IsSpentChoice c max_r s h = ground arith

  is_scenario_invalid-Base :
      (b : Bool) (bar : Bar D) (s : Managed D)
      → Base m n s
      → Base m n (is_scenario_invalid b bar s).1
  unfolding is_scenario_invalid break_level_invalid
  is_scenario_invalid-Base b bar s h = ground arith

  invalidated-IsSpentChoice :
      (c : StagnationExitSection D) (r : D) (bar : Bar D) (s : Managed D)
      → Base m n s
      → IsSpentChoice m n (invalidated c r bar s)
  unfolding invalidated scout_invalid_confirmed
  invalidated-IsSpentChoice c r bar s h = ground arith

  scenario_action-IsSpentChoice :
      (c : StagnationExitSection D) (r : D) (bar : Bar D) (s : Managed D)
      → Base m n s
      → IsSpentChoice m n (scenario_action c r bar s)
  unfolding scenario_action leave
  scenario_action-IsSpentChoice c r bar s h =
      let k = is_scenario_invalid-Base true bar s h in
      ground (arith, k, invalidated-IsSpentChoice c r bar (is_scenario_invalid true bar s).1 k)

  or_ratchet-IsSpent :
      (c : PositionSection D) (max_r : D) (bar : Bar D) (choice : Choice D)
      → IsSpentChoice m n choice
      → IsSpent m n (or_ratchet c max_r bar choice)
  unfolding IsSpent
  or_ratchet-IsSpent c max_r bar (none, s) h = ground (arith, ratchet_step-IsSpent c max_r bar s h)
  or_ratchet-IsSpent c max_r bar (some a, s) h = ground arith

  or_stagnation-IsSpent :
      (c : PositionSection D) (max_r : D) (bar : Bar D) (choice : Choice D)
      → IsSpentChoice m n choice
      → IsSpent m n (or_stagnation c max_r bar choice)
  unfolding stagnation_step IsSpent
  or_stagnation-IsSpent c max_r bar (none, s) h =
      or_ratchet-IsSpent c max_r bar _ (stagnation_action-IsSpentChoice c.stagnation_exit max_r s h)
  or_stagnation-IsSpent c max_r bar (some a, s) h = ground arith

  runner_scenario-IsSpent :
      (c : PositionSection D) (max_r : D) (bar : Bar D) (e : Bool × Managed D)
      → Base m n e.1
      → IsSpent m n (runner_scenario c max_r bar e)
  unfolding leave IsSpent
  runner_scenario-IsSpent c max_r bar (true, s) h = ground arith
  runner_scenario-IsSpent c max_r bar (false, s) h =
      ground (arith, ratchet_step-IsSpent c max_r bar s h)

  scenario_step-IsSpent :
      (c : PositionSection D) (r max_r : D) (bar : Bar D) (s : Managed D)
      → Base m n s
      → IsSpent m n (scenario_step c r max_r bar s)
  unfolding scenario_step IsSpent
  scenario_step-IsSpent c r max_r bar s h =
      if-IsSpent m n s.position.base.runner_mode_active _ _
        (runner_scenario-IsSpent c max_r bar (is_scenario_invalid false bar s)
          (is_scenario_invalid-Base false bar s h))
        (or_stagnation-IsSpent c max_r bar _
          (scenario_action-IsSpentChoice c.stagnation_exit r bar s h))

  trailing_step-IsSpent :
      (c : PositionSection D) (r max_r : D) (bar : Bar D) (s : Managed D)
      → Base m n s
      → IsSpent m n (trailing_step c r max_r bar s)
  unfolding trailing_step leave IsSpent
  trailing_step-IsSpent c r max_r bar s h =
      let p = record s.position.base { trailing_active = true } in
      ground (
        arith,
        scenario_step-IsSpent c r max_r bar s h,
        scenario_step-IsSpent c r max_r bar (set_base p s) h,
      )

  partial_step-IsSpent :
      (c : PositionSection D) (r max_r : D) (bar : Bar D) (s : Managed D)
      → Base m n s
      → IsSpent m n (partial_step c r max_r bar s)
  unfolding partial_step IsSpent
  partial_step-IsSpent c r max_r bar s h = ground (arith, trailing_step-IsSpent c r max_r bar s h)

module _ {D : Type 0} ⦃d : Number D⦄ where
  trend_strength-same :
      (c : RunnerModeSection D) (max_r : D) (bar : Bar D) (s : Managed D)
      → (trend_strength c s.position.base.side max_r bar s.memory).1.max_r ≡ s.memory.max_r
  unfolding trend_strength weakening_reason
  trend_strength-same c max_r bar s = ground arith

  settle-Base :
      (m : Option D) (n : ℕ) (c : RunnerModeSection D) (p : Tracked D)
      (found : Strength × Option Weakness) (waits : Bool × Memory D)
      → waits.1.max_r ≡ m
      → n ≤ p.defensive_reduction_count
      → Base m n (settle c p found waits).1
        × (count_if reduces_scout (settle c p found waits).0 ≡ 0)
  settle-Base m n c p found (true, t) h k = ground arith
  settle-Base m n c p found (false, t) h k = ground arith

  weak_downgrade-same :
      (c : RunnerModeSection D) (old : Option Strength) (found : Strength × Option Weakness)
      (candle : Option (BarCandle D)) (t : Memory D)
      → (weak_downgrade_pending c old found candle t).1.max_r ≡ t.max_r
  unfolding weak_downgrade_pending
  weak_downgrade-same c old found candle t = ground arith

  runner-Base :
      (m : Option D) (n : ℕ) (c : RunnerModeSection D) (max_r : D) (bar : Bar D) (s : Managed D)
      → Base m n s
      → Base m n (runner_state_actions c max_r bar s).1
        × (count_if reduces_scout (runner_state_actions c max_r bar s).0 ≡ 0)
  unfolding runner_state_actions
  runner-Base m n c max_r bar s h = elim (Bool-cases s.position.base.runner_mode_active) [
    | inl on ↦
        let (found, t) = trend_strength c s.position.base.side max_r bar s.memory in
        simp on (
          settle-Base m n c s.position found
            (weak_downgrade_pending c s.position.runner_trend_strength found bar.candle_1m t)
            (weak_downgrade-same c s.position.runner_trend_strength found bar.candle_1m t
              ∙ trend_strength-same c max_r bar s
              ∙ h.0)
            h.1)
    | inr off ↦ simp off (h, refl)
  ]

  pub general_step-IsSpent :
      (m : Option D) (n : ℕ) (c : PositionSection D) (r max_r : D) (bar : Bar D) (g : Managing D)
      → IsSpentManaging m n g
      → IsSpent m n (general_step c r max_r bar g)
  unfolding general_step IsSpentManaging IsSpent
  general_step-IsSpent m n c r max_r bar (before, false, s) h = h
  general_step-IsSpent m n c r max_r bar (before, true, s) h =
      let (events, t) = runner_state_actions c.runner_mode max_r bar s in
      let spent = n + count_if reduces_scout before in
      let quiet = runner-Base m spent c.runner_mode max_r bar s h in
      let rest = partial_step c r max_r bar t in
      after-IsSpent m n before (after events rest) (
        after-IsSpent m spent events rest (
          partial_step-IsSpent m (spent + count_if reduces_scout events) c r max_r bar t
            (quiet.0.0, omega (arith, quiet.0.1, quiet.1))))
