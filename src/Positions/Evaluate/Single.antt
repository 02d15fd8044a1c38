-- ===== src/Positions/Evaluate/Single.antt =====
-- What one evaluation may do to a position, step by step of the general management.
use quantbot.Prelude.{
  ap, ◌∙◌, inl, inr, Bool-cases, ◌≡◌, refl, ◌≤◌, Bool, true, false, if◌then◌else◌, Option, none,
  some, List, [], ◌∷◌, count_if, any, arith,
}
use quantbot.Core.Enums.{closing}
use quantbot.Number.{Number}
use quantbot.Positions.Managed.{
  Strength, Weakness, PositionAction, exit, scout_event, PositionSection, StagnationExitSection,
  RunnerModeSection, Bar, Tracked, Memory, Managed,
}
use quantbot.Positions.Stagnation.{leave, Choice, stagnation_delay_event, stagnation_action}
use quantbot.Positions.Scenario.{
  is_scenario_invalid, scout_invalid_confirmed, invalidated, scenario_action,
}
use quantbot.Positions.Runner.{settle, trend_strength, weak_downgrade_pending, runner_state_actions}
use quantbot.Positions.Scout.{
  start_warning, unconfirmed, in_state, confirmed, Managing, end_warning, scout_management_action,
  watched, warned, after_grace, reduce_scout, scout_stagnation,
}
use quantbot.Positions.Scout
use quantbot.Positions.Evaluate.{
  runner_scenario, or_ratchet, or_stagnation, Evaluation, after, ratchet_step, stagnation_step,
  scenario_step, trailing_step, partial_step, general_step, set_base,
}
use quantbot.Positions.Evaluate.Changes.{is_scenario_invalid-same}

module _ {D : Type 0} where
  -- The actions that send an order or move the stop.
  abbrev pub is_order : PositionAction D → Bool
  is_order (scout_event e) = false
  is_order _ = true

  abbrev pub is_exit : PositionAction D → Bool
  is_exit (exit qty reason) = true
  is_exit _ = false

  abbrev pub closing_of : Tracked D → Bool
  closing_of p = elim p.base.status [ closing ↦ true | _ ↦ false ]

  abbrev pub is_closing : Managed D → Bool
  is_closing s = closing_of s.position

  -- At most one action, and an exit exactly where the position is left closing.
  unfoldable pub IsSingle : Evaluation D → Type 0
  IsSingle (actions, s) = (count_if is_order actions ≤ 1) × (any is_exit actions ≡ is_closing s)

  abbrev IsSingleChoice : Choice D → Type 0
  IsSingleChoice (none, s) = is_closing s ≡ false
  IsSingleChoice (some a, s) = is_exit a ≡ is_closing s

  -- Only events, and a position not closing.
  abbrev pub IsQuiet : Evaluation D → Type 0
  IsQuiet (actions, s) =
      (count_if is_order actions ≡ 0) × (any is_exit actions ≡ false) × (is_closing s ≡ false)

  unfoldable pub IsManaging : Managing D → Type 0
  IsManaging (actions, false, s) = IsSingle (actions, s)
  IsManaging (actions, true, s) = IsQuiet (actions, s)

  pub if-IsSingle :
      (b : Bool) (e f : Evaluation D) → IsSingle e → IsSingle f → IsSingle (if b then e else f)
  if-IsSingle true e f h k = h
  if-IsSingle false e f h k = k

  pub if-IsManaging :
      (b : Bool) (e f : Managing D) → IsManaging e → IsManaging f → IsManaging (if b then e else f)
  if-IsManaging true e f h k = h
  if-IsManaging false e f h k = k

  after-IsSingle :
      (events : List (PositionAction D)) (e : Evaluation D)
      → count_if is_order events ≡ 0
      → any is_exit events ≡ false
      → IsSingle e
      → IsSingle (after events e)
  unfolding IsManaging IsSingle
  after-IsSingle [] e q x h = h
  after-IsSingle (a ∷ events) e q x h = ground (arith, after-IsSingle events e)

module _ {D : Type 0} ⦃d : Number D⦄ where
  ratchet_step-IsSingle :
      (c : PositionSection D) (max_r : D) (bar : Bar D) (s : Managed D)
      → is_closing s ≡ false
      → IsSingle (ratchet_step c max_r bar s)
  unfolding ratchet_step IsManaging IsSingle
  ratchet_step-IsSingle c max_r bar s h = ground arith

  stagnation_action-IsSingleChoice :
      (c : StagnationExitSection D) (max_r : D) (s : Managed D)
      → is_closing s ≡ false
      → IsSingleChoice (stagnation_action c max_r s)
  unfolding stagnation_action leave stagnation_delay_event IsManaging IsSingle
  stagnation_action-IsSingleChoice c max_r s h = ground arith

  invalidated-IsSingleChoice :
      (c : StagnationExitSection D) (r : D) (bar : Bar D) (s : Managed D)
      → is_closing s ≡ false
      → IsSingleChoice (invalidated c r bar s)
  unfolding invalidated scout_invalid_confirmed IsManaging IsSingle
  invalidated-IsSingleChoice c r bar s h = ground arith

  scenario_action-IsSingleChoice :
      (c : StagnationExitSection D) (r : D) (bar : Bar D) (s : Managed D)
      → is_closing s ≡ false
      → IsSingleChoice (scenario_action c r bar s)
  unfolding scenario_action leave IsManaging IsSingle
  scenario_action-IsSingleChoice c r bar s h = ground (
    arith,
    is_scenario_invalid-same true bar s,
    invalidated-IsSingleChoice c r bar (is_scenario_invalid true bar s).1,
  )

  or_ratchet-IsSingle :
      (c : PositionSection D) (max_r : D) (bar : Bar D) (choice : Choice D)
      → IsSingleChoice choice
      → IsSingle (or_ratchet c max_r bar choice)
  unfolding IsManaging IsSingle
  or_ratchet-IsSingle c max_r bar (none, s) h =
      ground (arith, ratchet_step-IsSingle c max_r bar s h)
  or_ratchet-IsSingle c max_r bar (some a, s) h = ground arith

  or_stagnation-IsSingle :
      (c : PositionSection D) (max_r : D) (bar : Bar D) (choice : Choice D)
      → IsSingleChoice choice
      → IsSingle (or_stagnation c max_r bar choice)
  unfolding stagnation_step IsManaging IsSingle
  or_stagnation-IsSingle c max_r bar (none, s) h =
      or_ratchet-IsSingle c max_r bar _
        (stagnation_action-IsSingleChoice c.stagnation_exit max_r s h)
  or_stagnation-IsSingle c max_r bar (some a, s) h = ground arith

  runner_scenario-IsSingle :
      (c : PositionSection D) (max_r : D) (bar : Bar D) (e : Bool × Managed D)
      → is_closing e.1 ≡ false
      → IsSingle (runner_scenario c max_r bar e)
  unfolding leave IsManaging IsSingle
  runner_scenario-IsSingle c max_r bar (true, s) h = ground arith
  runner_scenario-IsSingle c max_r bar (false, s) h =
      ground (arith, ratchet_step-IsSingle c max_r bar s h)

  scenario_step-IsSingle :
      (c : PositionSection D) (r max_r : D) (bar : Bar D) (s : Managed D)
      → is_closing s ≡ false
      → IsSingle (scenario_step c r max_r bar s)
  unfolding scenario_step IsManaging IsSingle
  scenario_step-IsSingle c r max_r bar s h =
      if-IsSingle s.position.base.runner_mode_active _ _
        (runner_scenario-IsSingle c max_r bar (is_scenario_invalid false bar s)
          (ap closing_of (is_scenario_invalid-same false bar s) ∙ h))
        (or_stagnation-IsSingle c max_r bar _
          (scenario_action-IsSingleChoice c.stagnation_exit r bar s h))

  trailing_step-IsSingle :
      (c : PositionSection D) (r max_r : D) (bar : Bar D) (s : Managed D)
      → is_closing s ≡ false
      → IsSingle (trailing_step c r max_r bar s)
  unfolding trailing_step leave IsManaging IsSingle
  trailing_step-IsSingle c r max_r bar s h =
      let p = record s.position.base { trailing_active = true } in
      ground (
        arith,
        scenario_step-IsSingle c r max_r bar s h,
        scenario_step-IsSingle c r max_r bar (set_base p s) h,
      )

  partial_step-IsSingle :
      (c : PositionSection D) (r max_r : D) (bar : Bar D) (s : Managed D)
      → is_closing s ≡ false
      → IsSingle (partial_step c r max_r bar s)
  unfolding partial_step IsManaging IsSingle
  partial_step-IsSingle c r max_r bar s h = ground (arith, trailing_step-IsSingle c r max_r bar s h)

  settle-IsQuiet :
      (c : RunnerModeSection D) (p : Tracked D) (found : Strength × Option Weakness)
      (waits : Bool × Memory D)
      → closing_of p ≡ false
      → IsQuiet (settle c p found waits)
  unfolding IsManaging IsSingle
  settle-IsQuiet c p found (true, m) h = ground arith
  settle-IsQuiet c p found (false, m) h = ground arith

  runner-IsQuiet :
      (c : RunnerModeSection D) (max_r : D) (bar : Bar D) (s : Managed D)
      → is_closing s ≡ false
      → IsQuiet (runner_state_actions c max_r bar s)
  unfolding runner_state_actions IsManaging IsSingle
  runner-IsQuiet c max_r bar s h = elim (Bool-cases s.position.base.runner_mode_active) [
    | inl on ↦
        let (found, m) = trend_strength c s.position.base.side max_r bar s.memory in
        simp on (
          settle-IsQuiet c s.position found
            (weak_downgrade_pending c s.position.runner_trend_strength found bar.candle_1m m) h)
    | inr off ↦ simp off (refl, refl, h)
  ]

  pub general_step-IsSingle :
      (c : PositionSection D) (r max_r : D) (bar : Bar D) (m : Managing D)
      → IsManaging m
      → IsSingle (general_step c r max_r bar m)
  unfolding general_step IsManaging IsSingle
  general_step-IsSingle c r max_r bar (before, false, s) h = h
  general_step-IsSingle c r max_r bar (before, true, s) h =
      let (events, t) = runner_state_actions c.runner_mode max_r bar s in
      let quiet = runner-IsQuiet c.runner_mode max_r bar s h.2 in
      let rest = partial_step c r max_r bar t in
      after-IsSingle before (after events rest) h.0 h.1
        (after-IsSingle events rest quiet.0 quiet.1 (partial_step-IsSingle c r max_r bar t quiet.2))

  pub scout_stagnation-IsManaging :
      (c : StagnationExitSection D) (max_r : D) (s : Managed D)
      → is_closing s ≡ false
      → IsManaging (Scout.scout_stagnation c max_r s)
  unfolding Scout.scout_stagnation IsManaging IsSingle
  scout_stagnation-IsManaging c max_r s h =
      ground (arith, stagnation_action-IsSingleChoice c max_r s h)
