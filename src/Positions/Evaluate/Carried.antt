-- ===== src/Positions/Evaluate/Carried.antt =====
-- What the manager carries from one position of a symbol to the next.
use quantbot.Prelude.{
  ◌≡◌, refl, inl, inr, Bool-cases, ◌-◌, ◌*◌, Bool, true, false, ◌&&◌, leb, if◌then◌else◌, none,
  some, List, [], ◌∷◌, arith,
}
use quantbot.Core.Enums.{active, bot}
use quantbot.Number.{Number, ◌≼◌, ◌≺◌}
use quantbot.Number.Laws.{IsOrdered, le-max_of_left, le-max_of_right}
use quantbot.Positions.Trailing.{r_multiple}
use quantbot.Positions.Managed.{
  PositionSection, StagnationExitSection, RunnerModeSection, Bar, Tracked, Managed,
  advance_bar_counter,
}
use quantbot.Positions.Runner.{runner_state_actions}
use quantbot.Positions.Stagnation.{leave, Choice, stagnation_delay_event, stagnation_action}
use quantbot.Positions.Scenario.{
  is_scout, break_level_invalid, is_scenario_invalid, scout_invalid_confirmed, invalidated,
  scenario_action,
}
use quantbot.Positions.Scout.{scout_management_action}
use quantbot.Runtime.{is_bot_managed}
use quantbot.Positions.Evaluate.Spent.{IsSpent}
use quantbot.Positions.Evaluate.Spent.Whole.{managed_step-IsSpent}
use quantbot.Positions.Evaluate.Bars.{applied, evaluate_all}
use quantbot.Positions.Evaluate.{
  is_status_active, Evaluation, set_base, max_r_of, observed, or_ratchet, or_stagnation,
  ratchet_step, stagnation_step, scenario_step, trailing_step, partial_step, general_step,
  managed_step, evaluate,
}

module _ {D : Type 0} where
  -- A trailing position.
  abbrev Trails : Managed D → Type 0
  Trails s = s.position.base.trailing_active ≡ true

  if-Trails :
      (b : Bool) (e f : Evaluation D) → Trails e.1 → Trails f.1 → Trails (if b then e else f).1
  if-Trails true e f h k = h
  if-Trails false e f h k = k

module _ {D : Type 0} ⦃d : Number D⦄ where
  ratchet_step-Trails :
      (c : PositionSection D) (max_r : D) (bar : Bar D) (s : Managed D)
      → Trails s
      → Trails (ratchet_step c max_r bar s).1
  unfolding ratchet_step
  ratchet_step-Trails c max_r bar s h = ground arith

  stagnation_action-Trails :
      (c : StagnationExitSection D) (max_r : D) (s : Managed D)
      → Trails s
      → Trails (stagnation_action c max_r s).1
  unfolding stagnation_action leave stagnation_delay_event
  stagnation_action-Trails c max_r s h = ground arith

  is_scenario_invalid-Trails :
      (b : Bool) (bar : Bar D) (s : Managed D) → Trails s → Trails (is_scenario_invalid b bar s).1
  unfolding is_scenario_invalid break_level_invalid
  is_scenario_invalid-Trails b bar s h = ground arith

  invalidated-Trails :
      (c : StagnationExitSection D) (r : D) (bar : Bar D) (s : Managed D)
      → Trails s
      → Trails (invalidated c r bar s).1
  unfolding invalidated scout_invalid_confirmed
  invalidated-Trails c r bar s h = ground arith

  scenario_action-Trails :
      (c : StagnationExitSection D) (r : D) (bar : Bar D) (s : Managed D)
      → Trails s
      → Trails (scenario_action c r bar s).1
  unfolding scenario_action leave
  scenario_action-Trails c r bar s h =
      let k = is_scenario_invalid-Trails true bar s h in
      ground (arith, k, invalidated-Trails c r bar (is_scenario_invalid true bar s).1 k)

  or_ratchet-Trails :
      (c : PositionSection D) (max_r : D) (bar : Bar D) (choice : Choice D)
      → Trails choice.1
      → Trails (or_ratchet c max_r bar choice).1
  or_ratchet-Trails c max_r bar (none, s) h = ground (arith, ratchet_step-Trails c max_r bar s h)
  or_ratchet-Trails c max_r bar (some a, s) h = h

  or_stagnation-Trails :
      (c : PositionSection D) (max_r : D) (bar : Bar D) (choice : Choice D)
      → Trails choice.1
      → Trails (or_stagnation c max_r bar choice).1
  unfolding stagnation_step
  or_stagnation-Trails c max_r bar (none, s) h =
      or_ratchet-Trails c max_r bar _ (stagnation_action-Trails c.stagnation_exit max_r s h)
  or_stagnation-Trails c max_r bar (some a, s) h = h

  scenario_step-Trails :
      (c : PositionSection D) (r max_r : D) (bar : Bar D) (s : Managed D)
      → s.position.base.runner_mode_active ≡ false
      → Trails s
      → Trails (scenario_step c r max_r bar s).1
  unfolding scenario_step
  scenario_step-Trails c r max_r bar s off h =
      simp off
        (or_stagnation-Trails c max_r bar _ (scenario_action-Trails c.stagnation_exit r bar s h))

  trailing_step-Trails :
      (c : PositionSection D) (r max_r : D) (bar : Bar D) (s : Managed D)
      → s.position.base.runner_mode_active ≡ false
      → c.trailing_start_r ≼ max_r
      → Trails (trailing_step c r max_r bar s).1
  unfolding trailing_step leave
  trailing_step-Trails c r max_r bar s off reached =
      let p = record s.position.base { trailing_active = true } in
      ground (arith, scenario_step-Trails c r max_r bar (set_base p s) off refl)

  scout_plain :
      (c : PositionSection D) (max_r : D) (bar : Bar D) (s : Managed D)
      → is_scout s.position.entry_mode ≡ false
      → scout_management_action c max_r bar s ≡ ([], true, s)
  unfolding scout_management_action
  scout_plain c max_r bar s h = ground arith

  runner_off :
      (c : RunnerModeSection D) (max_r : D) (bar : Bar D) (s : Managed D)
      → s.position.base.runner_mode_active ≡ false
      → runner_state_actions c max_r bar s ≡ ([], s)
  unfolding runner_state_actions
  runner_off c max_r bar s h = simp h refl

  general_step-Trails :
      (c : PositionSection D) (r max_r : D) (bar : Bar D) (s : Managed D)
      → s.position.base.runner_mode_active ≡ false
      → r ≺ c.partial_r
      → c.trailing_start_r ≼ max_r
      → Trails (general_step c r max_r bar ([], true, s)).1
  unfolding general_step partial_step
  general_step-Trails c r max_r bar s off small reached =
      rw (runner_off c.runner_mode max_r bar s off)
        (ground (arith, trailing_step-Trails c r max_r bar s off reached))

  evaluated_trails :
      (c : PositionSection D) (bar : Bar D) (s : Managed D)
      → s.position.base.source ≡ bot
      → s.position.base.status ≡ active
      → is_scout s.position.entry_mode ≡ false
      → s.position.base.runner_mode_active ≡ false
      → leb (c.max_holding_minutes * 60) (bar.now - s.position.opened_at) ≡ false
      → r_multiple s.position.base bar.price ≺ c.partial_r
      → c.trailing_start_r ≼ max_r_of bar s
      → (evaluate c bar s).1.position.base.trailing_active ≡ true
  unfolding evaluate managed_step
  evaluated_trails c bar s ours on plain off young small reached =
      let t = observed bar s in
      let r = r_multiple s.position.base bar.price in
      let max_r = max_r_of bar s in
      let plain' : is_scout t.position.entry_mode ≡ false =
        unfold observed advance_bar_counter in ground arith in
      let off' : t.position.base.runner_mode_active ≡ false =
        unfold observed advance_bar_counter in ground arith in
      simp (ours, on, young, scout_plain c max_r bar t plain')
        (general_step-Trails c r max_r bar t off' small reached)

  -- The largest multiple in the memory has reached a number.
  abbrev Reached : D → Managed D → Type 0
  Reached least s = (m : D) × (s.memory.max_r ≡ some m) × (least ≼ m)

  module _ (laws : IsOrdered D) where
    max_r_of-le :
        (bar : Bar D) (s : Managed D) (least : D) → Reached least s → least ≼ max_r_of bar s
    unfolding max_r_of
    max_r_of-le bar s least (m, e, h) =
        simp e
          (laws.le_trans least m _ h (le-max_of_left laws m (r_multiple s.position.base bar.price)))

    max_r_of-le_current :
        (bar : Bar D) (s : Managed D) (least : D)
        → least ≼ r_multiple s.position.base bar.price
        → least ≼ max_r_of bar s
    unfolding max_r_of
    max_r_of-le_current bar s least h =
        laws.le_trans least (r_multiple s.position.base bar.price) _ h (le-max_of_right laws _ _)

    managed_step-Reached :
        (c : PositionSection D) (bar : Bar D) (s : Managed D) (least : D)
        → least ≼ max_r_of bar s
        → Reached least (managed_step c bar s).1
    unfolding IsSpent
    managed_step-Reached c bar s least h = (max_r_of bar s, (managed_step-IsSpent c bar s).0, h)

    evaluate-Reached :
        (c : PositionSection D) (bar : Bar D) (s : Managed D) (least : D)
        → Reached least s
        → Reached least (evaluate c bar s).1
    unfolding evaluate
    evaluate-Reached c bar s least h =
        let managed =
          is_bot_managed s.position.base.source && is_status_active s.position.base.status in
        elim (Bool-cases managed) [
          | inl on ↦ simp on (managed_step-Reached c bar s least (max_r_of-le bar s least h))
          | inr off ↦ simp off h
        ]

    all-Reached :
        (c : PositionSection D) (bars : List (Bar D)) (s : Managed D) (least : D)
        → Reached least s
        → Reached least (evaluate_all c bars s).1
    unfolding evaluate_all
    all-Reached c [] s least h = h
    all-Reached c (bar ∷ bars) s least h =
        all-Reached c bars (applied (evaluate c bar s)) least (evaluate-Reached c bar s least h)

    first-Reached :
        (c : PositionSection D) (bar : Bar D) (s : Managed D) (least : D)
        → s.position.base.source ≡ bot
        → s.position.base.status ≡ active
        → least ≼ r_multiple s.position.base bar.price
        → Reached least (evaluate c bar s).1
    unfolding evaluate
    first-Reached c bar s least ours on h =
        simp (ours, on) (managed_step-Reached c bar s least (max_r_of-le_current bar s least h))

    -- The largest multiple that the manager keeps for a symbol outlives the position: let one
    -- evaluation see an active position of the bot at the multiple at which the trailing stop
    -- starts, and any more evaluations of it follow, its exit included. Then a new active position
    -- of the bot on the symbol, without a scout's management and outside the runner mode, trails
    -- after its first evaluation, however little it has gained itself, unless that evaluation
    -- comes after its longest holding time or reaches its partial take-profit. Over ordered numbers.
    pub earlier_position_starts_trailing :
        (c : PositionSection D) (earlier : Managed D) (bar : Bar D) (bars : List (Bar D))
        (position : Tracked D) (first : Bar D)
        → earlier.position.base.source ≡ bot
        → earlier.position.base.status ≡ active
        → c.trailing_start_r ≼ r_multiple earlier.position.base bar.price
        → position.base.source ≡ bot
        → position.base.status ≡ active
        → is_scout position.entry_mode ≡ false
        → position.base.runner_mode_active ≡ false
        → leb (c.max_holding_minutes * 60) (first.now - position.opened_at) ≡ false
        → r_multiple position.base first.price ≺ c.partial_r
        → let memory = (evaluate_all c (bar ∷ bars) earlier).1.memory in
          let s : Managed D = record { position = position; memory = memory } in
          (evaluate c first s).1.position.base.trailing_active ≡ true
    unfolding evaluate_all
    earlier_position_starts_trailing c earlier bar bars position first old_ours old_on rose ours on
          plain off young small =
        let kept =
          all-Reached c bars (applied (evaluate c bar earlier)) c.trailing_start_r
            (first-Reached c bar earlier c.trailing_start_r old_ours old_on rose) in
        let memory = (evaluate_all c bars (applied (evaluate c bar earlier))).1.memory in
        let s : Managed D = record { position = position; memory = memory } in
        evaluated_trails c first s ours on plain off young small
          (max_r_of-le first s c.trailing_start_r kept)
