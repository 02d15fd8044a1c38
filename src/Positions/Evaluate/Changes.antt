-- ===== src/Positions/Evaluate/Changes.antt =====
-- The single changes that `evaluate` makes to a position, and where its steps make them.
use quantbot.Prelude.{
  ◌≡◌, refl, ◌⊎◌, inl, inr, Bool-cases, ℕ, ◌+◌, Bool, true, ltb, Option, none, some, arith,
}
use quantbot.Core.Enums.{
  closing, ScoutState, scout_pending, ExitReason, stagnation, scenario_invalid,
}
use quantbot.Number.{Number}
use quantbot.Positions.Trailing.{ratchet, update_allowed, record_update}
use quantbot.Positions.Managed.{
  PositionSection, StagnationExitSection, ScoutManagementSection, Strength, BarCandle, Bar, Tracked,
  Managed,
}
use quantbot.Positions.Runner.{set_strength}
use quantbot.Positions.Stagnation.{leave, stagnation_delay_event, stagnation_action}
use quantbot.Positions.Scenario.{
  break_level_invalid, is_scenario_invalid, scout_invalid_confirmed, invalidated, scenario_action,
}
use quantbot.Positions.Scout.Signs.{weakness}
use quantbot.Positions.Evaluate.{move_stop, observed}

module _ {D : Type 0} where
  abbrev pub left : ExitReason → Tracked D → Tracked D
  left reason p = record p { base = record p.base { status = closing; exit_reason = some reason } }

  -- A change of the scout's state.
  abbrev pub scouted : ScoutState → Option ℕ → ℕ → Tracked D → Tracked D
  scouted state started count p = record p {
    scout_state = state;
    warning_started_at_bar = started;
    defensive_reduction_count = count;
  }

module _ {D : Type 0} ⦃d : Number D⦄ where
  -- Every change that an evaluation makes to a position keeps the property.
  pub record IsStable (c : PositionSection D) (P : Tracked D → Type 0) : Type 0 where
    pub leaves : (reason : ExitReason) (p : Tracked D) → P p → P (left reason p)
    pub observes : (bar : Bar D) (s : Managed D) → P s.position → P (observed bar s).position
    pub trails :
        (p : Tracked D) → P p → P (record p { base = record p.base { trailing_active = true } })
    pub takes :
        (p : Tracked D) → P p → P (record p { base = record p.base { partial_tp_done = true } })
    pub strengthens :
        (strength : Strength) (p : Tracked D) → P p → P (set_strength c.runner_mode strength p)
    pub ratchets :
        (t u : D) (now : ℕ) (p : Tracked D)
        → ratchet p.base t ≡ some u
        → P p
        → P (record p { base = record_update u now (record p.base { stop_loss_price = some u }) })
    pub scouts :
        (state : ScoutState) (started : Option ℕ) (p : Tracked D)
        → P p
        → P (scouted state started p.defensive_reduction_count p)
    pub reduces :
        (p : Tracked D)
        → ltb p.defensive_reduction_count c.scout_management.max_defensive_reductions ≡ true
        → P p
        → P (scouted scout_pending none (p.defensive_reduction_count + 1) p)

  pub stagnation_action-left :
      (c : StagnationExitSection D) (max_r : D) (s : Managed D)
      → ((stagnation_action c max_r s).1.position ≡ s.position)
        ⊎ ((stagnation_action c max_r s).1.position ≡ left stagnation s.position)
  unfolding stagnation_action leave stagnation_delay_event
  stagnation_action-left c max_r s = ground arith

  pub is_scenario_invalid-same :
      (b : Bool) (bar : Bar D) (s : Managed D)
      → (is_scenario_invalid b bar s).1.position ≡ s.position
  unfolding is_scenario_invalid break_level_invalid
  is_scenario_invalid-same b bar s = ground arith

  invalidated-same :
      (c : StagnationExitSection D) (r : D) (bar : Bar D) (s : Managed D)
      → (invalidated c r bar s).1.position ≡ s.position
  unfolding invalidated scout_invalid_confirmed
  invalidated-same c r bar s = ground arith

  pub scenario_action-left :
      (c : StagnationExitSection D) (r : D) (bar : Bar D) (s : Managed D)
      → ((scenario_action c r bar s).1.position ≡ s.position)
        ⊎ ((scenario_action c r bar s).1.position ≡ left scenario_invalid s.position)
  unfolding scenario_action leave
  scenario_action-left c r bar s = ground (
    arith,
    is_scenario_invalid-same true bar s,
    invalidated-same c r bar (is_scenario_invalid true bar s).1,
  )

  pub weakness-same :
      (c : ScoutManagementSection D) (candle : BarCandle D) (bar : Bar D) (s : Managed D)
      → (weakness c candle bar s).1.position ≡ s.position
  unfolding weakness
  weakness-same c candle bar s = ground arith

  pub move_stop-moved :
      (c : PositionSection D) (bar : Bar D) (s : Managed D) (stop : Option D)
      → ((move_stop c bar s stop).1.position ≡ s.position)
        ⊎ ((u : D) × (stop ≡ some u)
            × ((move_stop c bar s stop).1.position ≡ record s.position {
              base = record_update u bar.now (record s.position.base { stop_loss_price = some u });
            }))
  move_stop-moved c bar s none = inl refl
  move_stop-moved c bar s (some u) =
      elim (Bool-cases (update_allowed c.trailing s.position.base u bar.atr bar.now)) [
        | inl allowed ↦ inr (u, refl, simp allowed refl)
        | inr refused ↦ inl (simp refused refl)
      ]
