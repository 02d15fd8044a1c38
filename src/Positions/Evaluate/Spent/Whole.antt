-- ===== src/Positions/Evaluate/Spent/Whole.antt =====
-- packages/position/position_manager.py: the management of scouts counts what it reduces, and a whole
-- evaluation of a managed position too.
use quantbot.Prelude.{◌≡◌, refl, ℕ, false, Option, none, some, [], ◌∷◌, arith}
use quantbot.Core.Enums.{
  ScoutState, unscouted, scout_pending, scout_warning, scout_confirmed, active_trend, ExitReason,
  scout_defensive_reduce, scout_catastrophic_reduce, max_holding_time,
}
use quantbot.Number.{Number}
use quantbot.Positions.Managed.{
  EventType, scout_warning_started, scout_warning_recovered, scout_event, PositionSection,
  StagnationExitSection, ScoutManagementSection, BarCandle, Bar, Managed, advance_bar_counter,
}
use quantbot.Positions.Trailing.{r_multiple}
use quantbot.Positions.Stagnation.{leave, Choice}
use quantbot.Positions.Scout.{
  start_warning, unconfirmed, in_state, confirmed, Managing, end_warning, scout_management_action,
  watched, warned, after_grace, reduce_scout, scout_stagnation, announce,
}
use quantbot.Positions.Scout
use quantbot.Positions.Scout.Signs.{weakness}
use quantbot.Positions.Evaluate.{last_action, max_r_of, observed, managed_step}
use quantbot.Positions.Evaluate.Spent.{
  general_step-IsSpent, stagnation_action-IsSpentChoice, Base, IsSpentChoice, IsSpentManaging,
  if-IsSpentManaging, IsSpent, if-IsSpent,
}

module _ {D : Type 0} ⦃d : Number D⦄ (m : Option D) (n : ℕ) where
  reduce_scout-IsSpent :
      (c : ScoutManagementSection D) (reason : ExitReason) (s : Managed D)
      → Base m n s
      → IsSpentManaging m n (reduce_scout c reason s)
  unfolding reduce_scout IsSpentManaging IsSpent
  reduce_scout-IsSpent c reason s h = ground arith

  noted-IsSpent :
      (e : EventType) (s : Managed D)
      → Base m n s
      → IsSpentManaging m n (scout_event e ∷ [], false, s)
  unfolding IsSpentManaging IsSpent
  noted-IsSpent e s h = ground arith

  silent-IsSpent : (s : Managed D) → Base m n s → IsSpentManaging m n ([], false, s)
  unfolding IsSpentManaging IsSpent
  silent-IsSpent s h = ground arith

  announce-IsSpent :
      (choice : Choice D) → IsSpentChoice m n choice → IsSpentManaging m n (announce choice)
  unfolding IsSpentManaging IsSpent
  announce-IsSpent (none, s) h = ground arith
  announce-IsSpent (some a, s) h = ground arith

  stagnates-IsSpent :
      (c : StagnationExitSection D) (max_r : D) (s : Managed D)
      → Base m n s
      → IsSpentManaging m n (Scout.scout_stagnation c max_r s)
  unfolding Scout.scout_stagnation
  stagnates-IsSpent c max_r s h =
      announce-IsSpent _ (stagnation_action-IsSpentChoice m n c max_r s h)

  confirmed-IsSpent :
      (c : ScoutManagementSection D) (s : Managed D)
      → Base m n s
      → IsSpentManaging m n (confirmed c s)
  unfolding IsSpentManaging IsSpent
  confirmed-IsSpent c s h = ground arith

  weakness-Base :
      (c : ScoutManagementSection D) (candle : BarCandle D) (bar : Bar D) (s : Managed D)
      → Base m n s
      → Base m n (weakness c candle bar s).1
  unfolding weakness
  weakness-Base c candle bar s h = ground arith

  module _ (c : PositionSection D) (candle : BarCandle D) (bar : Bar D) (max_r : D) where
    after_grace-IsSpent :
        (s : Managed D) → Base m n s → IsSpentManaging m n (after_grace c candle bar max_r s)
    unfolding after_grace
    after_grace-IsSpent s h =
        let t = (weakness c.scout_management candle bar s).1 in
        let k = weakness-Base c.scout_management candle bar s h in
        if-IsSpentManaging m n _ _ _ (stagnates-IsSpent c.stagnation_exit max_r s h) (
          if-IsSpentManaging m n _ _ _
            (reduce_scout-IsSpent c.scout_management scout_defensive_reduce t k)
            (stagnates-IsSpent c.stagnation_exit max_r t k))

    pending-IsSpent :
        (s : Managed D) → Base m n s → IsSpentManaging m n (Scout.pending c candle bar max_r s)
    unfolding Scout.pending
    pending-IsSpent s h =
        if-IsSpentManaging m n _ _ _ (noted-IsSpent scout_warning_started (start_warning s) h)
          (after_grace-IsSpent s h)

    warned-IsSpent :
        (s : Managed D) → Base m n s → IsSpentManaging m n (warned c candle bar max_r s)
    unfolding warned
    warned-IsSpent s h =
        if-IsSpentManaging m n _ _ _
          (noted-IsSpent scout_warning_recovered (end_warning scout_pending s) h)
          (if-IsSpentManaging m n _ _ _ (silent-IsSpent s h) (
            if-IsSpentManaging m n _ _ _
              (reduce_scout-IsSpent c.scout_management scout_defensive_reduce s h)
              (pending-IsSpent (end_warning scout_pending s) h)))

    unconfirmed-IsSpent :
        (s : Managed D) (state : ScoutState)
        → Base m n s
        → IsSpentManaging m n (unconfirmed c candle bar max_r s state)
    unconfirmed-IsSpent s scout_warning h = warned-IsSpent s h
    unconfirmed-IsSpent s scout_pending h = pending-IsSpent s h
    unconfirmed-IsSpent s scout_confirmed h = pending-IsSpent s h
    unconfirmed-IsSpent s unscouted h = pending-IsSpent s h
    unconfirmed-IsSpent s active_trend h = pending-IsSpent s h

    watched-IsSpent :
        (s : Managed D) → Base m n s → IsSpentManaging m n (watched c candle bar max_r s)
    unfolding watched
    watched-IsSpent s h = if-IsSpentManaging m n _ _ _ (confirmed-IsSpent c.scout_management s h) (
        if-IsSpentManaging m n _ _ _
          (reduce_scout-IsSpent c.scout_management scout_catastrophic_reduce s h)
          (unconfirmed-IsSpent s s.position.scout_state h))

    in_state-IsSpent :
        (s : Managed D) (state : ScoutState)
        → Base m n s
        → IsSpentManaging m n (in_state c candle bar max_r s state)
    unfolding IsSpentManaging IsSpent
    in_state-IsSpent s scout_warning h = watched-IsSpent s h
    in_state-IsSpent s scout_pending h = watched-IsSpent s h
    in_state-IsSpent s scout_confirmed h = ground arith
    in_state-IsSpent s unscouted h = ground arith
    in_state-IsSpent s active_trend h = ground arith

  scout-IsSpent :
      (c : PositionSection D) (max_r : D) (bar : Bar D) (s : Managed D)
      → Base m n s
      → IsSpentManaging m n (scout_management_action c max_r bar s)
  unfolding scout_management_action IsSpentManaging IsSpent
  scout-IsSpent c max_r bar s h =
      elim bar.candle_1m
          as (λ x.
            bar.candle_1m ≡ x → IsSpentManaging m n (scout_management_action c max_r bar s)) [
              | none ↦ λ e. ground arith
              | some candle ↦ λ e.
                  ground (arith, in_state-IsSpent c candle bar max_r s s.position.scout_state h)
            ]
        refl

module _ {D : Type 0} ⦃d : Number D⦄ where
  observed-Base :
      (bar : Bar D) (s : Managed D)
      → Base (some (max_r_of bar s)) s.position.defensive_reduction_count (observed bar s)
  unfolding observed advance_bar_counter
  observed-Base bar s = ground arith

  leave-IsSpent :
      (m : Option D) (n : ℕ) (reason : ExitReason) (s : Managed D)
      → Base m n s
      → IsSpent m n (last_action (leave reason s))
  unfolding IsSpent leave
  leave-IsSpent m n reason s h = ground arith

  -- An evaluation that manages the position keeps the largest multiple with the current one, and
  -- counts every reduction of a scout that it asks for.
  pub managed_step-IsSpent :
      (c : PositionSection D) (bar : Bar D) (s : Managed D)
      → IsSpent (some (max_r_of bar s)) s.position.defensive_reduction_count (managed_step c bar s)
  unfolding managed_step
  managed_step-IsSpent c bar s =
      let t = observed bar s in
      let m = some (max_r_of bar s) in
      let n = s.position.defensive_reduction_count in
      let r = r_multiple s.position.base bar.price in
      let max_r = max_r_of bar s in
      let h = observed-Base bar s in
      if-IsSpent m n _ _ _ (leave-IsSpent m n max_holding_time t h) (
        general_step-IsSpent m n c r max_r bar (scout_management_action c max_r bar t)
          (scout-IsSpent m n c max_r bar t h))
