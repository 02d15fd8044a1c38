-- ===== src/Positions/Evaluate/Settled/Whole.antt =====
-- packages/position/position_manager.py: the management of scouts asks for no stop, and a whole
-- evaluation of a managed position for none but its own.
use quantbot.Prelude.{ap, ◌∙◌, ◌≡◌, refl, false, none, some, [], ◌∷◌, arith}
use quantbot.Core.Enums.{
  ScoutState, unscouted, scout_pending, scout_warning, scout_confirmed, active_trend, ExitReason,
  scout_defensive_reduce, scout_catastrophic_reduce, max_holding_time,
}
use quantbot.Number.{Number}
use quantbot.Positions.Managed.{
  EventType, scout_warning_started, scout_warning_recovered, scout_event, PositionSection,
  StagnationExitSection, ScoutManagementSection, BarCandle, Bar, Managed, advance_bar_counter,
}
use quantbot.Positions.Trailing.{r_multiple}
use quantbot.Positions.Stagnation.{leave, Choice, stagnation_delay_event, stagnation_action}
use quantbot.Positions.Scout.{
  start_warning, unconfirmed, in_state, confirmed, Managing, end_warning, scout_management_action,
  watched, warned, after_grace, reduce_scout, scout_stagnation, announce,
}
use quantbot.Positions.Scout
use quantbot.Positions.Scout.Signs.{weakness}
use quantbot.Positions.Evaluate.{last_action, max_r_of, observed, managed_step}
use quantbot.Positions.Evaluate.Changes.{weakness-same}
use quantbot.Positions.Evaluate.Settled.{
  IsSettled, IsSettledChoice, IsSettledManaging, if-IsSettled, if-IsSettledManaging,
  stagnation_action-IsSettledChoice, general_step-IsSettled, IsPlain, retest_of,
}

module _ {D : Type 0} ⦃d : Number D⦄ where
  reduce_scout-quiet :
      (c : ScoutManagementSection D) (reason : ExitReason) (s : Managed D)
      → IsPlain s
      → IsSettledManaging (reduce_scout c reason s)
  unfolding reduce_scout IsSettledManaging
  reduce_scout-quiet c reason s h = ground arith

  noted-quiet :
      (e : EventType) (s : Managed D) → IsPlain s → IsSettledManaging (scout_event e ∷ [], false, s)
  unfolding IsSettledManaging
  noted-quiet e s h = ground arith

  silent-quiet : (s : Managed D) → IsPlain s → IsSettledManaging ([], false, s)
  unfolding IsSettledManaging
  silent-quiet s h = ground arith

  stagnation_action-IsPlain :
      (c : StagnationExitSection D) (max_r : D) (s : Managed D)
      → IsPlain s
      → IsPlain (stagnation_action c max_r s).1
  unfolding stagnation_action leave stagnation_delay_event
  stagnation_action-IsPlain c max_r s h = ground arith

  announce-quiet :
      (choice : Choice D)
      → IsSettledChoice choice
      → IsPlain choice.1
      → IsSettledManaging (announce choice)
  unfolding IsSettledManaging
  announce-quiet (none, s) h k = ground arith
  announce-quiet (some a, s) h k = ground arith

  stagnates-quiet :
      (c : StagnationExitSection D) (max_r : D) (s : Managed D)
      → IsPlain s
      → IsSettledManaging (Scout.scout_stagnation c max_r s)
  unfolding Scout.scout_stagnation
  stagnates-quiet c max_r s h =
      announce-quiet _ (stagnation_action-IsSettledChoice c max_r s h)
        (stagnation_action-IsPlain c max_r s h)

  confirmed-quiet :
      (c : ScoutManagementSection D) (s : Managed D) → IsPlain s → IsSettledManaging (confirmed c s)
  unfolding IsSettledManaging
  confirmed-quiet c s h = ground arith

  module _ (c : PositionSection D) (candle : BarCandle D) (bar : Bar D) (max_r : D) where
    after_grace-quiet :
        (s : Managed D) → IsPlain s → IsSettledManaging (after_grace c candle bar max_r s)
    unfolding after_grace
    after_grace-quiet s h =
        let t = (weakness c.scout_management candle bar s).1 in
        let k : IsPlain t = ap retest_of (weakness-same c.scout_management candle bar s) ∙ h in
        if-IsSettledManaging _ _ _ (stagnates-quiet c.stagnation_exit max_r s h) (
          if-IsSettledManaging _ _ _
            (reduce_scout-quiet c.scout_management scout_defensive_reduce t k)
            (stagnates-quiet c.stagnation_exit max_r t k))

    pending-quiet :
        (s : Managed D) → IsPlain s → IsSettledManaging (Scout.pending c candle bar max_r s)
    unfolding Scout.pending
    pending-quiet s h =
        if-IsSettledManaging _ _ _ (noted-quiet scout_warning_started (start_warning s) h)
          (after_grace-quiet s h)

    warned-quiet : (s : Managed D) → IsPlain s → IsSettledManaging (warned c candle bar max_r s)
    unfolding warned
    warned-quiet s h =
        if-IsSettledManaging _ _ _
          (noted-quiet scout_warning_recovered (end_warning scout_pending s) h)
          (if-IsSettledManaging _ _ _ (silent-quiet s h) (
            if-IsSettledManaging _ _ _
              (reduce_scout-quiet c.scout_management scout_defensive_reduce s h)
              (pending-quiet (end_warning scout_pending s) h)))

    unconfirmed-quiet :
        (s : Managed D) (state : ScoutState)
        → IsPlain s
        → IsSettledManaging (unconfirmed c candle bar max_r s state)
    unconfirmed-quiet s scout_warning h = warned-quiet s h
    unconfirmed-quiet s scout_pending h = pending-quiet s h
    unconfirmed-quiet s scout_confirmed h = pending-quiet s h
    unconfirmed-quiet s unscouted h = pending-quiet s h
    unconfirmed-quiet s active_trend h = pending-quiet s h

    watched-quiet : (s : Managed D) → IsPlain s → IsSettledManaging (watched c candle bar max_r s)
    unfolding watched
    watched-quiet s h = if-IsSettledManaging _ _ _ (confirmed-quiet c.scout_management s h) (
        if-IsSettledManaging _ _ _
          (reduce_scout-quiet c.scout_management scout_catastrophic_reduce s h)
          (unconfirmed-quiet s s.position.scout_state h))

    in_state-quiet :
        (s : Managed D) (state : ScoutState)
        → IsPlain s
        → IsSettledManaging (in_state c candle bar max_r s state)
    unfolding IsSettledManaging
    in_state-quiet s scout_warning h = watched-quiet s h
    in_state-quiet s scout_pending h = watched-quiet s h
    in_state-quiet s scout_confirmed h = ground arith
    in_state-quiet s unscouted h = (refl, h)
    in_state-quiet s active_trend h = (refl, h)

  scout-quiet :
      (c : PositionSection D) (max_r : D) (bar : Bar D) (s : Managed D)
      → IsPlain s
      → IsSettledManaging (scout_management_action c max_r bar s)
  unfolding scout_management_action IsSettledManaging
  scout-quiet c max_r bar s h =
      elim bar.candle_1m
          as (λ x. bar.candle_1m ≡ x → IsSettledManaging (scout_management_action c max_r bar s)) [
            | none ↦ λ e. ground arith
            | some candle ↦
                λ e. ground (arith, in_state-quiet c candle bar max_r s s.position.scout_state h)
          ]
        refl

  leave-IsSettled : (reason : ExitReason) (s : Managed D) → IsSettled (last_action (leave reason s))
  unfolding IsSettled leave
  leave-IsSettled reason s = ground arith

  pub observed-IsPlain : (bar : Bar D) (s : Managed D) → IsPlain s → IsPlain (observed bar s)
  unfolding observed advance_bar_counter
  observed-IsPlain bar s h = ground arith

  -- An evaluation of a position of another mode than the retest asks for no other stop than the one
  -- that it has set.
  pub managed_step-IsSettled :
      (c : PositionSection D) (bar : Bar D) (s : Managed D)
      → IsPlain s
      → IsSettled (managed_step c bar s)
  unfolding managed_step
  managed_step-IsSettled c bar s h =
      let t = observed bar s in
      let r = r_multiple s.position.base bar.price in
      let max_r = max_r_of bar s in
      if-IsSettled _ _ _ (leave-IsSettled max_holding_time t) (
        general_step-IsSettled c r max_r bar (scout_management_action c max_r bar t)
          (scout-quiet c max_r bar t (observed-IsPlain bar s h)))
