-- ===== src/Positions/Evaluate/Actions.antt =====
-- What one evaluation may do to a position.
use quantbot.Prelude.{ap, ◌∙◌, ◌≡◌, refl, false, none, some, [], ◌∷◌, arith}
use quantbot.Core.Enums.{
  max_holding_time, ScoutState, unscouted, scout_warning, scout_confirmed, active_trend,
  scout_defensive_reduce, scout_catastrophic_reduce, scout_pending, ExitReason,
}
use quantbot.Number.{Number}
use quantbot.Positions.Managed.{
  EventType, scout_warning_started, scout_warning_recovered, ScoutManagementSection, scout_event,
  PositionSection, BarCandle, Bar, Managed, advance_bar_counter,
}
use quantbot.Positions.Stagnation.{leave}
use quantbot.Positions.Scout.{
  start_warning, unconfirmed, in_state, confirmed, Managing, end_warning, scout_management_action,
  watched, warned, after_grace, reduce_scout, scout_stagnation,
}
use quantbot.Positions.Scout.Signs.{weakness}
use quantbot.Positions.Trailing.{r_multiple}
use quantbot.Positions.Scout
use quantbot.Positions.Evaluate.{last_action, max_r_of, observed, managed_step, evaluate}
use quantbot.Positions.Evaluate.Single.{
  IsSingle, IsManaging, is_closing, closing_of, if-IsSingle, if-IsManaging, general_step-IsSingle,
  scout_stagnation-IsManaging,
}
use quantbot.Positions.Evaluate.Changes.{weakness-same}

module _ {D : Type 0} ⦃d : Number D⦄ where
  reduce_scout-IsManaging :
      (c : ScoutManagementSection D) (reason : ExitReason) (s : Managed D)
      → is_closing s ≡ false
      → IsManaging (reduce_scout c reason s)
  unfolding reduce_scout IsManaging IsSingle
  reduce_scout-IsManaging c reason s h = ground arith

  noted-IsManaging :
      (e : EventType) (s : Managed D)
      → is_closing s ≡ false
      → IsManaging (scout_event e ∷ [], false, s)
  unfolding IsManaging IsSingle
  noted-IsManaging e s h = ground arith

  silent-IsManaging : (s : Managed D) → is_closing s ≡ false → IsManaging ([], false, s)
  unfolding IsManaging IsSingle
  silent-IsManaging s h = ground arith

  confirmed-IsManaging :
      (c : ScoutManagementSection D) (s : Managed D)
      → is_closing s ≡ false
      → IsManaging (confirmed c s)
  unfolding IsManaging IsSingle
  confirmed-IsManaging c s h = ground arith

  leave-IsSingle : (reason : ExitReason) (s : Managed D) → IsSingle (last_action (leave reason s))
  unfolding IsSingle leave
  leave-IsSingle reason s = ground arith

  nothing-IsSingle : (s : Managed D) → is_closing s ≡ false → IsSingle ([], s)
  unfolding IsSingle
  nothing-IsSingle s h = ground arith

  module _ (c : PositionSection D) (candle : BarCandle D) (bar : Bar D) (max_r : D) where
    after_grace-IsManaging :
        (s : Managed D) → is_closing s ≡ false → IsManaging (after_grace c candle bar max_r s)
    unfolding after_grace
    after_grace-IsManaging s h =
        let t = (weakness c.scout_management candle bar s).1 in
        let k : is_closing t ≡ false =
          ap closing_of (weakness-same c.scout_management candle bar s) ∙ h in
        if-IsManaging _ _ _ (scout_stagnation-IsManaging c.stagnation_exit max_r s h) (
          if-IsManaging _ _ _
            (reduce_scout-IsManaging c.scout_management scout_defensive_reduce t k)
            (scout_stagnation-IsManaging c.stagnation_exit max_r t k))

    pending-IsManaging :
        (s : Managed D) → is_closing s ≡ false → IsManaging (Scout.pending c candle bar max_r s)
    unfolding Scout.pending
    pending-IsManaging s h =
        if-IsManaging _ _ _ (noted-IsManaging scout_warning_started (start_warning s) h)
          (after_grace-IsManaging s h)

    warned-IsManaging :
        (s : Managed D) → is_closing s ≡ false → IsManaging (warned c candle bar max_r s)
    unfolding warned
    warned-IsManaging s h =
        if-IsManaging _ _ _
          (noted-IsManaging scout_warning_recovered (end_warning scout_pending s) h)
          (if-IsManaging _ _ _ (silent-IsManaging s h) (
            if-IsManaging _ _ _
              (reduce_scout-IsManaging c.scout_management scout_defensive_reduce s h)
              (pending-IsManaging (end_warning scout_pending s) h)))

    unconfirmed-IsManaging :
        (s : Managed D) (state : ScoutState)
        → is_closing s ≡ false
        → IsManaging (unconfirmed c candle bar max_r s state)
    unconfirmed-IsManaging s scout_warning h = warned-IsManaging s h
    unconfirmed-IsManaging s scout_pending h = pending-IsManaging s h
    unconfirmed-IsManaging s scout_confirmed h = pending-IsManaging s h
    unconfirmed-IsManaging s unscouted h = pending-IsManaging s h
    unconfirmed-IsManaging s active_trend h = pending-IsManaging s h

    watched-IsManaging :
        (s : Managed D) → is_closing s ≡ false → IsManaging (watched c candle bar max_r s)
    unfolding watched
    watched-IsManaging s h = if-IsManaging _ _ _ (confirmed-IsManaging c.scout_management s h) (
        if-IsManaging _ _ _
          (reduce_scout-IsManaging c.scout_management scout_catastrophic_reduce s h)
          (unconfirmed-IsManaging s s.position.scout_state h))

    in_state-IsManaging :
        (s : Managed D) (state : ScoutState)
        → is_closing s ≡ false
        → IsManaging (in_state c candle bar max_r s state)
    unfolding IsManaging IsSingle
    in_state-IsManaging s scout_warning h = watched-IsManaging s h
    in_state-IsManaging s scout_pending h = watched-IsManaging s h
    in_state-IsManaging s scout_confirmed h = ground arith
    in_state-IsManaging s unscouted h = (refl, refl, h)
    in_state-IsManaging s active_trend h = (refl, refl, h)

  scout-IsManaging :
      (c : PositionSection D) (max_r : D) (bar : Bar D) (s : Managed D)
      → is_closing s ≡ false
      → IsManaging (scout_management_action c max_r bar s)
  unfolding scout_management_action IsManaging IsSingle
  scout-IsManaging c max_r bar s h =
      elim bar.candle_1m
          as (λ x. bar.candle_1m ≡ x → IsManaging (scout_management_action c max_r bar s)) [
            | none ↦ λ e. ground arith
            | some candle ↦ λ e.
                ground (arith, in_state-IsManaging c candle bar max_r s s.position.scout_state h)
          ]
        refl

  -- One evaluation of a position that is not closing gives at most one action that sends an order or
  -- moves the stop, whatever events go with it, and leaves the position closing exactly where that
  -- action is an exit.
  pub evaluate_acts_once :
      (c : PositionSection D) (bar : Bar D) (s : Managed D)
      → is_closing s ≡ false
      → IsSingle (evaluate c bar s)
  unfolding evaluate managed_step leave
  evaluate_acts_once c bar s h =
      let t = observed bar s in
      let r = r_multiple s.position.base bar.price in
      let max_r = max_r_of bar s in
      let k : is_closing t ≡ false = unfold observed advance_bar_counter in ground arith in
      if-IsSingle _ _ _
        (if-IsSingle _ _ _ (leave-IsSingle max_holding_time t) (
          general_step-IsSingle c r max_r bar (scout_management_action c max_r bar t)
            (scout-IsManaging c max_r bar t k)))
        (nothing-IsSingle s h)
