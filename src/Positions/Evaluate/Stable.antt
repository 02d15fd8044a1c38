-- ===== src/Positions/Evaluate/Stable.antt =====
-- A property of a position that every single change of `evaluate` keeps is kept by an evaluation.
use quantbot.Prelude.{
  ◌≡◌, ◌⊎◌, inl, inr, Bool-cases, ℕ, Bool, true, false, not, ◌&&◌, ◌||◌, ltb, if◌then◌else◌, Option,
  none, some, [], ◌∷◌, arith,
}
use quantbot.Core.Enums.{
  ScoutState, unscouted, scout_pending, scout_warning, scout_confirmed, active_trend, ExitReason,
  scout_defensive_reduce, scout_catastrophic_reduce, stagnation, scenario_invalid,
  runner_scenario_invalid, runner_trailing_stop, trailing_stop, max_holding_time,
}
use quantbot.Number.{Number, num, ◌<=◌, ◌⊗◌}
use quantbot.Positions.Trailing.{stop_breached, effective_stop, r_multiple, ratchet, trail_stop}
use quantbot.Positions.Managed.{
  scout_activated, scout_was_confirmed, partial_tp, scout_event, scout_warning_started,
  scout_warning_recovered, PositionSection, Strength, Weakness, BarCandle, Bar, Tracked, Memory,
  Managed,
}
use quantbot.Positions.Runner.{runner_state_actions, settle, trend_strength, weak_downgrade_pending}
use quantbot.Positions.Stagnation.{leave, Choice, stagnation_action}
use quantbot.Positions.Scenario.{is_scenario_invalid, scenario_action}
use quantbot.Positions.Scout.Signs.{weakness, catastrophic}
use quantbot.Positions.Scout.{
  with_candle, set_state, Managing, announce, start_warning, end_warning, scout_bars, warning_bars,
  confirmed, scout_management_action, scout_stagnation, after_grace, warned, unconfirmed, watched,
  in_state, reduce_scout, can_reduce,
}
use quantbot.Positions.Scout
use quantbot.Positions.Evaluate.{
  last_action, stopped_out, set_base, max_r_of, observed, or_ratchet, or_stagnation,
  runner_scenario, ratchet_step, stagnation_step, scenario_step, trailing_step, partial_step,
  general_step, managed_step, evaluate,
}
use quantbot.Positions.Evaluate.Changes.{
  left, scouted, IsStable, stagnation_action-left, is_scenario_invalid-same, scenario_action-left,
  weakness-same, move_stop-moved,
}

module _ {D : Type 0} ⦃d : Number D⦄ where
  module _ (c : PositionSection D) (P : Tracked D → Type 0) (stable : IsStable c P) where
    -- The property at the position that is kept.
    unfoldable At : Managed D → Type 0
    At s = P s.position

    same-At : (s t : Managed D) → t.position ≡ s.position → At s → At t
    unfolding At
    same-At s t e h = rw e h

    left-At : (reason : ExitReason) (s : Managed D) → At s → At (leave reason s).1
    unfolding At leave
    left-At reason s h = stable.leaves reason s.position h

    choice-At :
        (reason : ExitReason) (s t : Managed D)
        → (t.position ≡ s.position) ⊎ (t.position ≡ left reason s.position)
        → At s
        → At t
    unfolding At
    choice-At reason s t (inl e) h = rw e h
    choice-At reason s t (inr e) h = rw e (stable.leaves reason s.position h)

    if-At :
        {A : Type 0} (b : Bool) (e f : A × Managed D) → At e.1 → At f.1 → At (if b then e else f).1
    if-At true e f h k = h
    if-At false e f h k = k

    ratchet_step-At :
        (max_r : D) (bar : Bar D) (s : Managed D) → At s → At (ratchet_step c max_r bar s).1
    unfolding At ratchet_step
    ratchet_step-At max_r bar s h =
        elim (move_stop-moved c bar s
          (ratchet s.position.base (trail_stop c.trailing bar.atr max_r s.position.base))) [
            | inl e ↦ rw e h
            | inr (u, moved, e) ↦ rw e (stable.ratchets _ u bar.now s.position moved h)
          ]

    or_ratchet-At :
        (max_r : D) (bar : Bar D) (choice : Choice D)
        → At choice.1
        → At (or_ratchet c max_r bar choice).1
    or_ratchet-At max_r bar (some a, s) h = h
    or_ratchet-At max_r bar (none, s) h =
        if-At s.position.base.trailing_active (ratchet_step c max_r bar s) ([], s)
          (ratchet_step-At max_r bar s h) h

    or_stagnation-At :
        (max_r : D) (bar : Bar D) (choice : Choice D)
        → At choice.1
        → At (or_stagnation c max_r bar choice).1
    unfolding stagnation_step
    or_stagnation-At max_r bar (some a, s) h = h
    or_stagnation-At max_r bar (none, s) h =
        or_ratchet-At max_r bar (stagnation_action c.stagnation_exit max_r s)
          (choice-At stagnation s _ (stagnation_action-left c.stagnation_exit max_r s) h)

    runner_scenario-At :
        (max_r : D) (bar : Bar D) (e : Bool × Managed D)
        → At e.1
        → At (runner_scenario c max_r bar e).1
    runner_scenario-At max_r bar (true, s) h = left-At runner_scenario_invalid s h
    runner_scenario-At max_r bar (false, s) h =
        if-At s.position.base.trailing_active (ratchet_step c max_r bar s) ([], s)
          (ratchet_step-At max_r bar s h) h

    scenario_step-At :
        (r max_r : D) (bar : Bar D) (s : Managed D) → At s → At (scenario_step c r max_r bar s).1
    unfolding scenario_step
    scenario_step-At r max_r bar s h =
        let found = is_scenario_invalid false bar s in
        let choice = scenario_action c.stagnation_exit r bar s in
        if-At s.position.base.runner_mode_active (runner_scenario c max_r bar found)
          (or_stagnation c max_r bar choice)
          (runner_scenario-At max_r bar found
            (same-At s found.1 (is_scenario_invalid-same false bar s) h))
          (or_stagnation-At max_r bar choice (
            choice-At scenario_invalid s choice.1 (scenario_action-left c.stagnation_exit r bar s)
              h))

    stopped_out-At : (s : Managed D) → At s → At (stopped_out s).1
    stopped_out-At s h = elim (Bool-cases s.position.base.runner_mode_active) [
      | inl on ↦ simp on (left-At runner_trailing_stop s h)
      | inr off ↦ simp off (left-At trailing_stop s h)
    ]

    trailing_step-At :
        (r max_r : D) (bar : Bar D) (s : Managed D) → At s → At (trailing_step c r max_r bar s).1
    unfolding trailing_step
    trailing_step-At r max_r bar s h =
        let t = set_base (record s.position.base { trailing_active = true }) s in
        let k : At t = unfold At in stable.trails s.position h in
        if-At (not (c.trailing_start_r <= max_r)) (scenario_step c r max_r bar s)
          (if stop_breached t.position.base bar.price
              (effective_stop t.position.base (trail_stop c.trailing bar.atr max_r t.position.base))
            then stopped_out t
            else scenario_step c r max_r bar t)
          (scenario_step-At r max_r bar s h)
          (if-At _ (stopped_out t) (scenario_step c r max_r bar t) (stopped_out-At t k)
            (scenario_step-At r max_r bar t k))

    partial_step-At :
        (r max_r : D) (bar : Bar D) (s : Managed D) → At s → At (partial_step c r max_r bar s).1
    unfolding partial_step
    partial_step-At r max_r bar s h =
        if-At (not s.position.base.partial_tp_done && (c.partial_r <= r))
          (
            partial_tp (s.position.base.qty ⊗ c.partial_fraction) ∷ [],
            set_base (record s.position.base { partial_tp_done = true }) s,
          )
          (trailing_step c r max_r bar s) (unfold At in stable.takes s.position h)
          (trailing_step-At r max_r bar s h)

    settle-At :
        (s : Managed D) (found : Strength × Option Weakness) (waits : Bool × Memory D)
        → At s
        → At (settle c.runner_mode s.position found waits).1
    unfolding At
    settle-At s found (true, m) h = h
    settle-At s found (false, m) h = stable.strengthens found.0 s.position h

    runner-At :
        (max_r : D) (bar : Bar D) (s : Managed D)
        → At s
        → At (runner_state_actions c.runner_mode max_r bar s).1
    unfolding runner_state_actions
    runner-At max_r bar s h =
        let (found, m) = trend_strength c.runner_mode s.position.base.side max_r bar s.memory in
        let waits =
          weak_downgrade_pending c.runner_mode s.position.runner_trend_strength found bar.candle_1m
            m in
        if-At s.position.base.runner_mode_active (settle c.runner_mode s.position found waits)
          ([], s) (settle-At s found waits h) h

    if-Kept : (b : Bool) (e f : Managing D) → At e.2 → At f.2 → At (if b then e else f).2
    if-Kept true e f h k = h
    if-Kept false e f h k = k

    scouted-At :
        (state : ScoutState) (started : Option ℕ) (s : Managed D)
        → At s
        → At (record s {
          position = scouted state started s.position.defensive_reduction_count s.position;
        })
    unfolding At
    scouted-At state started s h = stable.scouts state started s.position h

    reduce_scout-At :
        (reason : ExitReason) (s : Managed D)
        → can_reduce c.scout_management s ≡ true
        → At s
        → At (reduce_scout c.scout_management reason s).2
    unfolding At reduce_scout
    reduce_scout-At reason s allowed h = stable.reduces s.position allowed h

    -- A reduction under a test that includes `can_reduce`.
    reduce_if-At :
        (b : Bool) (reason : ExitReason) (s : Managed D) (f : Managing D)
        → At s
        → At f.2
        → At
            (if b && can_reduce c.scout_management s
              then reduce_scout c.scout_management reason s
              else f).2
    reduce_if-At b reason s f h k = elim (Bool-cases (b && can_reduce c.scout_management s)) [
      | inl allowed ↦ simp allowed (reduce_scout-At reason s (ground arith) h)
      | inr refused ↦ simp refused k
    ]

    announce-At : (choice : Choice D) → At choice.1 → At (announce choice).2
    announce-At (none, s) h = h
    announce-At (some a, s) h = h

    stagnates-At :
        (max_r : D) (s : Managed D) → At s → At (scout_stagnation c.stagnation_exit max_r s).2
    unfolding scout_stagnation
    stagnates-At max_r s h =
        let choice = stagnation_action c.stagnation_exit max_r s in
        announce-At choice
          (choice-At stagnation s choice.1 (stagnation_action-left c.stagnation_exit max_r s) h)

    module _ (candle : BarCandle D) (bar : Bar D) (max_r : D) where
      after_grace-At : (s : Managed D) → At s → At (after_grace c candle bar max_r s).2
      unfolding after_grace
      after_grace-At s h =
          let m = c.scout_management in
          let (sign, t) = weakness m candle bar s in
          let k = same-At s t (weakness-same m candle bar s) h in
          if-Kept (ltb (scout_bars s.position) m.grace_bars)
            (scout_stagnation c.stagnation_exit max_r s)
            (if sign && can_reduce m t
              then reduce_scout m scout_defensive_reduce t
              else scout_stagnation c.stagnation_exit max_r t)
            (stagnates-At max_r s h)
            (reduce_if-At sign scout_defensive_reduce t (scout_stagnation c.stagnation_exit max_r t)
              k (stagnates-At max_r t k))

      pending-At : (s : Managed D) → At s → At (Scout.pending c candle bar max_r s).2
      unfolding Scout.pending
      pending-At s h =
          if-Kept _ (scout_event scout_warning_started ∷ [], false, start_warning s)
            (after_grace c candle bar max_r s)
            (scouted-At scout_warning (some (scout_bars s.position)) s h) (after_grace-At s h)

      warned-At : (s : Managed D) → At s → At (warned c candle bar max_r s).2
      unfolding warned
      warned-At s h =
          let m = c.scout_management in
          let ended = end_warning scout_pending s in
          let k = scouted-At scout_pending none s h in
          let later =
            if can_reduce m s
            then reduce_scout m scout_defensive_reduce s
            else Scout.pending c candle bar max_r ended in
          if-Kept _ (scout_event scout_warning_recovered ∷ [], false, ended)
            (if ltb (warning_bars s.position) m.warning_confirm_bars
                || ltb (scout_bars s.position) m.min_hold_bars_before_defensive_reduce
              then ([], false, s)
              else later)
            k
            (if-Kept _ ([], false, s) later h
              (reduce_if-At true scout_defensive_reduce s (Scout.pending c candle bar max_r ended) h
                (pending-At ended k)))

      unconfirmed-At :
          (s : Managed D) (state : ScoutState)
          → At s
          → At (unconfirmed c candle bar max_r s state).2
      unconfirmed-At s scout_warning h = warned-At s h
      unconfirmed-At s scout_pending h = pending-At s h
      unconfirmed-At s scout_confirmed h = pending-At s h
      unconfirmed-At s unscouted h = pending-At s h
      unconfirmed-At s active_trend h = pending-At s h

      confirmed-At : (s : Managed D) → At s → At (confirmed c.scout_management s).2
      confirmed-At s h =
          if-Kept c.scout_management.convert_to_active_on_confirmation
            (
              scout_event scout_was_confirmed ∷ scout_event scout_activated ∷ [],
              true,
              end_warning active_trend s,
            )
            (scout_event scout_was_confirmed ∷ [], false, end_warning scout_confirmed s)
            (scouted-At active_trend none s h) (scouted-At scout_confirmed none s h)

      watched-At : (s : Managed D) → At s → At (watched c candle bar max_r s).2
      unfolding watched
      watched-At s h =
          let m = c.scout_management in
          let state = s.position.scout_state in
          if-Kept _ (confirmed m s)
            (if catastrophic m s.position.base.side candle bar && can_reduce m s
              then reduce_scout m scout_catastrophic_reduce s
              else unconfirmed c candle bar max_r s state)
            (confirmed-At s h)
            (reduce_if-At (catastrophic m s.position.base.side candle bar) scout_catastrophic_reduce
              s (unconfirmed c candle bar max_r s state) h (unconfirmed-At s state h))

      in_state-At :
          (s : Managed D) (state : ScoutState) → At s → At (in_state c candle bar max_r s state).2
      in_state-At s scout_warning h = watched-At s h
      in_state-At s scout_pending h = watched-At s h
      in_state-At s scout_confirmed h =
          if-Kept c.scout_management.convert_to_active_on_confirmation
            (scout_event scout_activated ∷ [], true, set_state active_trend s) ([], false, s)
            (scouted-At active_trend s.position.warning_started_at_bar s h) h
      in_state-At s unscouted h = h
      in_state-At s active_trend h = h

    with_candle-At :
        (max_r : D) (bar : Bar D) (s : Managed D) (candle : Option (BarCandle D))
        → At s
        → At (with_candle c max_r bar s candle).2
    with_candle-At max_r bar s none h = h
    with_candle-At max_r bar s (some candle) h =
        if-Kept (bar.atr <= num 0) ([], false, s)
          (in_state c candle bar max_r s s.position.scout_state) h
          (in_state-At candle bar max_r s s.position.scout_state h)

    scout-At :
        (max_r : D) (bar : Bar D) (s : Managed D)
        → At s
        → At (scout_management_action c max_r bar s).2
    unfolding scout_management_action
    scout-At max_r bar s h =
        if-Kept _ ([], true, s) (with_candle c max_r bar s bar.candle_1m) h
          (with_candle-At max_r bar s bar.candle_1m h)

    general_step-At :
        (r max_r : D) (bar : Bar D) (m : Managing D) → At m.2 → At (general_step c r max_r bar m).1
    unfolding general_step
    general_step-At r max_r bar (before, false, s) h = h
    general_step-At r max_r bar (before, true, s) h =
        let (events, t) = runner_state_actions c.runner_mode max_r bar s in
        partial_step-At r max_r bar t (runner-At max_r bar s h)

    managed_step-At : (bar : Bar D) (s : Managed D) → At s → At (managed_step c bar s).1
    unfolding managed_step
    managed_step-At bar s h =
        let t = observed bar s in
        let k : At t = unfold At in stable.observes bar s h in
        let r = r_multiple s.position.base bar.price in
        let max_r = max_r_of bar s in
        let managing = scout_management_action c max_r bar t in
        if-At _ (last_action (leave max_holding_time t)) (general_step c r max_r bar managing)
          (left-At max_holding_time t k)
          (general_step-At r max_r bar managing (scout-At max_r bar t k))

    pub evaluate-keeps :
        (bar : Bar D) (s : Managed D) → P s.position → P (evaluate c bar s).1.position
    unfolding At evaluate
    evaluate-keeps bar s h = if-At _ (managed_step c bar s) ([], s) (managed_step-At bar s h) h
