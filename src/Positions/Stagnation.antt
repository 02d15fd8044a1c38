-- ===== src/Positions/Stagnation.antt =====
-- packages/position/position_manager.py: leaving a position, and the exits of one that stagnates.
use quantbot.Prelude.{
  Bool, true, false, not, ◌&&◌, leb, ◌==◌, if◌then◌else◌, Option, none, some, ◌∷◌, any,
}
use quantbot.Core.Enums.{
  closing, EntryMode, pre_breakout_scout, breakout_confirm, retest_confirm, ExitReason, stagnation,
}
use quantbot.Number.{Number, num, ◌⊕◌, ◌⊗◌, ◌⊘◌, ◌<<◌}
use quantbot.Positions.Trailing.{or_default}
use quantbot.Positions.Managed.{
  delayed_by_entry_mode, Delay, scout_stagnation, breakout_exit, breakout_reduce, retest_exit,
  retest_tighten, PositionAction, reduce, exit, trail_update, scout_event, StagnationExitSection,
  Tracked, Managed,
}

-- `_exit`
unfoldable pub leave : {D : Type 0} → ExitReason → Managed D → PositionAction D × Managed D
leave reason s =
    let base = record s.position.base { status = closing; exit_reason = some reason } in
    (exit s.position.base.qty reason, record s { position = record s.position { base = base } })

abbrev same_delay : Delay → Delay → Bool
same_delay scout_stagnation scout_stagnation = true
same_delay breakout_exit breakout_exit = true
same_delay breakout_reduce breakout_reduce = true
same_delay retest_exit retest_exit = true
same_delay retest_tighten retest_tighten = true
same_delay _ _ = false

-- An action, or none, and what is kept.
abbrev pub Choice : Type 0 → Type 0
Choice D = Option (PositionAction D) × Managed D

module _ {D : Type 0} where
  abbrev pub chosen : PositionAction D × Managed D → Choice D
  chosen (a, s) = (some a, s)

  -- `_stagnation_delay_event`: each reason once for a position.
  unfoldable pub stagnation_delay_event : Delay → Managed D → Choice D
  stagnation_delay_event reason s =
      let opened = s.position.opened_at in
      let m = s.memory in
      if any (λ seen. same_delay reason seen.0 && (seen.1 == opened)) m.delays_emitted
      then (none, s)
      else (
        some (scout_event delayed_by_entry_mode),
        record s { memory = record m { delays_emitted = (reason, opened) ∷ m.delays_emitted } },
      )

module _ {D : Type 0} ⦃d : Number D⦄ where
  -- `_tighten_stop`
  unfoldable pub tighten_stop : Tracked D → D
  tighten_stop p =
      let entry = p.base.avg_entry_price in
      (or_default p.base.stop_loss_price entry ⊕ entry) ⊘ num 2

  abbrev below_half : D → Bool
  below_half max_r = max_r << d.dec 5 1

  abbrev scout_stagnates : StagnationExitSection D → D → Managed D → Choice D
  scout_stagnates c max_r s =
      let bars = s.position.bars_since_entry in
      let delayed = stagnation_delay_event scout_stagnation s in
      if leb c.scout_max_bars_without_breakout bars && (max_r << c.scout_min_progress_r)
      then chosen (leave stagnation s)
      else if leb 8 bars && below_half max_r
      then delayed
      else (none, s)

  abbrev breakout_stagnates : StagnationExitSection D → D → Managed D → Choice D
  breakout_stagnates c max_r s =
      let bars = s.position.bars_since_entry in
      let fresh = not s.memory.stag_reduced in
      if leb c.breakout_max_bars_without_1r bars && (max_r << num 1)
      then chosen (leave stagnation s)
      else if leb c.breakout_reduce_after_bars bars && below_half max_r && fresh
      then (
        some (reduce (s.position.base.qty ⊗ c.breakout_reduce_fraction) stagnation),
        record s { memory = record s.memory { stag_reduced = true } },
      )
      else if leb 10 bars && (max_r << num 1)
      then stagnation_delay_event breakout_exit s
      else if leb 5 bars && below_half max_r && fresh
      then stagnation_delay_event breakout_reduce s
      else (none, s)

  abbrev retest_stagnates : StagnationExitSection D → D → Managed D → Choice D
  retest_stagnates c max_r s =
      let bars = s.position.bars_since_entry in
      if leb c.retest_max_bars_without_1r bars && (max_r << num 1)
      then chosen (leave stagnation s)
      else if leb c.retest_tighten_after_bars bars && below_half max_r
      then (some (trail_update (tighten_stop s.position)), s)
      else if leb 12 bars && (max_r << num 1)
      then stagnation_delay_event retest_exit s
      else if leb 6 bars && below_half max_r
      then stagnation_delay_event retest_tighten s
      else (none, s)

  abbrev stagnates_in : StagnationExitSection D → D → Managed D → Option EntryMode → Choice D
  stagnates_in c max_r s none = (none, s)
  stagnates_in c max_r s (some pre_breakout_scout) = scout_stagnates c max_r s
  stagnates_in c max_r s (some breakout_confirm) = breakout_stagnates c max_r s
  stagnates_in c max_r s (some retest_confirm) = retest_stagnates c max_r s

  -- `_stagnation_action`
  unfoldable pub stagnation_action : StagnationExitSection D → D → Managed D → Choice D
  unfolding leave stagnation_delay_event tighten_stop
  stagnation_action c max_r s =
      if c.enabled then stagnates_in c max_r s s.position.entry_mode else (none, s)
