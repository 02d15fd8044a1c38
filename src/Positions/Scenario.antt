-- ===== src/Positions/Scenario.antt =====
-- packages/position/position_manager.py: positions whose scenario no longer holds (`_scenario_action`).
use quantbot.Prelude.{
  ℕ, ◌+◌, ◌-◌, Bool, true, false, not, ◌&&◌, ◌||◌, ltb, leb, ◌==◌, if◌then◌else◌, Option, none,
  some, ◌∷◌, any, Dict, lookup, insert, remove,
}
use quantbot.Core.Enums.{EntryMode, pre_breakout_scout, retest_confirm, scenario_invalid}
use quantbot.Number.{Number, num, ◌⊖◌, ◌⊗◌, ◌<=◌, ◌<<◌}
use quantbot.Positions.Managed.{
  delayed_by_entry_mode, reduce, scout_event, StagnationExitSection, BarCandle, Bar, Tracked,
  Managed, known_time, repeats, against,
}
use quantbot.Positions.Runner.{five_min_break, opposite_candle}
use quantbot.Positions.Stagnation.{leave, Choice, chosen}

abbrev pub is_scout : Option EntryMode → Bool
is_scout (some pre_breakout_scout) = true
is_scout _ = false

abbrev is_retest : Option EntryMode → Bool
is_retest (some retest_confirm) = true
is_retest _ = false

-- What a dict of counted closes holds: the opening time of the last one, and their number.
abbrev closes_of : ℕ → Dict (Option ℕ × ℕ) → Option ℕ × ℕ
closes_of key closes = elim (lookup key closes) [ none ↦ (none, 0) | some c ↦ c ]

-- One more close, unless its opening time is the last one's; whether there are two.
abbrev two_closes : ℕ → Option ℕ → Dict (Option ℕ × ℕ) → Bool × Dict (Option ℕ × ℕ)
two_closes key open_time closes =
    let (last, count) = closes_of key closes in
    if repeats open_time last
    then (leb 2 count, closes)
    else (leb 2 (count + 1), insert key (open_time, count + 1) closes)

module _ {D : Type 0} ⦃d : Number D⦄ where
  abbrev wrong_side : Tracked D → Option (BarCandle D) → Bool
  wrong_side p none = false
  wrong_side p (some candle) = elim p.breakout_level [
    | none ↦ false
    | some level ↦ against p.base.side candle.prices.close level
  ]

  -- Whether there is a breakout level and a candle to compare.
  abbrev has_level : Tracked D → Option (BarCandle D) → Bool
  has_level p none = false
  has_level p (some candle) = elim p.breakout_level [ none ↦ false | some level ↦ true ]

  -- `_break_level_invalid`: two closes in a row beyond the breakout level.
  unfoldable pub break_level_invalid : Option (BarCandle D) → Managed D → Bool × Managed D
  break_level_invalid candle s =
      let m = s.memory in
      let (invalid, closes) =
        two_closes s.position.opened_at (known_time candle) m.break_level_fail_closes in
      if not (has_level s.position candle)
      then (false, s)
      else if wrong_side s.position candle
      then (invalid, record s { memory = record m { break_level_fail_closes = closes } })
      else (
        false,
        record s {
          memory = record m {
            break_level_fail_closes = remove s.position.opened_at m.break_level_fail_closes;
          };
        },
      )

  -- `_hard_scenario_invalid`
  unfoldable pub hard_scenario_invalid : Tracked D → Bar D → Bool
  hard_scenario_invalid p bar =
      five_min_break p.base.side bar.snapshot_5m
      || opposite_candle p.base.side bar.candle_1m bar.volume_ratio

  -- `_scenario_invalid`, with `include_counter_candle` first.
  unfoldable pub is_scenario_invalid : Bool → Bar D → Managed D → Bool × Managed D
  unfolding break_level_invalid
  is_scenario_invalid include bar s =
      let (broken, after) = break_level_invalid bar.candle_1m s in
      let side = s.position.base.side in
      if five_min_break side bar.snapshot_5m
      then (true, s)
      else if broken
      then (true, after)
      else (include && opposite_candle side bar.candle_1m bar.volume_ratio, after)

  -- `_break_level_invalid_confirmed`
  abbrev break_level_confirmed : Option (BarCandle D) → Managed D → Bool
  break_level_confirmed candle s =
      wrong_side s.position candle
      && leb 2 (closes_of s.position.opened_at s.memory.break_level_fail_closes).1

  -- `_scout_scenario_invalid_confirmed`
  unfoldable pub scout_invalid_confirmed : Option (BarCandle D) → Managed D → Bool × Managed D
  scout_invalid_confirmed candle s =
      let m = s.memory in
      let key = s.position.opened_at in
      let (invalid, closes) = two_closes key (known_time candle) m.scout_invalid_closes in
      if not (is_scout s.position.entry_mode)
      then (true, s)
      else if break_level_confirmed candle s
      then (
        true,
        record s { memory = record m { scout_invalid_closes = remove key m.scout_invalid_closes } },
      )
      else (invalid, record s { memory = record m { scout_invalid_closes = closes } })

  -- `_clear_scout_scenario_invalid`
  abbrev clear_scout_invalid : Managed D → Managed D
  clear_scout_invalid s =
      let m = s.memory in
      if is_scout s.position.entry_mode
      then record s {
        memory = record m {
          scout_invalid_closes = remove s.position.opened_at m.scout_invalid_closes;
        };
      }
      else s

  -- `_scenario_invalid_grace_bars`
  abbrev grace_bars : StagnationExitSection D → Tracked D → ℕ
  grace_bars c p = if is_retest p.entry_mode then c.retest_scenario_invalid_grace_bars else 0

  -- `_mild_retest_break_level_invalid`
  abbrev mild_retest : D → Bar D → Tracked D → Bool
  mild_retest r bar p =
      is_retest p.entry_mode && not (r <= (num 0 ⊖ d.dec 5 1)) && not (hard_scenario_invalid p bar)

  abbrev set_recovery : Option ℕ → Managed D → Managed D
  set_recovery left s = record s { memory = record s.memory { scenario_recovery = left } }

  -- The window after a reduction, with the bars that were left.
  abbrev recovering : D → ℕ → Managed D → Choice D
  recovering r left s =
      if d.dec 5 1 <= r
      then (none, set_recovery none s)
      else if leb left 1
      then chosen (leave scenario_invalid (set_recovery none s))
      else (none, set_recovery (some (left - 1)) s)

  -- Half of the position is closed, and a window of three bars opens.
  abbrev reduce_half : Managed D → Choice D
  reduce_half s = (
    some (reduce (s.position.base.qty ⊗ d.dec 5 1) scenario_invalid),
    record s {
      memory = record s.memory {
        scenario_recovery = some 3;
        scenario_reduced = s.position.opened_at ∷ s.memory.scenario_reduced;
      };
    },
  )

  -- An invalid scenario outside that window.
  unfoldable pub invalidated : StagnationExitSection D → D → Bar D → Managed D → Choice D
  unfolding hard_scenario_invalid scout_invalid_confirmed
  invalidated c r bar s =
      let p = s.position in
      let grace = grace_bars c p in
      let delayed = some (scout_event delayed_by_entry_mode) in
      let (confirmed, after) = scout_invalid_confirmed bar.candle_1m s in
      if any (λ key. key == p.opened_at) s.memory.scenario_reduced
      then (none, if r << d.dec 5 1 then set_recovery (some 3) s else s)
      else if ltb 0 grace && leb p.bars_since_entry grace
      then (delayed, s)
      else if mild_retest r bar p
      then (if ltb p.bars_since_entry c.retest_tighten_after_bars then delayed else none, s)
      else if not confirmed
      then (delayed, after)
      else reduce_half after

  -- `_scenario_action`
  unfoldable pub scenario_action : StagnationExitSection D → D → Bar D → Managed D → Choice D
  unfolding leave is_scenario_invalid invalidated
  scenario_action c r bar s = elim s.memory.scenario_recovery [
    | some left ↦ recovering r left s
    | none ↦
        let (invalid, after) = is_scenario_invalid true bar s in
        if invalid then invalidated c r bar after else (none, clear_scout_invalid after)
  ]
