-- ===== src/Positions/Runner.antt =====
-- packages/position/position_manager.py: the strength of a trend in the runner mode.
use quantbot.Prelude.{
  ℕ, ◌+◌, Bool, true, false, not, ◌&&◌, ◌||◌, ltb, leb, if◌then◌else◌, Option, none, some, List, [],
  ◌∷◌,
}
use quantbot.Core.Enums.{PositionSide, long, short}
use quantbot.Number.{Number, num, ◌⊕◌, ◌⊖◌, ◌<=◌}
use quantbot.Positions.Managed.{
  Strength, weak, strong, very_strong, Weakness, five_min_ema20_break, one_min_ema20_break,
  strong_opposite_candle, trend_hold_weak, runner_trend_strength_changed, PositionAction,
  scout_event, RunnerModeSection, Snapshot, BarCandle, Bar, Tracked, Memory, Managed, known_time,
  same_time, against, ema_against, strong_opposite,
}

abbrev pub same_strength : Strength → Strength → Bool
same_strength weak weak = true
same_strength strong strong = true
same_strength very_strong very_strong = true
same_strength _ _ = false

-- `old in {"STRONG", "VERY_STRONG"}`
abbrev was_strong : Option Strength → Bool
was_strong none = false
was_strong (some weak) = false
was_strong (some _) = true

abbrev is_weak : Strength → Bool
is_weak weak = true
is_weak _ = false

abbrev pub at_least_one : ℕ → ℕ
at_least_one n = if leb 1 n then n else 1

module _ {D : Type 0} where
  unfoldable pub runner_multiplier : RunnerModeSection D → Strength → D
  runner_multiplier c very_strong = c.very_strong_trend_trailing_atr
  runner_multiplier c strong = c.strong_trend_trailing_atr
  runner_multiplier c weak = c.weak_trend_trailing_atr

  -- `_clear_runner_weak_signal`
  abbrev pub clear_weak_signal : Memory D → Memory D
  clear_weak_signal m = record m {
    runner_weak_signal_count = 0;
    runner_weak_signal_open_time = none;
  }

  -- The bars that a weakness must last.
  abbrev required_bars : RunnerModeSection D → Weakness → ℕ
  required_bars c strong_opposite_candle = at_least_one c.tighten_on_strong_opposite_candle_bars
  required_bars c _ = at_least_one c.tighten_on_1m_ema20_break_bars

  -- A bar is counted once, by its opening time if that is known.
  abbrev count_weak_signal : Option (BarCandle D) → Memory D → Memory D
  count_weak_signal candle m =
      let counted = record m { runner_weak_signal_count = m.runner_weak_signal_count + 1 } in
      elim (known_time candle) [
        | none ↦ counted
        | some t ↦
            if same_time m.runner_weak_signal_open_time (some t)
            then m
            else record counted { runner_weak_signal_open_time = some t }
      ]

  abbrev awaited : ℕ → Memory D → Bool × Memory D
  awaited required m =
      if ltb m.runner_weak_signal_count required then (true, m) else (false, clear_weak_signal m)

  abbrev pending :
      RunnerModeSection D → Weakness → Option (BarCandle D) → Memory D → Bool × Memory D
  pending c five_min_ema20_break candle m = (false, clear_weak_signal m)
  pending c reason candle m =
      let required = required_bars c reason in
      if leb required 1 then (false, m) else awaited required (count_weak_signal candle m)

  -- `_runner_weak_downgrade_pending`; a strength is weak exactly with a weakness.
  unfoldable pub weak_downgrade_pending :
      RunnerModeSection D
      → Option Strength
      → Strength × Option Weakness
      → Option (BarCandle D)
      → Memory D
      → Bool × Memory D
  weak_downgrade_pending c old (strength, none) candle m = (false, m)
  weak_downgrade_pending c old (strength, some reason) candle m =
      if was_strong old && is_weak strength then pending c reason candle m else (false, m)

module _ {D : Type 0} ⦃d : Number D⦄ where
  -- Whether a snapshot holds the trend: its close is strictly on the winning side of the average.
  abbrev holds : PositionSide → Option (Snapshot D) → Bool
  holds side none = false
  holds side (some s) = elim s.ema20 [
    | none ↦ false
    | some ema ↦ elim side [ long ↦ not (s.close <= ema) | short ↦ not (ema <= s.close) ]
  ]

  abbrev rsi_of : Option (Snapshot D) → Option D
  rsi_of none = none
  rsi_of (some s) = s.rsi14

  -- An RSI at least the first bound of a long position, at most the second of a short one.
  abbrev rsi_holds : PositionSide → D → D → Option D → Bool
  rsi_holds side low high none = false
  rsi_holds long low high (some rsi) = low <= rsi
  rsi_holds short low high (some rsi) = rsi <= high

  unfoldable pub trend_holds : RunnerModeSection D → PositionSide → Bar D → Bool
  trend_holds c side bar =
      (not c.require_5m_trend_hold || holds side bar.snapshot_5m)
      && (not c.require_1m_ema20_hold || holds side bar.snapshot_1m)
      && rsi_holds side c.long_min_1m_rsi c.short_max_1m_rsi (rsi_of bar.snapshot_1m)

  abbrev pub five_min_break : PositionSide → Option (Snapshot D) → Bool
  five_min_break side none = false
  five_min_break side (some s) = ema_against side s.ema20 s.close

  abbrev counted_break : ℕ → Bool → Memory D → Bool × Memory D
  counted_break most true m = (
    leb most (m.runner_ema_break_count + 1),
    record m { runner_ema_break_count = m.runner_ema_break_count + 1 },
  )
  counted_break most false m = (false, record m { runner_ema_break_count = 0 })

  -- The closes in a row beyond the one-minute average, counted where candle and average are known.
  abbrev one_min_break :
      ℕ → PositionSide → Option (BarCandle D) → Option (Snapshot D) → Memory D → Bool × Memory D
  one_min_break most side (some candle) (some s) m = elim s.ema20 [
    | none ↦ (false, m)
    | some ema ↦ counted_break most (against side candle.prices.close ema) m
  ]
  one_min_break most side _ _ m = (false, m)

  abbrev pub opposite_candle : PositionSide → Option (BarCandle D) → Option D → Bool
  opposite_candle side none ratio = false
  opposite_candle side (some candle) ratio =
      strong_opposite (d.dec 55 2) (d.dec 15 1) (d.dec 25 2) (d.dec 75 2) side candle.prices ratio

  -- `_runner_weakening_reason`
  unfoldable pub weakening_reason :
      RunnerModeSection D → PositionSide → Bar D → Memory D → Option Weakness × Memory D
  weakening_reason c side bar m =
      let (broken, counted) =
        one_min_break c.tighten_on_1m_ema20_break_bars side bar.candle_1m bar.snapshot_1m m in
      if five_min_break side bar.snapshot_5m
      then (some five_min_ema20_break, m)
      else if broken
      then (some one_min_ema20_break, counted)
      else if c.tighten_on_strong_opposite_candle
          && opposite_candle side bar.candle_1m bar.volume_ratio
      then (some strong_opposite_candle, counted)
      else (none, counted)

  -- The strength where nothing weakens the trend.
  abbrev unweakened : RunnerModeSection D → PositionSide → D → Bar D → Strength × Option Weakness
  unweakened c side max_r bar =
      if (c.strong_trend_min_r <= max_r) && trend_holds c side bar
      then (if (c.very_strong_trend_min_r <= max_r)
            && rsi_holds side (c.long_min_1m_rsi ⊕ num 5) (c.short_max_1m_rsi ⊖ num 5)
                (rsi_of bar.snapshot_1m)
          then (very_strong, none)
          else (strong, none))
      else (weak, some trend_hold_weak)

  -- `_runner_trend_strength`
  unfoldable pub trend_strength :
      RunnerModeSection D
      → PositionSide
      → D
      → Bar D
      → Memory D
      → (Strength × Option Weakness) × Memory D
  unfolding weakening_reason trend_holds
  trend_strength c side max_r bar m =
      let (reason, counted) = weakening_reason c side bar m in
      elim reason [
        | some w ↦ ((weak, some w), counted)
        | none ↦ (unweakened c side max_r bar, counted)
      ]

  abbrev pub set_strength : RunnerModeSection D → Strength → Tracked D → Tracked D
  set_strength c strength p = record p {
    runner_trend_strength = some strength;
    base = record p.base { runner_trailing_atr_multiplier = some (runner_multiplier c strength) };
  }

  abbrev changed : Option Strength → Strength → List (PositionAction D)
  changed none strength = []
  changed (some old) strength =
      if same_strength old strength then [] else scout_event runner_trend_strength_changed ∷ []

  -- The new strength, unless a weaker one still has to last.
  abbrev pub settle :
      RunnerModeSection D
      → Tracked D
      → Strength × Option Weakness
      → Bool × Memory D
      → List (PositionAction D) × Managed D
  settle c p found (true, m) = ([], record { position = p; memory = m })
  settle c p found (false, m) = (
    changed p.runner_trend_strength found.0,
    record {
      position = set_strength c found.0 p;
      memory = if is_weak found.0 then m else clear_weak_signal m;
    },
  )

  -- `_runner_state_actions`
  unfoldable pub runner_state_actions :
      RunnerModeSection D → D → Bar D → Managed D → List (PositionAction D) × Managed D
  unfolding trend_strength weak_downgrade_pending runner_multiplier
  runner_state_actions c max_r bar s =
      let p = s.position in
      let (found, m) = trend_strength c p.base.side max_r bar s.memory in
      if p.base.runner_mode_active
      then settle c p found (weak_downgrade_pending c p.runner_trend_strength found bar.candle_1m m)
      else ([], s)
