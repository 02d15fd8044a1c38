-- ===== src/Risk/Leverage.antt =====
-- packages/risk/leverage.py: the leverage cap, the least of every rule that applies and never below
-- the minimum, and the leverage chosen under it.
pub mod Bounds
use quantbot.Prelude.{ℕ, Bool, leb, if◌then◌else◌, List, [], ◌∷◌, ◌++◌}
use quantbot.Core.Enums.{EntryMode, pre_breakout_scout, breakout_confirm, retest_confirm}
use quantbot.Config.{RiskSection}
use quantbot.Number.{Number, num, ◌⊘◌, ◌<=◌, ◌<<◌, min_of, max_of}

module _ {D : Type 0} ⦃d : Number D⦄ where
  abbrev mode_cap : RiskSection D → EntryMode → ℕ
  mode_cap c pre_breakout_scout = c.scout_max_leverage
  mode_cap c breakout_confirm = c.breakout_max_leverage
  mode_cap c retest_confirm = c.retest_max_leverage

  -- `if test: caps.append(cap)`
  abbrev cap_if : Bool → ℕ → List D
  cap_if test cap = if test then num cap ∷ [] else []

  -- Python's `min` of a list that starts with `x`.
  pub min_from : D → List D → D
  min_from x [] = x
  min_from x (y ∷ ys) = min_from (min_of x y) ys

  unfoldable pub base_cap : RiskSection D → EntryMode → Bool → D
  base_cap c mode high_quality =
      num (if high_quality then c.high_quality_max_leverage else mode_cap c mode)

  -- The three caps that may be appended; the caller always passes an ATR percentage.
  abbrev pub volatile_cap : RiskSection D → D → List D
  volatile_cap c atr_percent =
      cap_if (c.high_atr_derisk_threshold_percent << atr_percent) c.high_atr_max_leverage

  abbrev pub streak_cap : RiskSection D → ℕ → List D
  streak_cap c losses =
      cap_if (leb c.consecutive_loss_derisk_count losses) c.consecutive_loss_max_leverage

  abbrev pub losing_cap : RiskSection D → D → List D
  losing_cap c daily_loss =
      cap_if (c.daily_loss_derisk_percent <= daily_loss) c.daily_loss_max_leverage

  unfoldable pub derisk_caps : RiskSection D → D → ℕ → D → List D
  derisk_caps c atr_percent losses daily_loss =
      volatile_cap c atr_percent ++ (streak_cap c losses ++ losing_cap c daily_loss)

  unfoldable pub max_leverage : RiskSection D → EntryMode → D → ℕ → D → Bool → D
  unfolding min_from base_cap derisk_caps
  max_leverage c mode atr_percent losses daily_loss high_quality =
      max_of (num c.min_leverage)
        (min_from (base_cap c mode high_quality) (derisk_caps c atr_percent losses daily_loss))

  unfoldable pub choose_leverage : D → D → D → D → D
  choose_leverage notional equity max_lev min_lev =
      if equity <= num 0
      then min_lev
      else max_of min_lev (min_of (d.ceiling (notional ⊘ equity)) max_lev)
