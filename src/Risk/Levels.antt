-- ===== src/Risk/Levels.antt =====
-- packages/risk/levels.py: stop-loss, take-profit and estimated liquidation prices.
use quantbot.Prelude.{if◌then◌else◌}
use quantbot.Core.Enums.{PositionSide, long, short}
use quantbot.Number.{Number, num, ◌⊕◌, ◌⊖◌, ◌⊗◌, ◌⊘◌, ◌<=◌}

module _ {D : Type 0} ⦃d : Number D⦄ where
  unfoldable pub stop_loss_price : D → D → D → PositionSide → D
  stop_loss_price entry atr stop_atr long = entry ⊖ atr ⊗ stop_atr
  stop_loss_price entry atr stop_atr short = entry ⊕ atr ⊗ stop_atr

  unfoldable pub take_profit_price : D → D → PositionSide → D → D
  take_profit_price entry stop_loss long take_profit_r = entry ⊕ (entry ⊖ stop_loss) ⊗ take_profit_r
  take_profit_price entry stop_loss short take_profit_r =
      entry ⊖ (stop_loss ⊖ entry) ⊗ take_profit_r

  abbrev liq_factor : D → PositionSide → D
  liq_factor inv long = num 1 ⊖ inv ⊕ d.dec 5 3
  liq_factor inv short = num 1 ⊕ inv ⊖ d.dec 5 3

  -- The maintenance margin rate is the source's default, `Decimal("0.005")`.
  unfoldable pub estimate_liq_price : D → D → PositionSide → D
  estimate_liq_price entry leverage side =
      let lev = if leverage <= num 0 then num 1 else leverage in
      entry ⊗ liq_factor (num 1 ⊘ lev) side
