-- ===== src/Positions/Trailing/Tests.antt =====
-- A long position whose stop follows the price, and the theorems there.
use quantbot.Prelude.{◌≡◌, refl, true, false, none, some, List, [], ◌∷◌}
use quantbot.Core.Enums.{long, PositionStatus, PositionSource}
use quantbot.Core.Models.{Position}
use quantbot.Number.{min_of, max_of}
use quantbot.Number.Fraction.{Fraction, frac, dec, fraction_number}
use quantbot.Number.Fraction.Ordered.{Fraction-IsOrdered}
use quantbot.Positions.Trailing.{
  TrailingConfig, Tick, update_extremes, trail_stop, effective_stop, ratchet, update_allowed, trail,
  follow,
}
use quantbot.Positions.Trailing.Ratchet.{NoLooser, follow_never_loosens, trail_is_effective_stop}

abbrev settings : TrailingConfig Fraction
settings = record {
  trailing_mult = dec 2 0;
  trailing_ext_after_r = dec 3 0;
  trailing_ext_mult = dec 3 0;
  min_trailing_update_interval_sec = 30;
  min_trailing_improvement_atr = dec 2 1;
}

abbrev position : Position Fraction
position = record {
  symbol = 7;
  side = long;
  status = PositionStatus.active;
  source = PositionSource.bot;
  qty = dec 3 0;
  avg_entry_price = dec 100 0;
  manual_added_qty = dec 0 0;
  leverage = dec 2 0;
  stop_loss_price = some (dec 97 0);
  take_profit_price = none;
  initial_risk_per_unit = some (dec 3 0);
  liq_price = none;
  realized_pnl = dec 0 0;
  unrealized_pnl = dec 0 0;
  fees_paid = dec 0 0;
  highest_price = none;
  lowest_price = none;
  partial_tp_done = false;
  trailing_active = true;
  runner_mode_active = false;
  runner_trailing_atr_multiplier = none;
  last_runner_trailing_update_at = none;
  last_runner_trailing_stop = none;
  closed_at = false;
  exit_reason = none;
}

-- The price rises to 106 and falls back to 101, with an ATR of 1.
abbrev ticks : List (Tick Fraction)
ticks =
    record { high = dec 103 0; low = dec 100 0; atr = dec 1 0; max_r = dec 1 0; now = 60 }
    ∷ record { high = dec 106 0; low = dec 102 0; atr = dec 1 0; max_r = dec 2 0; now = 120 }
    ∷ record { high = dec 102 0; low = dec 101 0; atr = dec 1 0; max_r = dec 2 0; now = 180 }
    ∷ []

-- The stop stays two ATR below the highest price.
stop_at_104 : (follow settings ticks position).stop_loss_price ≡ some (frac 106 2 0)
unfolding follow trail update_extremes trail_stop ratchet update_allowed max_of min_of
stop_at_104 = refl

follow_never_loosens_example :
    (next : Fraction) × ((follow settings ticks position).stop_loss_price ≡ some next)
    × NoLooser long (dec 97 0) next
follow_never_loosens_example =
    follow_never_loosens Fraction-IsOrdered settings ticks position (dec 97 0) refl

trail_is_effective_stop_example :
    (trail settings (dec 1 0) (dec 2 0) 60 position).stop_loss_price
    ≡ some (effective_stop position (trail_stop settings (dec 1 0) (dec 2 0) position))
trail_is_effective_stop_example =
    trail_is_effective_stop settings (dec 1 0) (dec 2 0) 60 position refl refl
