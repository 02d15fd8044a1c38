-- ===== src/Risk/Sizing.antt =====
-- packages/risk/position_sizing.py.
pub mod Bounds
use quantbot.Prelude.{Option, none, some, if◌then◌else◌}
use quantbot.Number.{Number, num, ◌⊖◌, ◌⊗◌, ◌⊘◌, ◌<=◌, ◌<<◌, abs_of}
use quantbot.Universe.{round_qty_down}
use quantbot.Risk.Result.{Result, ok, ◌>>◌, reject_if, invalid_entry_price, zero_stop_distance}

pub record SizingResult (D : Type 0) : Type 0 where
  pub qty : D
  pub notional : D
  pub stop_distance_percent : D
  pub risk_usdt : D

module _ {D : Type 0} ⦃d : Number D⦄ where
  -- `if target_notional is not None and target_notional > notional`
  abbrev pub raise_to : Option D → D → D
  raise_to none notional = notional
  raise_to (some target) notional = if notional << target then target else notional

  -- `if max_notional is not None and notional > max_notional`
  abbrev pub cut_to : Option D → D → D
  cut_to none notional = notional
  cut_to (some cap) notional = if cap << notional then cap else notional

  -- The notional that risks the configured share of the equity.
  unfoldable pub risk_notional : D → D → D → D → D → D
  risk_notional equity risk_percent fraction entry distance =
      equity ⊗ risk_percent ⊘ num 100 ⊗ fraction ⊘ (distance ⊘ entry)

  unfoldable pub compute_size :
      (equity risk_percent fraction entry stop qty_step : D)
      (max_notional target_notional : Option D)
      → Result (SizingResult D)
  unfolding risk_notional
  compute_size equity risk_percent fraction entry stop qty_step max_notional target_notional =
      let distance = abs_of (entry ⊖ stop) in
      let wanted =
        raise_to target_notional (risk_notional equity risk_percent fraction entry distance) in
      let notional = cut_to max_notional wanted in
      let qty = round_qty_down (notional ⊘ entry) qty_step in
      reject_if (entry <= num 0) invalid_entry_price
      >> (reject_if (distance <= num 0) zero_stop_distance
          >> ok (record {
            qty = qty;
            notional = qty ⊗ entry;
            stop_distance_percent = distance ⊘ entry;
            risk_usdt = qty ⊗ distance;
          }))
