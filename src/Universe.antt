-- ===== src/Universe.antt =====
-- packages/universe/symbol_meta.py: rounding to the exchange's increments, and its minima.
pub mod Rounding
pub mod Manager
use quantbot.Prelude.{Bool, true, ◌&&◌, if◌then◌else◌}
use quantbot.Number.{Number, num, ◌⊗◌, ◌⊘◌, ◌<=◌, ◌<<◌}
use quantbot.Core.Models.{SymbolMeta}

module _ {D : Type 0} ⦃d : Number D⦄ where
  unfoldable pub round_qty_down : D → D → D
  round_qty_down qty step = if step <= num 0 then qty else d.truncate (qty ⊘ step) ⊗ step

  unfoldable pub round_price_to_tick : D → D → D
  round_price_to_tick price tick = if tick <= num 0 then price else d.half_up (price ⊘ tick) ⊗ tick

  unfoldable pub meets_min_qty : D → SymbolMeta D → Bool
  meets_min_qty qty meta = (meta.min_order_qty <= qty) && (num 0 << qty)

  unfoldable pub meets_min_notional : D → D → SymbolMeta D → Bool
  meets_min_notional qty price meta =
      if meta.min_notional <= num 0 then true else meta.min_notional <= (qty ⊗ price)
