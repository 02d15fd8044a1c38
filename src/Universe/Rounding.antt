-- ===== src/Universe/Rounding.antt =====
-- Rounding an order size down to whole steps.
use quantbot.Prelude.{if◌then◌else◌, arith}
use quantbot.Number.{Number, num, ◌≼◌, ◌⊗◌, ◌⊘◌, ◌<=◌}
use quantbot.Number.Laws.{IsOrdered, le_of_lt}
use quantbot.Universe.{round_qty_down}

-- A quantity in steps and back: the quantity itself, but for the rounding of these two operations.
abbrev pub in_steps : {D : Type 0} ⦃d : Number D⦄ → D → D → D
in_steps qty step = if step <= num 0 then qty else (qty ⊘ step) ⊗ step

module _ {D : Type 0} ⦃d : Number D⦄ (laws : IsOrdered D) (qty step : D) (h : num 0 ≼ qty) where
  pub round_qty_down-le : (most : D) → qty ≼ most → round_qty_down qty step ≼ in_steps most step
  unfolding round_qty_down
  round_qty_down-le most k = ground (
    arith,
    le_of_lt laws (num 0) step,
    laws.le_trans (d.truncate (qty ⊘ step) ⊗ step) ((qty ⊘ step) ⊗ step) ((most ⊘ step) ⊗ step),
    laws.mul_mono (d.truncate (qty ⊘ step)) (qty ⊘ step) step,
    laws.mul_mono (qty ⊘ step) (most ⊘ step) step,
    laws.truncate_le (qty ⊘ step),
    laws.div_nonneg qty step h,
    laws.div_mono qty most step,
  )

  pub round_qty_down_nonneg : num 0 ≼ round_qty_down qty step
  unfolding round_qty_down
  round_qty_down_nonneg = ground (
    arith,
    le_of_lt laws (num 0) step,
    laws.div_nonneg qty step h,
    laws.truncate_nonneg (qty ⊘ step),
    laws.mul_nonneg (d.truncate (qty ⊘ step)) step,
  )
