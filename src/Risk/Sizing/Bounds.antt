-- ===== src/Risk/Sizing/Bounds.antt =====
-- The bounds of a computed size.
use quantbot.Prelude.{◌≡◌, refl, Option, none, some, arith}
use quantbot.Number.{Number, num, ◌⊖◌, ◌⊗◌, ◌⊘◌, ◌≼◌, ◌≺◌, abs_of}
use quantbot.Number.Laws.{IsOrdered, le_of_lt}
use quantbot.Universe.{round_qty_down}
use quantbot.Universe.Rounding.{in_steps, round_qty_down-le, round_qty_down_nonneg}
use quantbot.Risk.Result.{ok}
use quantbot.Risk.Sizing.{SizingResult, raise_to, cut_to, risk_notional, compute_size}

module _ {D : Type 0} ⦃d : Number D⦄ (laws : IsOrdered D) where
  -- A limit is kept, and cutting never raises.
  cut_to-le_cap : (limit n : D) → cut_to (some limit) n ≼ limit
  cut_to-le_cap limit n = ground (arith, laws.le_refl limit)

  cut_to-le : (limit : Option D) (n : D) → cut_to limit n ≼ n
  cut_to-le none n = laws.le_refl n
  cut_to-le (some limit) n = ground (arith, laws.le_refl n, le_of_lt laws limit n)

  cut_to_nonneg : (limit n : D) → num 0 ≼ limit → num 0 ≼ n → num 0 ≼ cut_to (some limit) n
  cut_to_nonneg limit n h k = ground arith

  raise_to_nonneg : (target : Option D) (n : D) → num 0 ≼ n → num 0 ≼ raise_to target n
  raise_to_nonneg none n h = h
  raise_to_nonneg (some t) n h = ground (arith, le_of_lt laws n t, laws.le_trans (num 0) n t h)

  risk_notional_nonneg :
      (equity risk_percent fraction entry distance : D)
      → num 0 ≼ equity
      → num 0 ≼ risk_percent
      → num 0 ≼ fraction
      → num 0 ≺ entry
      → num 0 ≺ distance
      → num 0 ≼ risk_notional equity risk_percent fraction entry distance
  unfolding risk_notional
  risk_notional_nonneg equity risk_percent fraction entry distance a b c e f =
      let hundred = laws.num_lt 0 100 (omega arith) in
      laws.div_nonneg _ _
        (laws.mul_nonneg _ _ (laws.div_nonneg _ _ (laws.mul_nonneg _ _ a b) hundred) c)
        (laws.div_pos distance entry f e)

  -- Over ordered numbers, with an equity, a risk, a fraction and a limit that are not negative and
  -- a positive entry price away from the stop, a size is always computed: its quantity is never
  -- negative, and no more than the limit over the entry price, nor than the notional of the risk
  -- budget or the target over the entry price, where both quotients are divided by a positive step
  -- and multiplied by it again, as rounded; its notional and its risk are the products of that
  -- quantity with the entry price and with the distance to the stop.
  pub compute_size_bounds :
      (equity risk_percent fraction entry stop qty_step limit : D) (target : Option D)
      → num 0 ≼ equity
      → num 0 ≼ risk_percent
      → num 0 ≼ fraction
      → num 0 ≼ limit
      → num 0 ≺ entry
      → num 0 ≺ abs_of (entry ⊖ stop)
      → let distance = abs_of (entry ⊖ stop) in
        (s : SizingResult D) × (compute_size equity risk_percent fraction entry stop qty_step
            (some limit)
            target
          ≡ ok s)
        × (num 0 ≼ s.qty)
        × (s.qty ≼ in_steps (limit ⊘ entry) qty_step)
        × (s.qty
            ≼ in_steps
                (raise_to target (risk_notional equity risk_percent fraction entry distance)
                  ⊘ entry)
                qty_step)
        × (s.notional ≡ s.qty ⊗ entry)
        × (s.risk_usdt ≡ s.qty ⊗ distance)
  unfolding compute_size
  compute_size_bounds equity risk_percent fraction entry stop qty_step limit target a b c g e f =
      let distance = abs_of (entry ⊖ stop) in
      let wanted = raise_to target (risk_notional equity risk_percent fraction entry distance) in
      let wanted_nonneg =
        raise_to_nonneg target _
          (risk_notional_nonneg equity risk_percent fraction entry distance a b c e f) in
      let notional = cut_to (some limit) wanted in
      let raw_nonneg = laws.div_nonneg _ entry (cut_to_nonneg limit wanted g wanted_nonneg) e in
      let rounded = round_qty_down-le laws (notional ⊘ entry) qty_step raw_nonneg in
      let qty = round_qty_down (notional ⊘ entry) qty_step in
      (
        record {
          qty = qty;
          notional = qty ⊗ entry;
          stop_distance_percent = distance ⊘ entry;
          risk_usdt = qty ⊗ distance;
        },
        rw (e, f),
        round_qty_down_nonneg laws (notional ⊘ entry) qty_step raw_nonneg,
        rounded (limit ⊘ entry) (laws.div_mono _ _ entry e (cut_to-le_cap limit wanted)),
        rounded (wanted ⊘ entry) (laws.div_mono _ _ entry e (cut_to-le (some limit) wanted)),
        refl,
        refl,
      )
