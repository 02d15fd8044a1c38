-- ===== src/Risk/Manager/Size.antt =====
-- The size of an approved order.
use quantbot.Prelude.{◌≡◌, inl, inr, Option, some, Option-cases, arith}
use quantbot.Number.{Number, num, ◌⊖◌, ◌⊗◌, ◌⊘◌, ◌≼◌, ◌≺◌, abs_of}
use quantbot.Number.Laws.{IsOrdered, le-min_of, le_of_lt}
use quantbot.Universe.{meets_min_qty}
use quantbot.Universe.Rounding.{in_steps}
use quantbot.Risk.Leverage.Bounds.{max_leverage_bounds}
use quantbot.Risk.Sizing.{SizingResult, compute_size}
use quantbot.Risk.Sizing.Bounds.{compute_size_bounds}
use quantbot.Risk.Result.{ok}
use quantbot.Risk.Manager.{
  Request, Approval, selected_stop, thin_stop_leverage_cap, atr_percent, high_quality, lowered,
  policy_leverage, leverage_cap, target_notional, sized, check_market, check_minimum, approval,
  approve,
}
use quantbot.Risk.Manager.Inversion.{approve-Passed}
use quantbot.Config.{RiskConfig}

module _ {D : Type 0} ⦃d : Number D⦄ (laws : IsOrdered D) where
  thin_stop_leverage_cap_pos :
      (cfg : RiskConfig D) (percent : D) {limit : D}
      → thin_stop_leverage_cap cfg percent ≡ some limit
      → num 0 ≺ limit
  unfolding thin_stop_leverage_cap
  thin_stop_leverage_cap_pos cfg percent h = ground arith

  compute_size_distance :
      (equity risk fraction entry stop step : D) (most target : Option D) {s : SizingResult D}
      → compute_size equity risk fraction entry stop step most target ≡ ok s
      → num 0 ≺ abs_of (entry ⊖ stop)
  unfolding compute_size
  compute_size_distance equity risk fraction entry stop step most target h = ground arith

  module _ (q : Request D) where
    open q use {cfg, decision, entry_price, atr, meta, ctx}

    check_market_entry : check_market q ≡ ok tt → num 0 ≺ entry_price
    unfolding check_market
    check_market_entry h = ground arith

    check_minimum_qty :
        (qty : D) → check_minimum q qty ≡ ok tt → (num 0 ≺ qty) × (meta.min_order_qty ≼ qty)
    unfolding check_minimum meets_min_qty
    check_minimum_qty qty h = ground arith

    policy_leverage_nonneg : num 0 ≼ policy_leverage q
    policy_leverage_nonneg =
        laws.le_trans _ (num cfg.risk.min_leverage) _ (laws.num_mono 0 _ (omega arith))
          (max_leverage_bounds laws cfg.risk decision.entry_mode (atr_percent atr entry_price)
            ctx.consecutive_losses ctx.daily_loss_percent (high_quality q)).0

    lowered_nonneg :
        (percent : D) → num 0 ≼ lowered (thin_stop_leverage_cap cfg percent) (policy_leverage q)
    lowered_nonneg percent = elim (Option-cases (thin_stop_leverage_cap cfg percent)) [
      | inl e ↦ rw e policy_leverage_nonneg
      | inr (limit, e) ↦ rw e (
          le-min_of laws (policy_leverage q) limit (num 0) policy_leverage_nonneg
            (le_of_lt laws (num 0) limit (thin_stop_leverage_cap_pos cfg percent e)))
    ]

    leverage_cap_nonneg : num 0 ≼ leverage_cap q
    unfolding leverage_cap
    leverage_cap_nonneg = lowered_nonneg _

    sized_bounds :
        (s : SizingResult D)
        → sized q ≡ ok s
        → num 0 ≺ entry_price
        → num 0 ≼ ctx.equity
        → num 0 ≼ cfg.risk.account_risk_per_trade_percent
        → num 0 ≼ decision.position_fraction
        → (s.qty ≼ in_steps (ctx.equity ⊗ leverage_cap q ⊘ entry_price) meta.qty_step)
          × (s.notional ≡ s.qty ⊗ entry_price)
          × (s.risk_usdt ≡ s.qty ⊗ abs_of (entry_price ⊖ selected_stop q))
    unfolding sized
    sized_bounds s h p e r f =
        let b =
          compute_size_bounds laws ctx.equity cfg.risk.account_risk_per_trade_percent
            decision.position_fraction entry_price (selected_stop q) meta.qty_step
            (ctx.equity ⊗ leverage_cap q) (target_notional q) e r f
            (laws.mul_nonneg _ _ e leverage_cap_nonneg) p
            (compute_size_distance _ _ _ _ _ _ _ _ h) in
        let same : s ≡ b.0 = cc (h, b.1) in rw same (b.3, b.5, b.6)

    -- Over ordered numbers, with equity and percentages that are not negative, an approved quantity
    -- is positive, at least the exchange's minimum, and no more than the equity times the leverage
    -- cap over the entry price, where that quotient is divided by a positive step and multiplied by
    -- it again, as rounded; its notional and its risk are the products of the quantity with the
    -- entry price and with the distance to the selected stop.
    pub approved_size :
        (a : Approval D)
        → approve q ≡ ok a
        → num 0 ≼ ctx.equity
        → num 0 ≼ cfg.risk.account_risk_per_trade_percent
        → num 0 ≼ decision.position_fraction
        → (num 0 ≺ a.qty)
          × (meta.min_order_qty ≼ a.qty)
          × (a.qty ≼ in_steps (ctx.equity ⊗ leverage_cap q ⊘ entry_price) meta.qty_step)
          × (a.notional ≡ a.qty ⊗ entry_price)
          × (a.risk_usdt ≡ a.qty ⊗ abs_of (entry_price ⊖ selected_stop q))
    unfolding approval
    approved_size a h e r f =
        let passed = approve-Passed q a h in
        let least = check_minimum_qty passed.size.qty passed.minimum in
        let bounds =
          sized_bounds passed.size passed.computed (check_market_entry passed.market) e r f in
        rw passed.result (least.0, least.1, bounds.0, bounds.1, bounds.2)
