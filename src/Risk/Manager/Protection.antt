-- ===== src/Risk/Manager/Protection.antt =====
-- Where the stop and the liquidation price of an approved order lie.
use quantbot.Prelude.{◌≡◌, true, false, arith}
use quantbot.Core.Enums.{PositionSide, long, short}
use quantbot.Number.{Number, num, ◌≼◌, ◌≺◌}
use quantbot.Number.Laws.{IsOrdered, IsStepped, le_of_lt}
use quantbot.Risk.Levels.{stop_loss_price}
use quantbot.Risk.Stops.{select_stop}
use quantbot.Risk.Stops.Sides.{
  Beyond, BeyondAny, Beyond-trans, BeyondAny-trans, StrictlyBeyond, round_stop_to_tick-Beyond,
  select_stop-Beyond,
}
use quantbot.Risk.Result.{ok}
use quantbot.Risk.Manager.{
  Request, Approval, side, atr_stop, structure_stop, min_distance_stop, selected_stop, check_market,
  check_liquidation, liq_inside_stop, approval, approve,
}
use quantbot.Risk.Manager.Inversion.{approve-Passed}

module _ {D : Type 0} ⦃d : Number D⦄ (laws : IsOrdered D) where
  stop_loss_price-Beyond :
      (entry atr stop_atr : D) (side : PositionSide)
      → num 0 ≼ atr
      → num 0 ≼ stop_atr
      → Beyond side (stop_loss_price entry atr stop_atr side) entry
  unfolding stop_loss_price
  stop_loss_price-Beyond entry atr stop_atr long h k =
      laws.sub_le entry _ (laws.mul_nonneg atr stop_atr h k)
  stop_loss_price-Beyond entry atr stop_atr short h k =
      laws.le_add entry _ (laws.mul_nonneg atr stop_atr h k)

  outside-StrictlyBeyond :
      (side : PositionSide) (liq stop : D)
      → liq_inside_stop side liq stop ≡ false
      → StrictlyBeyond side liq stop
  unfolding liq_inside_stop
  outside-StrictlyBeyond long liq stop h = h
  outside-StrictlyBeyond short liq stop h = h

  module _ (q : Request D) where
    selected_stop-Beyond :
        Beyond (side q) (selected_stop q) (atr_stop q)
        × BeyondAny (side q) (selected_stop q) (structure_stop q)
        × BeyondAny (side q) (selected_stop q) (min_distance_stop q)
    unfolding selected_stop
    selected_stop-Beyond =
        let inner = select_stop (side q) (atr_stop q) (structure_stop q) in
        let first = select_stop-Beyond laws (side q) (atr_stop q) (structure_stop q) in
        let last = select_stop-Beyond laws (side q) inner (min_distance_stop q) in
        (
          Beyond-trans laws (side q) _ inner (atr_stop q) last.0 first.0,
          BeyondAny-trans laws (side q) _ inner (structure_stop q) last.0 first.1,
          last.1,
        )

    atr_stop-Beyond :
        (steps : IsStepped D)
        → num 0 ≺ q.atr
        → num 0 ≼ q.decision.stop_atr
        → Beyond (side q) (atr_stop q) q.entry_price
    unfolding atr_stop
    atr_stop-Beyond steps h k =
        let raw = stop_loss_price q.entry_price q.atr q.decision.stop_atr (side q) in
        Beyond-trans laws (side q) _ raw q.entry_price
          (round_stop_to_tick-Beyond laws steps raw (side q) q.meta.tick_size)
          (stop_loss_price-Beyond q.entry_price q.atr q.decision.stop_atr (side q)
            (le_of_lt laws (num 0) q.atr h) k)

    check_market_pos : check_market q ≡ ok tt → (num 0 ≺ q.atr) × (num 0 ≺ q.entry_price)
    unfolding check_market
    check_market_pos h = ground arith

    check_liquidation_outside :
        (liq : D)
        → check_liquidation q liq ≡ ok tt
        → q.cfg.liquidation_guard.block_if_liq_price_inside_stop ≡ true
        → liq_inside_stop (side q) liq (selected_stop q) ≡ false
    unfolding check_liquidation
    check_liquidation_outside liq h on = ground arith

    -- Over ordered numbers whose rounding to a tick does not pass the price, and with a stop distance
    -- in ATR that is not negative, the stop of an approved order lies on the losing side of the
    -- entry, no nearer than the ATR stop, the structure stop and the stop at the minimum distance,
    -- and where the guard is on the estimated liquidation price lies strictly behind it.
    pub approved_stop :
        (steps : IsStepped D) (a : Approval D)
        → approve q ≡ ok a
        → num 0 ≼ q.decision.stop_atr
        → Beyond a.side a.stop_loss_price q.entry_price
          × Beyond a.side a.stop_loss_price (atr_stop q)
          × BeyondAny a.side a.stop_loss_price (structure_stop q)
          × BeyondAny a.side a.stop_loss_price (min_distance_stop q)
          × (q.cfg.liquidation_guard.block_if_liq_price_inside_stop ≡ true
              → StrictlyBeyond a.side a.liq_price a.stop_loss_price)
    unfolding approval
    approved_stop steps a h k =
        let passed = approve-Passed q a h in
        let beyond = selected_stop-Beyond in
        let pos = check_market_pos passed.market in
        let atr_side = atr_stop-Beyond steps pos.0 k in
        rw passed.result (
          Beyond-trans laws (side q) (selected_stop q) (atr_stop q) q.entry_price beyond.0 atr_side,
          beyond.0,
          beyond.1,
          beyond.2,
          λ on.
              outside-StrictlyBeyond (side q) _ (selected_stop q)
                (check_liquidation_outside _ passed.liquidation on),
        )
