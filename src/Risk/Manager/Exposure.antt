-- ===== src/Risk/Manager/Exposure.antt =====
-- How much an approved order stakes: its leverage, its size, and its share of the open risk.
use quantbot.Prelude.{◌≡◌, refl, ◌≤◌, Option, none, some, List, [], ◌∷◌, ◌++◌, arith}
use quantbot.Core.Models.{Position}
use quantbot.Number.{Number, num, ◌⊕◌, ◌⊗◌, ◌⊘◌, ◌≼◌, max_of}
use quantbot.Number.Laws.{IsOrdered, min_of-le_left, le-max_of_left, max_of-le}
use quantbot.Risk.Leverage.{base_cap}
use quantbot.Risk.Leverage.Bounds.{max_leverage_bounds, choose_leverage_bounds}
use quantbot.Risk.Sizing.{SizingResult}
use quantbot.Risk.Result.{ok}
use quantbot.Risk.Manager.{
  Request, Approval, thin_stop_leverage_cap, atr_percent, high_quality, lowered, policy_leverage,
  leverage_cap, leverage_for, position_risk, sum_risk, check_exposure, approval, approve,
}
use quantbot.Risk.Manager.Inversion.{approve-Passed}

module _ {D : Type 0} ⦃d : Number D⦄ where
  sum_risk-append :
      (acc : D) (ps : List (Position D)) (p : Position D)
      → sum_risk acc (ps ++ (p ∷ [])) ≡ sum_risk acc ps ⊕ position_risk p
  sum_risk-append acc [] p = refl
  sum_risk-append acc (o ∷ ps) p = sum_risk-append (acc ⊕ position_risk o) ps p

  module _ (q : Request D) where
    open q use {cfg, ctx}

    check_exposure_total :
        (risk : D)
        → check_exposure q risk ≡ ok tt
        → (sum_risk (num 0) ctx.open_positions ⊕ risk) ⊘ ctx.equity ⊗ num 100
          ≼ cfg.risk.max_total_open_risk_percent
    unfolding check_exposure
    check_exposure_total risk h = ground arith

    check_exposure_symbol :
        (risk : D)
        → check_exposure q risk ≡ ok tt
        → risk ⊘ ctx.equity ⊗ num 100 ≼ cfg.risk.max_symbol_risk_percent
    unfolding check_exposure
    check_exposure_symbol risk h = ground arith

    -- When a position that risks the approved amount is added, the summed open risk, and the risk
    -- of that position, are within their configured shares of the equity.
    pub approved_risk_share :
        (a : Approval D) (p : Position D)
        → approve q ≡ ok a
        → position_risk p ≡ a.risk_usdt
        → (sum_risk (num 0) (ctx.open_positions ++ (p ∷ [])) ⊘ ctx.equity ⊗ num 100
            ≼ cfg.risk.max_total_open_risk_percent)
          × (position_risk p ⊘ ctx.equity ⊗ num 100 ≼ cfg.risk.max_symbol_risk_percent)
    unfolding approval
    approved_risk_share a p h e =
        let passed = approve-Passed q a h in
        let same : position_risk p ≡ passed.size.risk_usdt = cc (passed.result) in
        (
          rw (sum_risk-append (num 0) ctx.open_positions p, same)
              (check_exposure_total _ passed.exposure),
          rw same (check_exposure_symbol _ passed.exposure),
        )

module _ {D : Type 0} ⦃d : Number D⦄ (laws : IsOrdered D) (q : Request D) where
  open q use {cfg, decision, entry_price, atr, ctx}

  lowered-le : (limit : Option D) (lev : D) → lowered limit lev ≼ lev
  lowered-le none lev = laws.le_refl lev
  lowered-le (some limit) lev = min_of-le_left laws lev limit

  leverage_cap-le : leverage_cap q ≼ policy_leverage q
  unfolding leverage_cap
  leverage_cap-le = lowered-le (thin_stop_leverage_cap cfg _) (policy_leverage q)

  leverage_for-least : (s : SizingResult D) → num cfg.risk.min_leverage ≼ leverage_for q s
  unfolding leverage_for
  leverage_for-least s = (choose_leverage_bounds laws s.notional ctx.equity (leverage_cap q) _).0

  leverage_for-le :
      (s : SizingResult D) (x : D)
      → policy_leverage q ≼ max_of (num cfg.risk.min_leverage) x
      → leverage_for q s ≼ max_of (num cfg.risk.min_leverage) x
  unfolding leverage_for
  leverage_for-le s x h =
      let least = num cfg.risk.min_leverage in
      let bounds = choose_leverage_bounds laws s.notional ctx.equity (leverage_cap q) least in
      laws.le_trans _ _ _ bounds.1 (
        max_of-le laws least (leverage_cap q) (max_of least x) (le-max_of_left laws least x)
          (laws.le_trans _ _ _ leverage_cap-le h))

  -- Over ordered numbers the leverage of an approved order is at least the configured minimum, and
  -- otherwise no rule is exceeded that applies: the cap of the entry mode, of a losing streak, and
  -- of a losing day.
  pub approved_leverage :
      (a : Approval D)
      → approve q ≡ ok a
      → let least : D = num cfg.risk.min_leverage in
        (least ≼ a.leverage)
        × (a.leverage ≼ max_of least (base_cap cfg.risk decision.entry_mode (high_quality q)))
        × (cfg.risk.consecutive_loss_derisk_count ≤ ctx.consecutive_losses
            → a.leverage ≼ max_of least (num cfg.risk.consecutive_loss_max_leverage))
        × (cfg.risk.daily_loss_derisk_percent ≼ ctx.daily_loss_percent
            → a.leverage ≼ max_of least (num cfg.risk.daily_loss_max_leverage))
  unfolding approval
  approved_leverage a h =
      let passed = approve-Passed q a h in
      let s = passed.size in
      let bounds =
        max_leverage_bounds laws cfg.risk decision.entry_mode (atr_percent atr entry_price)
          ctx.consecutive_losses ctx.daily_loss_percent (high_quality q) in
      rw passed.result (
        leverage_for-least s,
        leverage_for-le s _ bounds.1,
        λ losing. leverage_for-le s _ (bounds.3 losing),
        λ losing. leverage_for-le s _ (bounds.4 losing),
      )
