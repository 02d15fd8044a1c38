-- ===== src/Risk/Manager/Portfolio.antt =====
-- The configured limits on the portfolio.
use quantbot.Prelude.{ℕ, ◌≤◌, ◌<◌, ◌≡◌, false, ◌==◌, any, count_if, length, List, [], ◌∷◌, arith}
use quantbot.Core.Enums.{PositionSide, long, short, same_side}
use quantbot.Core.Models.{Position}
use quantbot.Config.{RiskConfig}
use quantbot.Number.{Number}
use quantbot.Risk.Result.{ok}
use quantbot.Risk.Manager.{Request, Approval, side, check_account, approval, approve}
use quantbot.Risk.Manager.Inversion.{approve-Passed}

module _ {D : Type 0} where
  -- No symbol is held twice.
  abbrev pub Distinct : List (Position D) → Type 0
  Distinct [] = Unit {0}
  Distinct (p ∷ ps) = (any (λ o. o.symbol == p.symbol) ps ≡ false) × Distinct ps

  abbrev pub count_side : PositionSide → List (Position D) → ℕ
  count_side s = count_if (λ p. same_side p.side s)

  -- The limits of the configuration on the open positions.
  pub record WithinLimits (cfg : RiskConfig D) (ps : List (Position D)) : Type 0 where
    pub few : length ps ≤ cfg.max_active_positions
    pub distinct : Distinct ps
    pub longs : count_side long ps ≤ cfg.risk.max_same_direction_positions
    pub shorts : count_side short ps ≤ cfg.risk.max_same_direction_positions

  -- There is room for one more on the side `t`, so every side stays within the limit.
  count-cons :
      (s t : PositionSide) (p : Position D) (ps : List (Position D)) {most : ℕ}
      → p.side ≡ t
      → count_side t ps < most
      → count_side s ps ≤ most
      → count_side s (p ∷ ps) ≤ most
  count-cons long long p ps e room w = ground arith
  count-cons long short p ps e room w = ground arith
  count-cons short long p ps e room w = ground arith
  count-cons short short p ps e room w = ground arith

module _ {D : Type 0} ⦃d : Number D⦄ (q : Request D) where
  open q use {cfg, decision, ctx}

  record Room : Type 0 where
    few : length ctx.open_positions < cfg.max_active_positions
    fresh : any (λ p. p.symbol == decision.symbol) ctx.open_positions ≡ false
    same : count_side (side q) ctx.open_positions < cfg.risk.max_same_direction_positions

  check_account-Room : check_account q ≡ ok tt → Room
  unfolding check_account
  check_account-Room h = ground arith

  -- When a position on the approved symbol and side is added to a portfolio that is within the
  -- limits on the number of positions, on one position a symbol, and on each direction, the
  -- portfolio is still within them.
  pub approved_keeps_limits :
      (a : Approval D) (p : Position D)
      → approve q ≡ ok a
      → p.symbol ≡ decision.symbol
      → p.side ≡ a.side
      → WithinLimits cfg ctx.open_positions
      → WithinLimits cfg (p ∷ ctx.open_positions)
  unfolding approval
  approved_keeps_limits a p h sym dir w =
      let passed = approve-Passed q a h in
      let room = check_account-Room passed.account in
      let facing : p.side ≡ side q = cc (passed.result) in
      record {
        few = room.few;
        distinct = (rw sym room.fresh, w.distinct);
        longs = count-cons long (side q) p ctx.open_positions facing room.same w.longs;
        shorts = count-cons short (side q) p ctx.open_positions facing room.same w.shorts;
      }
