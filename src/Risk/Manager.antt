-- ===== src/Risk/Manager.antt =====
-- packages/risk/risk_manager.py: `RiskManager.approve`, the last gate before any order. The stop
-- metadata, which only goes to the logs, is left out.
pub mod Inversion
pub mod Portfolio
pub mod Protection
pub mod Exposure
pub mod Size
use quantbot.Prelude.{
  ℕ, Bool, true, false, not, ◌&&◌, leb, ◌==◌, if◌then◌else◌, any, count_if, length, Option, none,
  some, List, [], ◌∷◌,
}
use quantbot.Core.Enums.{
  PositionSide, long, short, same_side, EntryMode, pre_breakout_scout, breakout_confirm,
  retest_confirm, SignalDirection, to_long,
}
use quantbot.Core.Models.{Symbol, SymbolMeta, Position}
use quantbot.Config.{RiskConfig, TargetNotionalPercentSection}
use quantbot.Number.{Number, num, ◌⊕◌, ◌⊖◌, ◌⊗◌, ◌⊘◌, ◌<=◌, ◌<<◌, abs_of, min_of, max_of}
use quantbot.Universe.{round_price_to_tick, meets_min_qty, meets_min_notional}
use quantbot.Risk.Levels.{stop_loss_price, take_profit_price, estimate_liq_price}
use quantbot.Risk.Leverage.{max_leverage, choose_leverage}
use quantbot.Risk.Sizing.{SizingResult, compute_size}
use quantbot.Risk.Result
use quantbot.Risk.Result.{Reason, Result, ok, ◌>>=◌, ◌>>◌, reject_if}
use quantbot.Risk.Stops.{
  round_stop_to_tick, select_stop, structure_stop_price, min_distance_stop_price,
  max_stop_distance_atr,
}

-- The fields of `EntryDecision` (packages/entry/entry_timing_engine.py) that the manager reads.
pub record EntryDecision (D : Type 0) : Type 0 where
  pub symbol : Symbol
  pub direction : SignalDirection
  pub entry_mode : EntryMode
  pub position_fraction : D
  pub stop_atr : D
  pub score : D
  pub structure_stop_price : Option D
  pub has_compression : Bool

pub record RiskContext (D : Type 0) : Type 0 where
  pub equity : D
  pub open_positions : List (Position D)
  pub daily_loss_percent : D
  pub intraday_drawdown_percent : D
  pub consecutive_losses : ℕ

-- A `RiskDecision` with `approved=True`.
pub record Approval (D : Type 0) : Type 0 where
  pub side : PositionSide
  pub qty : D
  pub leverage : D
  pub notional : D
  pub stop_loss_price : D
  pub take_profit_price : D
  pub liq_price : D
  pub risk_usdt : D

-- Everything that is passed to `approve`, and the manager's configuration.
pub record Request (D : Type 0) : Type 0 where
  pub cfg : RiskConfig D
  pub decision : EntryDecision D
  pub entry_price : D
  pub atr : D
  pub meta : SymbolMeta D
  pub ctx : RiskContext D

abbrev pub side_of : SignalDirection → PositionSide
side_of to_long = long
side_of _ = short

module _ {D : Type 0} ⦃d : Number D⦄ where
  -- `_position_risk`
  abbrev pub position_risk : Position D → D
  position_risk p = elim p.initial_risk_per_unit [ some r ↦ r ⊗ p.qty | none ↦ num 0 ]

  -- Python's `sum(..., Decimal(0))`
  abbrev pub sum_risk : D → List (Position D) → D
  sum_risk acc [] = acc
  sum_risk acc (p ∷ ps) = sum_risk (acc ⊕ position_risk p) ps

  -- `_is_high_quality`
  unfoldable pub is_high_quality : RiskConfig D → D → Bool
  is_high_quality cfg score =
      let c = cfg.risk.target_notional_percent in
      if not c.enabled then false else c.high_quality_min_score <= score

  -- The value that `_target_notional_percent` picks by the entry mode.
  abbrev target_value : TargetNotionalPercentSection D → EntryMode → Bool → D
  target_value c pre_breakout_scout compressed =
      if compressed then c.scout_compression else c.scout_no_compression
  target_value c breakout_confirm compressed = c.breakout_confirm
  target_value c retest_confirm compressed = c.retest_confirm

  -- `_target_notional_percent`
  unfoldable pub target_notional_percent : RiskConfig D → EntryDecision D → Bool → Option D
  target_notional_percent cfg decision high_quality =
      let c = cfg.risk.target_notional_percent in
      let value = target_value c decision.entry_mode decision.has_compression in
      let percent = if high_quality then max_of value c.high_quality else value in
      if not c.enabled then none else if num 0 << percent then some percent else none

  -- `_thin_stop_leverage_cap`
  unfoldable pub thin_stop_leverage_cap : RiskConfig D → D → Option D
  thin_stop_leverage_cap cfg stop_distance_percent =
      let threshold = cfg.risk.thin_stop_distance_percent in
      let limit = cfg.risk.thin_stop_max_leverage in
      if threshold <= num 0
      then none
      else if limit <= num 0
      then none
      else if stop_distance_percent <= threshold
      then some limit
      else none

  -- `if thin_stop_cap is not None: lev_cap = min(lev_cap, thin_stop_cap)`
  abbrev pub lowered : Option D → D → D
  lowered none lev = lev
  lowered (some limit) lev = min_of lev limit

  -- `_atr_percent`
  unfoldable pub atr_percent : D → D → D
  atr_percent atr price = if num 0 << price then atr ⊘ price ⊗ num 100 else num 0

  -- `_liq_inside_stop`
  unfoldable pub liq_inside_stop : PositionSide → D → D → Bool
  liq_inside_stop long liq stop = stop <= liq
  liq_inside_stop short liq stop = liq <= stop

module _ {D : Type 0} ⦃d : Number D⦄ (q : Request D) where
  open q use {cfg, decision, entry_price, atr, meta, ctx}

  abbrev pub side : PositionSide
  side = side_of decision.direction

  unfoldable pub atr_stop : D
  atr_stop =
      round_stop_to_tick (stop_loss_price entry_price atr decision.stop_atr side) side
        meta.tick_size

  unfoldable pub structure_stop : Option D
  structure_stop =
      structure_stop_price cfg decision.structure_stop_price decision.entry_mode side meta.tick_size

  unfoldable pub min_distance_stop : Option D
  min_distance_stop =
      min_distance_stop_price cfg decision.entry_mode entry_price atr side meta.tick_size

  unfoldable pub selected_stop : D
  selected_stop = select_stop side (select_stop side atr_stop structure_stop) min_distance_stop

  unfoldable pub check_market : Result (Unit {0})
  check_market = do
    reject_if (atr <= num 0) Result.invalid_market_data
    reject_if (entry_price <= num 0) Result.invalid_market_data

  -- Stop Distance Guard
  unfoldable pub check_stop : Result (Unit {0})
  check_stop =
      let distance = abs_of (entry_price ⊖ selected_stop) ⊘ atr in
      do
        reject_if (distance << cfg.risk.min_stop_distance_atr) Result.stop_distance_too_narrow
        reject_if (max_stop_distance_atr cfg decision.entry_mode << distance)
            Result.stop_distance_too_wide

  -- Account-level blocks
  unfoldable pub check_account : Result (Unit {0})
  check_account = do
    reject_if (cfg.risk.daily_max_loss_percent <= ctx.daily_loss_percent) Result.daily_loss_limit
    reject_if (cfg.risk.intraday_drawdown_percent <= ctx.intraday_drawdown_percent)
        Result.intraday_drawdown
    reject_if (leb cfg.max_active_positions (length ctx.open_positions)) Result.max_positions
    reject_if (any (λ p. p.symbol == decision.symbol) ctx.open_positions) Result.symbol_already_open
    reject_if
        (leb cfg.risk.max_same_direction_positions
          (count_if (λ p. same_side p.side side) ctx.open_positions))
        Result.max_same_direction

  unfoldable pub high_quality : Bool
  high_quality = is_high_quality cfg decision.score

  abbrev pub policy_leverage : D
  policy_leverage =
      max_leverage cfg.risk decision.entry_mode (atr_percent atr entry_price) ctx.consecutive_losses
        ctx.daily_loss_percent high_quality

  -- The leverage cap, lowered once more for a thin stop.
  unfoldable pub leverage_cap : D
  leverage_cap =
      let percent = abs_of (entry_price ⊖ selected_stop) ⊘ entry_price ⊗ num 100 in
      lowered (thin_stop_leverage_cap cfg percent) policy_leverage

  unfoldable pub target_notional : Option D
  target_notional = elim (target_notional_percent cfg decision high_quality) [
    | some percent ↦ some (ctx.equity ⊗ percent ⊘ num 100)
    | none ↦ none
  ]

  unfoldable pub sized : Result (SizingResult D)
  sized =
      compute_size ctx.equity cfg.risk.account_risk_per_trade_percent decision.position_fraction
        entry_price selected_stop meta.qty_step (some (ctx.equity ⊗ leverage_cap)) target_notional

  unfoldable pub check_minimum : D → Result (Unit {0})
  check_minimum qty = do
    reject_if (not (meets_min_qty qty meta)) Result.below_min_qty
    reject_if (not (meets_min_notional qty entry_price meta)) Result.below_min_notional

  -- Risk exposure limits
  unfoldable pub check_exposure : D → Result (Unit {0})
  check_exposure risk_usdt = do
    reject_if (cfg.risk.max_symbol_risk_percent << (risk_usdt ⊘ ctx.equity ⊗ num 100))
        Result.symbol_risk_exceeded
    reject_if
        (cfg.risk.max_total_open_risk_percent
          << ((sum_risk (num 0) ctx.open_positions ⊕ risk_usdt) ⊘ ctx.equity ⊗ num 100))
        Result.total_risk_exceeded

  -- Liquidation Guard
  unfoldable pub check_liquidation : D → Result (Unit {0})
  check_liquidation liq =
      let guard = cfg.liquidation_guard in
      let distance = abs_of (liq ⊖ entry_price) in
      do
        reject_if ((distance ⊘ entry_price ⊗ num 100) << guard.min_liquidation_distance_percent)
            Result.liq_too_close_pct
        reject_if ((distance ⊘ atr) << guard.min_liquidation_distance_atr) Result.liq_too_close_atr
        reject_if (guard.block_if_liq_price_inside_stop && liq_inside_stop side liq selected_stop)
            Result.liq_inside_stop

  unfoldable pub leverage_for : SizingResult D → D
  leverage_for s = choose_leverage s.notional ctx.equity leverage_cap (num cfg.risk.min_leverage)

  unfoldable pub approval : SizingResult D → Approval D
  approval s = record {
    side = side;
    qty = s.qty;
    leverage = leverage_for s;
    notional = s.notional;
    stop_loss_price = selected_stop;
    take_profit_price =
        round_price_to_tick
          (take_profit_price entry_price selected_stop side cfg.initial_take_profit_r)
          meta.tick_size;
    liq_price = estimate_liq_price entry_price (leverage_for s) side;
    risk_usdt = s.risk_usdt;
  }

  unfoldable pub approve : Result (Approval D)
  approve = do
    check_market
    check_stop
    check_account
    s ← sized
    check_minimum s.qty
    check_exposure s.risk_usdt
    check_liquidation (estimate_liq_price entry_price (leverage_for s) side)
    ok (approval s)
