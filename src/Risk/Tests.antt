-- ===== src/Risk/Tests.antt =====
-- The risk manager at the sample order, and its theorems there.
mod Sample
use Prim.Native.Nat.{ℕ}
use quantbot.Prelude.{
  ◌≤◌, ◌≡◌, refl, Bool, true, false, Option, none, some, List, [], ◌∷◌, ◌++◌, arith,
}
use quantbot.Core.Enums.{
  PositionSide, long, short, EntryMode, pre_breakout_scout, breakout_confirm, retest_confirm,
  to_long, active, bot,
}
use quantbot.Core.Models.{SymbolMeta, Position}
use quantbot.Config.{RiskConfig}
use quantbot.Number.{Number, num, ◌⊖◌, ◌⊗◌, ◌⊘◌, ◌≼◌, ◌≺◌, abs_of, min_of, max_of}
use quantbot.Number.Fraction.{Fraction, frac, dec, fraction_number}
use quantbot.Number.Fraction.Ordered.{Fraction-IsOrdered, Fraction-IsStepped}
use quantbot.Universe.{round_qty_down, round_price_to_tick, meets_min_qty, meets_min_notional}
use quantbot.Risk.Result
use quantbot.Risk.Result.{ok, rejected}
use quantbot.Risk.Levels.{stop_loss_price, take_profit_price, estimate_liq_price}
use quantbot.Risk.Leverage.{max_leverage, choose_leverage}
use quantbot.Risk.Sizing.{SizingResult, compute_size, risk_notional, raise_to}
use quantbot.Risk.Stops.{
  round_stop_to_tick, structure_stop_price, structure_stop_enabled, min_distance_stop_price,
  min_stop_distance_percent, min_stop_distance_atr, select_stop, max_stop_distance_atr,
}
use quantbot.Risk.Manager.{
  EntryDecision, RiskContext, Request, Approval, approve, check_market, check_stop, selected_stop,
  atr_stop, structure_stop, min_distance_stop, check_account, sized, target_notional,
  target_notional_percent, high_quality, is_high_quality, leverage_cap, thin_stop_leverage_cap,
  atr_percent, check_minimum, check_exposure, check_liquidation, leverage_for, liq_inside_stop,
  approval, sum_risk, position_risk,
}
use quantbot.Risk.Manager.Portfolio.{WithinLimits, approved_keeps_limits}
use quantbot.Risk.Manager.Protection.{approved_stop}
use quantbot.Risk.Manager.Exposure.{approved_risk_share, approved_leverage}
use quantbot.Risk.Manager.Size.{approved_size}
use quantbot.Risk.Stops.Sides.{BeyondAny}
use quantbot.Risk.Leverage.{base_cap}
use quantbot.Risk.Leverage.Bounds.{max_leverage_bounds, choose_leverage_bounds}
use quantbot.Risk.Sizing.Bounds.{compute_size_bounds}
use quantbot.Universe.Rounding.{in_steps}
use quantbot.Risk.Tests.Sample.{F, risk_section, config, request, granted, bad_day, opened}

-- `approve` with everything open that it calls.
trial : Request F → quantbot.Risk.Result.Result (Approval F)
unfolding approve check_market check_stop selected_stop atr_stop structure_stop min_distance_stop
    stop_loss_price round_stop_to_tick structure_stop_price structure_stop_enabled
    min_distance_stop_price min_stop_distance_percent min_stop_distance_atr select_stop
    max_stop_distance_atr check_account sized compute_size target_notional target_notional_percent
    high_quality is_high_quality leverage_cap thin_stop_leverage_cap max_leverage atr_percent
    round_qty_down check_minimum meets_min_qty meets_min_notional check_exposure check_liquidation
    estimate_liq_price leverage_for choose_leverage liq_inside_stop approval take_profit_price
    round_price_to_tick abs_of min_of max_of
trial q = approve q

-- 108 units at leverage 2, with the stop at 99, the target at 102, liquidation at 50.5.
request-granted : approve request ≡ ok granted
unfolding trial
request-granted = refl

-- On a day that has lost six percent nothing is approved.
bad_day_rejected : approve bad_day ≡ rejected Result.daily_loss_limit
unfolding trial
bad_day_rejected = refl

approved_keeps_limits_example : WithinLimits config (opened ∷ [])
approved_keeps_limits_example =
    approved_keeps_limits request granted opened request-granted refl refl (omega arith)

approved_stop_example :
    (frac 990 0 9 ≼ dec 100 0)
    × (frac 990 0 9 ≼ atr_stop request)
    × BeyondAny long (frac 990 0 9) (structure_stop request)
    × BeyondAny long (frac 990 0 9) (min_distance_stop request)
    × (true ≡ true → frac 201000 100000 1999 ≺ frac 990 0 9)
approved_stop_example =
    approved_stop Fraction-IsOrdered request Fraction-IsStepped granted request-granted refl

approved_risk_share_example :
    (sum_risk (num 0) (opened ∷ []) ⊘ dec 10000 0 ⊗ num 100
      ≼ config.risk.max_total_open_risk_percent)
    × (position_risk opened ⊘ dec 10000 0 ⊗ num 100 ≼ config.risk.max_symbol_risk_percent)
approved_risk_share_example = approved_risk_share request granted opened request-granted refl

approved_leverage_example :
    let least : F = num 1 in
    (least ≼ frac 2 0 0)
    × (frac 2 0 0 ≼ max_of least (base_cap risk_section breakout_confirm (high_quality request)))
    × (2 ≤ 0 → frac 2 0 0 ≼ max_of least (num 3))
    × (dec 3 0 ≼ dec 0 0 → frac 2 0 0 ≼ max_of least (num 2))
approved_leverage_example = approved_leverage Fraction-IsOrdered request granted request-granted

approved_size_example :
    (num 0 ≺ frac 10800 0 99)
    × (dec 1 2 ≼ frac 10800 0 99)
    × (frac 10800 0 99
        ≼ in_steps (dec 10000 0 ⊗ leverage_cap request ⊘ dec 100 0) request.meta.qty_step)
    × (frac 1080000 0 99 ≡ frac 10800 0 99 ⊗ dec 100 0)
    × (frac 10800000 10692000 999 ≡ frac 10800 0 99 ⊗ abs_of (dec 100 0 ⊖ selected_stop request))
approved_size_example =
    approved_size Fraction-IsOrdered request granted request-granted refl refl refl

max_leverage_bounds_example :
    let lev = max_leverage risk_section retest_confirm (dec 4 0) 3 (dec 4 0) false in
    let floor_lev : F = num 1 in
    (floor_lev ≼ lev)
    × (lev ≼ max_of floor_lev (base_cap risk_section retest_confirm false))
    × (dec 35 1 ≺ dec 4 0 → lev ≼ max_of floor_lev (num 5))
    × (2 ≤ 3 → lev ≼ max_of floor_lev (num 3))
    × (dec 3 0 ≼ dec 4 0 → lev ≼ max_of floor_lev (num 2))
max_leverage_bounds_example =
    max_leverage_bounds Fraction-IsOrdered risk_section retest_confirm (dec 4 0) 3 (dec 4 0) false

choose_leverage_bounds_example :
    let needed : F = fraction_number.ceiling (dec 25000 0 ⊘ dec 10000 0) in
    let lev = choose_leverage (dec 25000 0) (dec 10000 0) (dec 9 0) (dec 1 0) in
    (dec 1 0 ≼ lev)
    × (lev ≼ max_of (dec 1 0) (dec 9 0))
    × (lev ≼ max_of (dec 1 0) needed)
    × (num 0 ≺ dec 10000 0 → min_of needed (dec 9 0) ≼ lev)
choose_leverage_bounds_example =
    choose_leverage_bounds Fraction-IsOrdered (dec 25000 0) (dec 10000 0) (dec 9 0) (dec 1 0)

away_from_stop : num 0 ≺ abs_of (dec 100 0 ⊖ dec 98 0)
unfolding abs_of
away_from_stop = refl

compute_size_bounds_example :
    let distance : F = abs_of (dec 100 0 ⊖ dec 98 0) in
    (s : SizingResult F) × (compute_size
        (dec 1000 0)
        (dec 1 0)
        (dec 1 0)
        (dec 100 0)
        (dec 98 0)
        (dec 1 1)
        (some (dec 300 0))
        (some (dec 700 0))
      ≡ ok s)
    × (num 0 ≼ s.qty)
    × (s.qty ≼ in_steps (dec 300 0 ⊘ dec 100 0) (dec 1 1))
    × (s.qty
        ≼ in_steps
            (raise_to
                (some (dec 700 0))
                (risk_notional (dec 1000 0) (dec 1 0) (dec 1 0) (dec 100 0) distance)
              ⊘ dec 100 0)
            (dec 1 1))
    × (s.notional ≡ s.qty ⊗ dec 100 0)
    × (s.risk_usdt ≡ s.qty ⊗ distance)
compute_size_bounds_example =
    compute_size_bounds Fraction-IsOrdered (dec 1000 0) (dec 1 0) (dec 1 0) (dec 100 0) (dec 98 0)
      (dec 1 1) (dec 300 0) (some (dec 700 0)) refl refl refl refl refl away_from_stop
