-- ===== src/Risk/Result.antt =====
-- The ways in which an order is rejected: the codes that packages/risk/risk_manager.py passes to
-- `_reject` or raises as `RiskRejection`, and the chain of checks that stops at the first of them.
use quantbot.Prelude.{Bool, true, false}

pub data Reason : Type 0 where
  invalid_market_data stop_distance_too_narrow stop_distance_too_wide : Reason
  daily_loss_limit intraday_drawdown max_positions symbol_already_open max_same_direction : Reason
  invalid_entry_price zero_stop_distance below_min_qty below_min_notional : Reason
  symbol_risk_exceeded total_risk_exceeded : Reason
  liq_too_close_pct liq_too_close_atr liq_inside_stop : Reason

pub data Result {ℓ} (A : Type ℓ) : Type ℓ where
  ok : A → Result A
  rejected : Reason → Result A

infixl 5 ◌>>=◌ ◌>>◌
abbrev pub ◌>>=◌ {ℓ κ} : {A : Type ℓ} {B : Type κ} → Result A → (A → Result B) → Result B
ok a >>= f = f a
rejected r >>= f = rejected r

abbrev pub ◌>>◌ {ℓ} : {B : Type ℓ} → Result (Unit {0}) → Result B → Result B
m >> k = m >>= λ _. k

-- `if test: return _reject(reason)`
abbrev pub reject_if : Bool → Reason → Result (Unit {0})
reject_if true r = rejected r
reject_if false r = ok tt
