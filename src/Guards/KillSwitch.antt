-- ===== src/Guards/KillSwitch.antt =====
-- packages/guards/global_kill_switch.py: counters over rolling windows that trip a latch. A reading
-- of the clock is in milliseconds; a reading before the recorded one counts as no time passed, which
-- gives the same comparisons as a negative difference.
pub mod Window
pub mod Latch
mod Tests
use quantbot.Prelude.{
  ℕ, ◌+◌, ◌-◌, Bool, ltb, leb, if◌then◌else◌, is_some, Option, none, some, List, [], ◌∷◌, ◌++◌,
  length,
}
use quantbot.Number.{Number, num, ◌<=◌}

pub record GlobalKillSwitchSection (D : Type 0) : Type 0 where
  pub daily_loss_percent : D
  pub intraday_drawdown_percent : D
  pub consecutive_losses : ℕ
  pub order_failures_in_5min : ℕ
  pub websocket_disconnects_in_10min : ℕ
  pub unexpected_position_mismatch_count : ℕ
  pub emergency_close_failure_count : ℕ
  pub max_slippage_percent_breach_count : ℕ

pub data TripReason : Type 0 where
  daily_loss : TripReason
  intraday_drawdown : TripReason
  consecutive_losses : TripReason
  order_failures : TripReason
  websocket_disconnects : TripReason
  position_mismatch : TripReason
  emergency_close_failure : TripReason
  slippage_breach : TripReason

abbrev pub five_min : ℕ
five_min = 300000

abbrev pub ten_min : ℕ
ten_min = 600000

pub record GlobalKillSwitch (D : Type 0) : Type 0 where
  pub cfg : GlobalKillSwitchSection D
  pub order_failures : List ℕ
  pub ws_disconnects : List ℕ
  pub consecutive_losses : ℕ
  pub position_mismatches : ℕ
  pub emergency_close_failures : ℕ
  pub slippage_breaches : ℕ
  pub daily_loss_percent : D
  pub intraday_drawdown_percent : D
  pub tripped_reason : Option TripReason

-- `while times and now - times[0] > window: times.popleft()`
abbrev pub pop_old : ℕ → ℕ → List ℕ → List ℕ
pop_old now window [] = []
pop_old now window (t ∷ ts) =
    let rest = pop_old now window ts in if ltb window (now - t) then rest else t ∷ ts

-- The first reason whose test holds.
abbrev pub first_tripped : List (Bool × TripReason) → Option TripReason
first_tripped [] = none
first_tripped ((tripped, reason) ∷ checks) =
    let rest = first_tripped checks in if tripped then some reason else rest

module _ {D : Type 0} ⦃d : Number D⦄ where
  unfoldable pub new : GlobalKillSwitchSection D → GlobalKillSwitch D
  new cfg = record {
    cfg = cfg;
    order_failures = [];
    ws_disconnects = [];
    consecutive_losses = 0;
    position_mismatches = 0;
    emergency_close_failures = 0;
    slippage_breaches = 0;
    daily_loss_percent = num 0;
    intraday_drawdown_percent = num 0;
    tripped_reason = none;
  }

  unfoldable pub record_order_failure : ℕ → GlobalKillSwitch D → GlobalKillSwitch D
  record_order_failure now s = record s { order_failures = s.order_failures ++ (now ∷ []) }

  unfoldable pub record_ws_disconnect : ℕ → GlobalKillSwitch D → GlobalKillSwitch D
  record_ws_disconnect now s = record s { ws_disconnects = s.ws_disconnects ++ (now ∷ []) }

  unfoldable pub record_position_mismatch : GlobalKillSwitch D → GlobalKillSwitch D
  record_position_mismatch s = record s { position_mismatches = s.position_mismatches + 1 }

  unfoldable pub record_emergency_close_failure : GlobalKillSwitch D → GlobalKillSwitch D
  record_emergency_close_failure s = record s {
    emergency_close_failures = s.emergency_close_failures + 1;
  }

  unfoldable pub record_slippage_breach : GlobalKillSwitch D → GlobalKillSwitch D
  record_slippage_breach s = record s { slippage_breaches = s.slippage_breaches + 1 }

  unfoldable pub record_trade_result : Bool → GlobalKillSwitch D → GlobalKillSwitch D
  record_trade_result is_win s = record s {
    consecutive_losses = if is_win then 0 else s.consecutive_losses + 1;
  }

  unfoldable pub update_pnl : D → D → GlobalKillSwitch D → GlobalKillSwitch D
  update_pnl loss drawdown s = record s {
    daily_loss_percent = loss;
    intraday_drawdown_percent = drawdown;
  }

  unfoldable pub prune : ℕ → GlobalKillSwitch D → GlobalKillSwitch D
  prune now s = record s {
    order_failures = pop_old now five_min s.order_failures;
    ws_disconnects = pop_old now ten_min s.ws_disconnects;
  }

  -- The tests, in the order in which they are tried.
  abbrev pub checks : GlobalKillSwitch D → List (Bool × TripReason)
  checks s =
      (s.cfg.daily_loss_percent <= s.daily_loss_percent, TripReason.daily_loss)
      ∷ (s.cfg.intraday_drawdown_percent <= s.intraday_drawdown_percent, intraday_drawdown)
      ∷ (leb s.cfg.consecutive_losses s.consecutive_losses, TripReason.consecutive_losses)
      ∷ (leb s.cfg.order_failures_in_5min (length s.order_failures), TripReason.order_failures)
      ∷ (leb s.cfg.websocket_disconnects_in_10min (length s.ws_disconnects), websocket_disconnects)
      ∷ (leb s.cfg.unexpected_position_mismatch_count s.position_mismatches, position_mismatch)
      ∷ (
        leb s.cfg.emergency_close_failure_count s.emergency_close_failures,
        emergency_close_failure,
      )
      ∷ (leb s.cfg.max_slippage_percent_breach_count s.slippage_breaches, slippage_breach)
      ∷ []

  abbrev pub latched :
      GlobalKillSwitch D → Option TripReason → Option TripReason × GlobalKillSwitch D
  latched p none = (none, p)
  latched p (some reason) = (some reason, record p { tripped_reason = some reason })

  unfoldable pub evaluate : ℕ → GlobalKillSwitch D → Option TripReason × GlobalKillSwitch D
  unfolding prune
  evaluate now s = elim s.tripped_reason [
    | some reason ↦ (some reason, s)
    | none ↦ latched (prune now s) (first_tripped (checks (prune now s)))
  ]

  unfoldable pub tripped : ℕ → GlobalKillSwitch D → Bool × GlobalKillSwitch D
  tripped now s = let outcome = evaluate now s in (is_some outcome.0, outcome.1)

  unfoldable pub reset : GlobalKillSwitch D → GlobalKillSwitch D
  reset s = new s.cfg

-- One call of the switch, `snapshot` being the pruning that it does.
pub data Op (D : Type 0) : Type 0 where
  order_failure : Op D
  ws_disconnect : Op D
  mismatch : Op D
  close_failure : Op D
  breach : Op D
  trade_result : Bool → Op D
  pnl : D → D → Op D
  evaluation : Op D
  snapshot : Op D

module _ {D : Type 0} ⦃d : Number D⦄ where
  unfoldable pub apply : ℕ → Op D → GlobalKillSwitch D → GlobalKillSwitch D
  apply now order_failure s = record_order_failure now s
  apply now ws_disconnect s = record_ws_disconnect now s
  apply now mismatch s = record_position_mismatch s
  apply now close_failure s = record_emergency_close_failure s
  apply now breach s = record_slippage_breach s
  apply now (trade_result is_win) s = record_trade_result is_win s
  apply now (pnl loss drawdown) s = update_pnl loss drawdown s
  apply now evaluation s = (evaluate now s).1
  apply now snapshot s = prune now s

  -- Calls with the clock reading of each.
  unfoldable pub run : List (ℕ × Op D) → GlobalKillSwitch D → GlobalKillSwitch D
  run [] s = s
  run ((now, op) ∷ ops) s = run ops (apply now op s)
