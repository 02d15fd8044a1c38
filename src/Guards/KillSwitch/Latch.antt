-- ===== src/Guards/KillSwitch/Latch.antt =====
-- What an evaluation answers, and the latch.
use quantbot.Prelude.{◌≡◌, ◌↔◌, refl, ℕ, ◌<◌, none, some, List, [], ◌∷◌, count_if, length, arith}
use quantbot.Number.{Number, ◌≺◌}
use quantbot.Guards.KillSwitch.{
  GlobalKillSwitchSection, GlobalKillSwitch, Op, TripReason, evaluation, five_min, ten_min, new,
  record_order_failure, record_ws_disconnect, record_position_mismatch,
  record_emergency_close_failure, record_slippage_breach, record_trade_result, update_pnl, prune,
  first_tripped, checks, evaluate, apply, run,
}
use quantbot.Guards.KillSwitch.Window.{
  recent, Ascending, failure_times, disconnect_times, windows_count_history,
}

module _ {D : Type 0} ⦃d : Number D⦄ where
  apply-tripped :
      (now : ℕ) (op : Op D) (s : GlobalKillSwitch D) (r : TripReason)
      → s.tripped_reason ≡ some r
      → (apply now op s).tripped_reason ≡ some r
  unfolding apply record_order_failure record_ws_disconnect record_position_mismatch
      record_emergency_close_failure record_slippage_breach record_trade_result update_pnl prune
      evaluate
  apply-tripped now evaluation s r h = ground arith
  apply-tripped now _ s r h = h

  run-tripped :
      (ops : List (ℕ × Op D)) (s : GlobalKillSwitch D) (r : TripReason)
      → s.tripped_reason ≡ some r
      → (run ops s).tripped_reason ≡ some r
  unfolding run
  run-tripped [] s r h = h
  run-tripped ((t, op) ∷ ops) s r h = run-tripped ops (apply t op s) r (apply-tripped t op s r h)

  evaluate-latches :
      (now : ℕ) (s : GlobalKillSwitch D) (r : TripReason)
      → (evaluate now s).0 ≡ some r
      → (evaluate now s).1.tripped_reason ≡ some r
  unfolding evaluate
  evaluate-latches now s r h = ground arith

  -- A reason once reported is reported by every later evaluation, whatever was recorded, updated,
  -- evaluated or pruned in between, at whatever readings of the clock.
  pub trip_is_latched :
      (now later : ℕ) (s : GlobalKillSwitch D) (ops : List (ℕ × Op D)) (r : TripReason)
      → (evaluate now s).0 ≡ some r
      → (evaluate later (run ops (evaluate now s).1)).0 ≡ some r
  unfolding evaluate
  trip_is_latched now later s ops r h =
      let kept = run-tripped ops (evaluate now s).1 r (evaluate-latches now s r h) in rw kept refl

  -- Every measure is under its limit, the windows being counted in the history of the calls.
  pub record Clear (now : ℕ) (ops : List (ℕ × Op D)) (s : GlobalKillSwitch D) : Type 0 where
    pub daily : s.daily_loss_percent ≺ s.cfg.daily_loss_percent
    pub drawdown : s.intraday_drawdown_percent ≺ s.cfg.intraday_drawdown_percent
    pub losses : s.consecutive_losses < s.cfg.consecutive_losses
    pub failures : count_if (recent now five_min) (failure_times ops) < s.cfg.order_failures_in_5min
    pub disconnects :
        count_if (recent now ten_min) (disconnect_times ops) < s.cfg.websocket_disconnects_in_10min
    pub mismatches : s.position_mismatches < s.cfg.unexpected_position_mismatch_count
    pub close_failures : s.emergency_close_failures < s.cfg.emergency_close_failure_count
    pub breaches : s.slippage_breaches < s.cfg.max_slippage_percent_breach_count

  first_tripped-Clear :
      (now : ℕ) (ops : List (ℕ × Op D)) (s : GlobalKillSwitch D)
      → length (prune now s).order_failures ≡ count_if (recent now five_min) (failure_times ops)
      → length (prune now s).ws_disconnects ≡ count_if (recent now ten_min) (disconnect_times ops)
      → first_tripped (checks (prune now s)) ≡ none ↔ Clear now ops s
  unfolding prune
  first_tripped-Clear now ops s f w = (λ h. ground arith, λ c. ground arith)

  -- After any calls on a clock that never goes back, as long as nothing has tripped, an evaluation
  -- reports nothing exactly when every measure is under its limit; the failures and disconnections
  -- measured are those in the windows of the whole history.
  pub evaluation_is_exact :
      (cfg : GlobalKillSwitchSection D) (now : ℕ) (ops : List (ℕ × Op D))
      → Ascending 0 now ops
      → (run ops (new cfg)).tripped_reason ≡ none
      → (evaluate now (run ops (new cfg))).0 ≡ none ↔ Clear now ops (run ops (new cfg))
  unfolding evaluate
  evaluation_is_exact cfg now ops a h =
      let s = run ops (new cfg) in
      let windows = windows_count_history cfg now ops a in
      let exact = first_tripped-Clear now ops s windows.0 windows.1 in
      (λ e. exact.0 (ground arith), λ c. ground (arith, exact.1 c))
