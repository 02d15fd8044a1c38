-- ===== src/Guards/KillSwitch/Tests.antt =====
-- The kill switch on a short history, and its theorems there.
use quantbot.Prelude.{◌≡◌, ◌↔◌, refl, ℕ, true, none, some, List, [], ◌∷◌, count_if, length, arith}
use quantbot.Number.Fraction.{Fraction, dec, fraction_number}
use quantbot.Guards.KillSwitch.{
  GlobalKillSwitchSection, GlobalKillSwitch, Op, TripReason, order_failure, ws_disconnect,
  trade_result, evaluation, snapshot, five_min, ten_min, new, record_order_failure,
  record_ws_disconnect, prune, evaluate, apply, run,
}
use quantbot.Guards.KillSwitch.Window.{
  recent, failure_times, disconnect_times, windows_count_history,
}
use quantbot.Guards.KillSwitch.Latch.{Clear, trip_is_latched, evaluation_is_exact}

abbrev limits : GlobalKillSwitchSection Fraction
limits = record {
  daily_loss_percent = dec 5 0;
  intraday_drawdown_percent = dec 3 0;
  consecutive_losses = 4;
  order_failures_in_5min = 3;
  websocket_disconnects_in_10min = 5;
  unexpected_position_mismatch_count = 1;
  emergency_close_failure_count = 1;
  max_slippage_percent_breach_count = 3;
}

-- Two failures in the first minute are forgotten when the next two come.
abbrev calls : List (ℕ × Op Fraction)
calls =
    (0, order_failure)
    ∷ (60000, order_failure)
    ∷ (61000, ws_disconnect)
    ∷ (400000, order_failure)
    ∷ (400000, evaluation)
    ∷ (410000, order_failure)
    ∷ []

not_tripped : (run calls (new limits)).tripped_reason ≡ none
unfolding run apply new evaluate prune record_order_failure record_ws_disconnect
not_tripped = refl

third_failure_trips :
    (evaluate 420000 (record_order_failure 420000 (run calls (new limits)))).0
    ≡ some TripReason.order_failures
unfolding run apply new evaluate prune record_order_failure record_ws_disconnect
third_failure_trips = refl

windows_count_history_example :
    let s = prune 420000 (run calls (new limits)) in
    (length s.order_failures ≡ count_if (recent 420000 five_min) (failure_times calls))
    × (length s.ws_disconnects ≡ count_if (recent 420000 ten_min) (disconnect_times calls))
windows_count_history_example = windows_count_history limits 420000 calls (omega arith)

evaluation_is_exact_example :
    (evaluate 420000 (run calls (new limits))).0 ≡ none
    ↔ Clear 420000 calls (run calls (new limits))
evaluation_is_exact_example = evaluation_is_exact limits 420000 calls (omega arith) not_tripped

abbrev lost : GlobalKillSwitch Fraction
lost = record (new limits) { consecutive_losses = 4 }

lost_trips : (evaluate 5 lost).0 ≡ some TripReason.consecutive_losses
unfolding evaluate new prune
lost_trips = refl

trip_is_latched_example :
    (evaluate 900000
      (run ((700000, trade_result true) ∷ (800000, snapshot) ∷ []) (evaluate 5 lost).1)).0
    ≡ some TripReason.consecutive_losses
trip_is_latched_example =
    trip_is_latched 5 900000 lost ((700000, trade_result true) ∷ (800000, snapshot) ∷ [])
      TripReason.consecutive_losses lost_trips
