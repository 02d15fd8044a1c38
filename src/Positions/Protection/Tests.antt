-- ===== src/Positions/Protection/Tests.antt =====
-- A new position on an exchange that loses its stop, and the theorem there.
use quantbot.Prelude.{◌≡◌, refl, ℕ, ◌+◌, true, false, none, some, [], ◌∷◌}
use quantbot.Number.{num, abs_of}
use quantbot.Number.Fraction.{Fraction, dec, fraction_number}
use quantbot.Core.Enums.{
  long, PositionStatus, PositionSource, OrderStatus, limit, aggressive_limit, last_price,
}
use quantbot.Exchange.{ExchangeGateway, returned, accepted, ◌>>=◌}
use quantbot.Runtime.{reserve_order, clear_order_reservation}
use quantbot.Universe.{round_qty_down}
use quantbot.Execution.Resolving.{
  meta_for, send, reserve, clear, record_order, normalize_request_qty, resolve,
}
use quantbot.Execution.Placing.{finish, place_once, place}
use quantbot.Execution.Orders.{place_exit}
use quantbot.Positions.Protection.{
  ProtectionConfig, Guarded, matches_requested, confirm_position, read_back, verify, activate,
  emergency_close, request_and_verify, protect_confirmed, protect,
}

-- The world counts the ids. Orders fill at once, and no stop is ever there.
abbrev forgetful : ExchangeGateway Fraction ℕ
forgetful = record {
  load_instruments = λ w. (none, w);
  place_order = λ r w. (
    accepted (record {
      order_id = some 1;
      client_order_id = r.client_order_id;
      status = OrderStatus.filled;
      filled_qty = r.qty;
      avg_fill_price = some (num 99);
    }),
    w,
  );
  cancel_order = λ symbol order_id id w. w;
  get_open_orders = λ symbol w. (some [], w);
  get_order = none;
  set_trading_stop = λ r w. (some true, w);
  get_positions = λ w.
      (some (record { symbol = 7; is_open = true; size = num 2; avg_price = num 100 } ∷ []), w);
  get_position_tpsl = λ symbol w. (some (record { take_profit = none; stop_loss = none }), w);
  new_id = λ p w. (w, w + 1);
  clock = λ w. w;
  sleep = λ n w. w + n;
}

abbrev settings : ProtectionConfig Fraction
settings = record {
  use_exchange_tp = false;
  use_exchange_sl = true;
  verify_tpsl_after_entry = true;
  verify_tpsl_retry_count = 3;
  verify_tpsl_retry_interval = 1000;
  tpsl_verify_tolerance_percent = dec 2 2;
  sync_exchange_sl_with_trailing = true;
  min_exchange_sl_update_interval = 5000;
  runner_update_interval = 5000;
  order = record {
    orders = record {
      live_new_entry_market_order_allowed = false;
      scout_order_type = some limit;
      breakout_order_type = some aggressive_limit;
      retest_order_type = some limit;
      max_slippage_percent = dec 8 2;
      limit_order_ttl_sec = 10;
      scout_limit_order_ttl_sec = 45;
      retest_limit_order_ttl_sec = 20;
      limit_reorder_attempts = 1;
      partial_fill_min_ratio_to_keep = dec 7 1;
    };
    tp_trigger_by = some last_price;
    sl_trigger_by = some last_price;
    poll_interval = 250;
    has_sinks = true;
  };
}

abbrev fresh : Guarded Fraction ℕ
fresh = record {
  session = record {
    world = 0;
    symbol_meta = none;
    runtime = record {
      positions = [];
      pending_order_symbols = [];
      position_update_symbols = [];
      new_entry_pause_until = 0;
    };
    recorded = [];
    sent = [];
  };
  position = record {
    symbol = 7;
    side = long;
    status = PositionStatus.pending;
    source = PositionSource.bot;
    qty = num 3;
    avg_entry_price = num 101;
    manual_added_qty = num 0;
    leverage = num 2;
    stop_loss_price = some (num 97);
    take_profit_price = none;
    initial_risk_per_unit = some (num 3);
    liq_price = none;
    realized_pnl = num 0;
    unrealized_pnl = num 0;
    fees_paid = num 0;
    highest_price = none;
    lowest_price = none;
    partial_tp_done = false;
    trailing_active = false;
    runner_mode_active = false;
    runner_trailing_atr_multiplier = none;
    last_runner_trailing_update_at = none;
    last_runner_trailing_stop = none;
    closed_at = false;
    exit_reason = none;
  };
  last_sl_update_at = 0;
  last_read = none;
}

-- After two rounds of three readings the two units that the exchange reports are closed.
lost_stop_is_closed :
    let (r, t) = protect forgetful settings fresh in
    (r ≡ returned (record { protected = false; emergency = true; closed = true }))
    × (t.position.status ≡ PositionStatus.closed)
    × (t.position.qty ≡ num 2)
unfolding protect protect_confirmed confirm_position request_and_verify emergency_close activate
    verify read_back matches_requested place_exit place place_once finish resolve record_order
    reserve clear send meta_for normalize_request_qty ◌>>=◌ reserve_order clear_order_reservation
    round_qty_down abs_of
lost_stop_is_closed = (refl, refl, refl)
