-- ===== src/Execution/Tests.antt =====
-- Orders against a small exchange, and the theorems there.
use quantbot.Prelude.{
  ◌≡◌, refl, ap, ℕ, ◌+◌, Bool, true, false, if◌then◌else◌, ◌==◌, Option, none, some, List, [], ◌∷◌,
  All, arith,
}
use quantbot.Number.{num}
use quantbot.Number.Fraction.{Fraction, dec, fraction_number}
use quantbot.Core.Enums.{
  Side, buy, sell, OrderType, limit, aggressive_limit, market, new, partially_filled, EntryMode,
  breakout_confirm, last_price,
}
use quantbot.Core.Models.{Symbol}
use quantbot.Core.Orders.{ExchangeOrder, OrderRequest, ExchangeOrderResult}
use quantbot.Exchange.{
  ExchangeGateway, Session, Result, returned, raised, accepted, timed_out, IsClock, ◌>>=◌,
}
use quantbot.Runtime.{reserve_order, clear_order_reservation}
use quantbot.Execution.Policy.{OrderConfig}
use quantbot.Execution.Orders.{
  Entry, OrderOutcome, turned_down, place_entry, place_allowed, place_aggressive, keep_or_flatten,
  place_exit, place_partial_exit,
}
use quantbot.Universe.{round_qty_down}
use quantbot.Execution.Resolving.{
  meta_for, send, recover_order, safe_cancel, reserve, clear, record_order, normalize_request_qty,
  poll, resolve,
}
use quantbot.Execution.Placing.{finish, place_again, recover, place_once, place}
use quantbot.Execution.Safety.{IsOfEntry, Reduces, entries_are_safe, exits_only_reduce}

-- The world is the clock, which also numbers the ids. The first request times out and is not found;
-- every later one fills three units.
abbrev seen : ExchangeOrder Fraction
seen = record {
  order_id = some 9;
  client_order_id = some 9;
  cum_exec_qty = num 3;
  avg_price = some (num 100);
  status = partially_filled;
}

abbrev lookup_order :
    Symbol → Option ℕ → Option ℕ → ℕ → Option (Option (ExchangeOrder Fraction)) × ℕ
lookup_order symbol order_id id w = (some (some seen), w + 5)

abbrev unfilled : OrderRequest Fraction → ExchangeOrderResult Fraction
unfilled r = record {
  order_id = some 1;
  client_order_id = r.client_order_id;
  status = new;
  filled_qty = num 0;
  avg_fill_price = none;
}

abbrev exchange : ExchangeGateway Fraction ℕ
exchange = record {
  load_instruments = λ w. (none, w);
  place_order = λ r w. if w == 1 then (timed_out, w + 1) else (accepted (unfilled r), w + 1);
  cancel_order = λ symbol order_id id w. w + 1;
  get_open_orders = λ symbol w. (some [], w + 1);
  get_order = some lookup_order;
  set_trading_stop = λ r w. (none, w);
  get_positions = λ w. (some [], w);
  get_position_tpsl = λ symbol w. (none, w);
  new_id = λ p w. (w, w + 1);
  clock = λ w. w;
  sleep = λ n w. w + n;
}

exchange-IsClock : IsClock Fraction ℕ exchange
exchange-IsClock = record {
  sleep_later = λ n w. omega arith;
  get_order_later = λ get_order symbol order_id id w e.
      let after : Option
            (Symbol → Option ℕ → Option ℕ → ℕ → Option (Option (ExchangeOrder Fraction)) × ℕ)
          → ℕ =
        λ o. elim o [ none ↦ w | some f ↦ (f symbol order_id id w).1 ] in
      omega (arith, ap after e);
}

abbrev settings : OrderConfig Fraction
settings = record {
  orders = record {
    live_new_entry_market_order_allowed = false;
    scout_order_type = some limit;
    breakout_order_type = some aggressive_limit;
    retest_order_type = some limit;
    max_slippage_percent = dec 8 2;
    limit_order_ttl_sec = 10;
    scout_limit_order_ttl_sec = 45;
    retest_limit_order_ttl_sec = 20;
    limit_reorder_attempts = 1;
    partial_fill_min_ratio_to_keep = dec 7 1;
  };
  tp_trigger_by = some last_price;
  sl_trigger_by = some last_price;
  poll_interval = 250;
  has_sinks = true;
}

abbrev opening : EntryMode → Entry Fraction
opening mode = record {
  symbol = 4;
  side = buy;
  qty = num 10;
  mode = mode;
  best_bid = num 99;
  best_ask = num 100;
  limit_price = none;
  stop_loss = some (num 95);
  take_profit = some (num 110);
}

abbrev idle : Session Fraction ℕ
idle = record {
  world = 0;
  symbol_meta = none;
  runtime = record {
    positions = [];
    pending_order_symbols = [];
    position_update_symbols = [];
    new_entry_pause_until = 0;
  };
  recorded = [];
  sent = [];
}

entries_are_safe_example :
    All
      (IsOfEntry settings (opening breakout_confirm))
      (place_entry exchange settings (opening breakout_confirm) idle).1.sent
entries_are_safe_example =
    entries_are_safe exchange settings exchange-IsClock (omega arith) (opening breakout_confirm)
      idle refl

exits_only_reduce_example :
    All (Reduces 4 sell) (place_exit exchange settings 4 sell (num 10) market none idle).1.sent
    × All (Reduces 4 sell) (place_partial_exit exchange settings 4 sell (num 10) none idle).1.sent
exits_only_reduce_example =
    exits_only_reduce exchange settings exchange-IsClock (omega arith) 4 sell (num 10) market none
      idle refl

-- Whether the outcome is a rejection.
abbrev is_rejected : Result (OrderOutcome Fraction) → Bool
is_rejected (returned o) = elim o.status [ turned_down ↦ true | _ ↦ false ]
is_rejected (raised e) = false

abbrev shape : List (OrderRequest Fraction) → List (Side × OrderType × Bool)
shape [] = []
shape (r ∷ rs) = (r.side, r.order_type, r.reduce_only) ∷ shape rs

-- The entry is sent twice, since the first request times out; three of ten units are too few to
-- keep, and go out at the market.
small_fill_is_flattened :
    let (r, s) = place_entry exchange settings (opening breakout_confirm) idle in
    (is_rejected r ≡ true)
    × (shape s.sent
        ≡ (sell, market, true)
          ∷ (buy, aggressive_limit, false)
          ∷ (buy, aggressive_limit, false)
          ∷ [])
unfolding place_entry place_allowed place_aggressive keep_or_flatten place_exit place place_once
    recover recover_order place_again reserve clear send finish resolve poll record_order
    safe_cancel meta_for normalize_request_qty ◌>>=◌ reserve_order clear_order_reservation
    round_qty_down
small_fill_is_flattened = (refl, refl)
