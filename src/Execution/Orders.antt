-- ===== src/Execution/Orders.antt =====
-- packages/execution/order_manager.py: entries and exits.
use quantbot.Prelude.{ℕ, zero, suc, Bool, true, false, ◌||◌, if◌then◌else◌, Option, none, some}
use quantbot.Number.{Number, num, ◌⊕◌, ◌⊖◌, ◌⊘◌, ◌<=◌, ◌<<◌, ◌=?◌}
use quantbot.Core.Enums.{
  Side, buy, sell, OrderType, limit, aggressive_limit, market, cancelled, gtc, ioc, EntryMode,
  TriggerBy, opposite, is_filled,
}
use quantbot.Core.Models.{Symbol}
use quantbot.Core.Orders.{TpSl, OrderRequest, no_tpsl, ExchangeOrderResult}
use quantbot.Exchange.{
  ExchangeGateway, Session, qb, exit, ptp, Action, pure, raise, ◌>>=◌, ◌>>◌, calls, or_raise,
  order_error, key_error, value_error,
}
use quantbot.Execution.Policy.{
  OrderConfig, entry_order_type, is_forbidden, limit_ttl_sec, aggressive_limit_price,
}
use quantbot.Execution.Resolving.{safe_cancel, record_order}
use quantbot.Execution.Placing.{place}

-- FILLED, PARTIAL, NO_FILL and REJECTED of `OrderOutcome`
pub data OutcomeStatus : Type 0 where
  fully_filled partly_filled no_fill turned_down : OutcomeStatus

-- Without the reason, which is only logged.
pub record OrderOutcome (D : Type 0) : Type 0 where
  pub status : OutcomeStatus
  pub filled_qty : D
  pub avg_price : Option D
  pub order_id : Option ℕ
  pub client_order_id : Option ℕ

-- The arguments that all entries share.
pub record Entry (D : Type 0) : Type 0 where
  pub symbol : Symbol
  pub side : Side
  pub qty : D
  pub mode : EntryMode
  pub best_bid : D
  pub best_ask : D
  pub limit_price : Option D
  pub stop_loss : Option D
  pub take_profit : Option D

module _ {D : Type 0} where
  -- The fields of a protection, if both triggers are known.
  abbrev pub with_triggers :
      Option D → Option D → Option TriggerBy → Option TriggerBy → Option (TpSl D)
  with_triggers stop_loss take_profit (some tp) (some sl) = some (record {
    take_profit = take_profit;
    stop_loss = stop_loss;
    tp_trigger_by = tp;
    sl_trigger_by = sl;
  })
  with_triggers stop_loss take_profit (some tp) none = none
  with_triggers stop_loss take_profit none sl = none

  -- `_entry_tpsl_fields`: none where `TriggerBy` raises `ValueError`.
  abbrev pub entry_tpsl : OrderConfig D → Option D → Option D → Option (TpSl D)
  entry_tpsl cfg none none = some no_tpsl
  entry_tpsl cfg (some stop) take_profit =
      with_triggers (some stop) take_profit cfg.tp_trigger_by cfg.sl_trigger_by
  entry_tpsl cfg none (some target) =
      with_triggers none (some target) cfg.tp_trigger_by cfg.sl_trigger_by

module _ {D : Type 0} ⦃d : Number D⦄ where
  -- `a or b` on prices: zero counts as no price.
  abbrev or_price : Option D → Option D → Option D
  or_price none b = b
  or_price (some a) b = if a =? num 0 then b else some a

  -- The price of a resting entry: the given one, or else `_passive_limit_price`.
  abbrev resting_price : Entry D → Option D
  resting_price e =
      or_price e.limit_price (some (elim e.side [ buy ↦ e.best_bid | sell ↦ e.best_ask ]))

  abbrev outcome : OutcomeStatus → ExchangeOrderResult D → ℕ → OrderOutcome D
  outcome status result id = record {
    status = status;
    filled_qty = result.filled_qty;
    avg_price = result.avg_fill_price;
    order_id = result.order_id;
    client_order_id = some id;
  }

  -- An outcome that reports no fill, of an order or of none.
  abbrev nothing : OutcomeStatus → Option ℕ → Option ℕ → OrderOutcome D
  nothing status order_id id = record {
    status = status;
    filled_qty = num 0;
    avg_price = none;
    order_id = order_id;
    client_order_id = id;
  }

  -- The status of an exit that is full if its second argument holds.
  abbrev exit_status : D → Bool → OutcomeStatus
  exit_status filled true = fully_filled
  exit_status filled false = if num 0 << filled then partly_filled else no_fill

module _ {D W : Type 0} ⦃d : Number D⦄ (gw : ExchangeGateway D W) (cfg : OrderConfig D) where
  unfoldable pub place_exit :
      Symbol → Side → D → OrderType → Option D → Action (Session D W) (OrderOutcome D)
  unfolding place
  place_exit symbol side qty order_type price = do
    id ← calls (gw.new_id exit)
    let request : OrderRequest D = record {
      symbol = symbol;
      side = side;
      order_type = order_type;
      qty = qty;
      price = price;
      time_in_force = elim order_type [ aggressive_limit ↦ some ioc | _ ↦ none ];
      reduce_only = true;
      client_order_id = some id;
      tpsl = no_tpsl;
    }
    result ← place gw cfg request none none
    let status = exit_status result.filled_qty (is_filled result.status || qty <= result.filled_qty)
    pure (outcome status result id)

  -- The rest of a partial exit whose limit order was not filled.
  unfoldable pub exit_remainder :
      Symbol → Side → D → ExchangeOrderResult D → ℕ → Action (Session D W) (OrderOutcome D)
  unfolding safe_cancel place_exit
  exit_remainder symbol side qty result id = do
    safe_cancel gw symbol result.order_id (some id)
    let remainder = qty ⊖ result.filled_qty
    if num 0 << remainder
        then (do
          rest ← place_exit symbol side remainder market none
          let total = result.filled_qty ⊕ rest.filled_qty
          pure (record {
            status = exit_status total (qty <= total);
            filled_qty = total;
            avg_price = or_price rest.avg_price result.avg_fill_price;
            order_id = result.order_id;
            client_order_id = some id;
          }))
        else place_exit symbol side qty market none

  unfoldable pub place_partial_exit :
      Symbol → Side → D → Option D → Action (Session D W) (OrderOutcome D)
  unfolding place place_exit exit_remainder
  place_partial_exit symbol side qty none = place_exit symbol side qty market none
  place_partial_exit symbol side qty (some limit_price) = do
    id ← calls (gw.new_id ptp)
    let request : OrderRequest D = record {
      symbol = symbol;
      side = side;
      order_type = limit;
      qty = qty;
      price = some limit_price;
      time_in_force = some gtc;
      reduce_only = true;
      client_order_id = some id;
      tpsl = no_tpsl;
    }
    result ← place gw cfg request none none
    if is_filled result.status || qty <= result.filled_qty
        then pure (outcome fully_filled result id)
        else exit_remainder symbol side qty result id

  -- What `_place_aggressive` does with a fill above zero: it is kept if large enough, or else
  -- closed again.
  unfoldable pub keep_or_flatten :
      Entry D → ExchangeOrderResult D → ℕ → Action (Session D W) (OrderOutcome D)
  unfolding safe_cancel place_exit
  keep_or_flatten e result id =
      if cfg.orders.partial_fill_min_ratio_to_keep <= (result.filled_qty ⊘ e.qty)
      then (if result.filled_qty << e.qty
          then (do
            safe_cancel gw e.symbol result.order_id (some id)
            pure (outcome partly_filled result id))
          else pure (outcome fully_filled result id))
      else (do
        safe_cancel gw e.symbol result.order_id (some id)
        place_exit e.symbol (opposite e.side) result.filled_qty market none
        pure (nothing turned_down result.order_id (some id)))

  -- `_place_aggressive`
  unfoldable pub place_aggressive : Entry D → Action (Session D W) (OrderOutcome D)
  unfolding place keep_or_flatten
  place_aggressive e = do
    id ← calls (gw.new_id qb)
    tpsl ← or_raise (entry_tpsl cfg e.stop_loss e.take_profit) value_error
    let request : OrderRequest D = record {
      symbol = e.symbol;
      side = e.side;
      order_type = aggressive_limit;
      qty = e.qty;
      price =
          some
            (aggressive_limit_price e.side e.best_ask e.best_bid cfg.orders.max_slippage_percent);
      time_in_force = some ioc;
      reduce_only = false;
      client_order_id = some id;
      tpsl = tpsl;
    }
    result ← place gw cfg request (some e.mode) none
    if result.filled_qty <= num 0
        then pure (nothing no_fill result.order_id (some id))
        else keep_or_flatten e result id

  abbrev pub resting_request : Entry D → TpSl D → ℕ → OrderRequest D
  resting_request e tpsl id = record {
    symbol = e.symbol;
    side = e.side;
    order_type = limit;
    qty = e.qty;
    price = resting_price e;
    time_in_force = some gtc;
    reduce_only = false;
    client_order_id = some id;
    tpsl = tpsl;
  }

  -- The cancellation of what is left of a resting entry.
  unfoldable pub withdraw :
      Entry D → TpSl D → ExchangeOrderResult D → ℕ → Action (Session D W) (Unit {0})
  unfolding safe_cancel record_order
  withdraw e tpsl result id = do
    safe_cancel gw e.symbol result.order_id (some id)
    record_order cfg (resting_request e tpsl id) (record result { status = cancelled })
        (some e.mode)

  -- The loop of `_place_limit`, on the tries that are left.
  unfoldable pub place_limit : ℕ → Entry D → Action (Session D W) (OrderOutcome D)
  unfolding place withdraw
  place_limit zero e = pure (nothing no_fill none none)
  place_limit (suc tries) e = do
    id ← calls (gw.new_id qb)
    tpsl ← or_raise (entry_tpsl cfg e.stop_loss e.take_profit) value_error
    result ←
        place gw cfg (resting_request e tpsl id) (some e.mode)
          (some (limit_ttl_sec e.mode cfg.orders))
    let again = withdraw e tpsl result id >> place_limit tries e
    if result.filled_qty <= num 0
        then again
        else if result.filled_qty << e.qty
        then (do withdraw e tpsl result id; pure (outcome partly_filled result id))
        else pure (outcome fully_filled result id)

  -- An entry of a type that is allowed: every other type than AGGRESSIVE_LIMIT rests as a limit order.
  unfoldable pub place_allowed : OrderType → Entry D → Action (Session D W) (OrderOutcome D)
  unfolding place_aggressive place_limit
  place_allowed aggressive_limit e = place_aggressive e
  place_allowed _ e = place_limit (suc cfg.orders.limit_reorder_attempts) e

  unfoldable pub place_entry : Entry D → Action (Session D W) (OrderOutcome D)
  unfolding place_allowed
  place_entry e = do
    order_type ← or_raise (entry_order_type e.mode cfg.orders) key_error
    if is_forbidden order_type false cfg.orders
        then raise order_error
        else place_allowed order_type e
