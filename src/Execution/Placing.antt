-- ===== src/Execution/Placing.antt =====
-- packages/execution/order_manager.py: one request, from the rounding of its quantity to its
-- resolved and recorded result, with the recovery of a request that timed out.
use quantbot.Prelude.{ℕ, if◌then◌else◌, Option, none, some}
use quantbot.Number.{Number, num, ◌<=◌}
use quantbot.Core.Enums.{rejected, EntryMode}
use quantbot.Core.Orders.{OrderRequest, ExchangeOrderResult}
use quantbot.Exchange.{
  ExchangeGateway, Session, accepted, timed_out, refused, retry, Action, pure, raise, ◌>>=◌, ◌>>◌,
  calls, gateway_error, timeout_error,
}
use quantbot.Execution.Policy.{OrderConfig}
use quantbot.Execution.Resolving.{
  meta_for, result_of, send, recover_order, reserve, clear, record_order, normalize_request_qty,
  resolve,
}

module _ {D W : Type 0} ⦃d : Number D⦄ (gw : ExchangeGateway D W) (cfg : OrderConfig D) where
  -- What follows an accepted request.
  unfoldable pub finish :
      OrderRequest D
      → Option EntryMode
      → Option ℕ
      → ExchangeOrderResult D
      → Action (Session D W) (ExchangeOrderResult D)
  unfolding resolve record_order clear
  finish request mode limit_ttl placed = do
    result ← resolve gw cfg request placed limit_ttl
    record_order cfg request result mode
    clear cfg request.client_order_id
    pure result

  -- The second request, under a fresh id: no exception is handled any more.
  unfoldable pub place_again :
      OrderRequest D → Option EntryMode → Option ℕ → Action (Session D W) (ExchangeOrderResult D)
  unfolding reserve send finish
  place_again request mode limit_ttl = do
    reserve cfg request
    answer ← send gw request
    elim answer [
      | accepted placed ↦ finish request mode limit_ttl placed
      | timed_out ↦ raise timeout_error
      | refused ↦ raise gateway_error
    ]

  -- The handler of `OrderTimeoutError`.
  unfoldable pub recover :
      OrderRequest D → Option EntryMode → Option ℕ → Action (Session D W) (ExchangeOrderResult D)
  unfolding recover_order record_order clear place_again
  recover request mode limit_ttl = do
    found ← recover_order gw request.symbol request.client_order_id
    elim found [
      | some order ↦ do
        record_order cfg request (result_of order) mode
        clear cfg request.client_order_id
        pure (result_of order)
      | none ↦ do
        clear cfg request.client_order_id
        id ← calls (gw.new_id retry)
        place_again (record request { client_order_id = some id }) mode limit_ttl
    ]

  -- The request as the exchange sees it first.
  unfoldable pub place_once :
      OrderRequest D → Option EntryMode → Option ℕ → Action (Session D W) (ExchangeOrderResult D)
  unfolding reserve send finish recover clear
  place_once request mode limit_ttl = do
    reserve cfg request
    answer ← send gw request
    elim answer [
      | accepted placed ↦ finish request mode limit_ttl placed
      | timed_out ↦ recover request mode limit_ttl
      | refused ↦ do clear cfg request.client_order_id; raise gateway_error
    ]

  abbrev unsent : OrderRequest D → ExchangeOrderResult D
  unsent request = record {
    order_id = none;
    client_order_id = request.client_order_id;
    status = rejected;
    filled_qty = num 0;
    avg_fill_price = none;
  }

  -- `_place`
  unfoldable pub place :
      OrderRequest D → Option EntryMode → Option ℕ → Action (Session D W) (ExchangeOrderResult D)
  unfolding meta_for normalize_request_qty place_once
  place request mode limit_ttl = do
    meta ← meta_for gw request.symbol
    let rounded = normalize_request_qty request meta
    if rounded.qty <= num 0 then pure (unsent rounded) else place_once rounded mode limit_ttl
