-- ===== src/Execution/Resolving.antt =====
-- packages/execution/order_manager.py: the steps of a request (the rounding of its quantity, its
-- reservation and record) and the polling of its result.
use quantbot.Prelude.{
  ℕ, zero, suc, ◌+◌, ◌*◌, Bool, true, false, ◌&&◌, ◌||◌, leb, ◌==◌, if◌then◌else◌, Option, none,
  some, List, [], ◌∷◌, ◌++◌, Dict, lookup, insert,
}
use quantbot.Number.{Number, num, ◌<<◌, ◌=?◌}
use quantbot.Core.Enums.{
  OrderStatus, partially_filled, filled, cancelled, rejected, expired, TimeInForce, EntryMode,
  is_ioc,
}
use quantbot.Core.Models.{Symbol, SymbolMeta}
use quantbot.Core.Orders.{ExchangeOrder, OrderRequest, ExchangeOrderResult, Order}
use quantbot.Exchange.{
  ExchangeGateway, Session, Placed, Action, pure, raise, ◌>>=◌, ◌>>◌, modify, or_raise, calls,
  gateway_error, out_of_fuel,
}
use quantbot.Runtime.{reserve_order, clear_order_reservation}
use quantbot.Universe.{round_qty_down}
use quantbot.Execution.Policy.{OrderConfig}

-- `a or b` on ids
abbrev pub or_id : Option ℕ → Option ℕ → Option ℕ
or_id none b = b
or_id (some a) b = some a

abbrev equals_id : Option ℕ → ℕ → Bool
equals_id none id = false
equals_id (some k) id = k == id

-- The states in which `_resolve` does not poll, and in which it stops polling.
abbrev pub is_known : OrderStatus → Bool
is_known filled = true
is_known partially_filled = true
is_known cancelled = true
is_known rejected = true
is_known _ = false

abbrev pub is_settled : OrderStatus → Bool
is_settled filled = true
is_settled cancelled = true
is_settled rejected = true
is_settled expired = true
is_settled _ = false

abbrev is_partial : OrderStatus → Bool
is_partial partially_filled = true
is_partial _ = false

abbrev pub is_immediate : Option TimeInForce → Bool
is_immediate none = false
is_immediate (some tif) = is_ioc tif

module _ {D : Type 0} where
  abbrev pub result_of : ExchangeOrder D → ExchangeOrderResult D
  result_of order = record {
    order_id = order.order_id;
    client_order_id = order.client_order_id;
    status = order.status;
    filled_qty = order.cum_exec_qty;
    avg_fill_price = order.avg_price;
  }

  abbrev by_symbol : List (SymbolMeta D) → Dict (SymbolMeta D) → Dict (SymbolMeta D)
  by_symbol [] metas = metas
  by_symbol (m ∷ ms) metas = by_symbol ms (insert m.symbol m metas)

  -- The instruments, or none if loading them raises.
  abbrev loaded : Option (List (SymbolMeta D)) → Dict (SymbolMeta D)
  loaded none = []
  loaded (some instruments) = by_symbol instruments []

  abbrev find_order : ℕ → List (ExchangeOrder D) → Option (ExchangeOrder D)
  find_order id [] = none
  find_order id (o ∷ os) =
      let rest = find_order id os in if equals_id o.client_order_id id then some o else rest

module _ {D : Type 0} ⦃d : Number D⦄ where
  -- `_normalize_request_qty`, at the instrument that `_meta_for` finds.
  unfoldable pub normalize_request_qty : OrderRequest D → Option (SymbolMeta D) → OrderRequest D
  normalize_request_qty request none = request
  normalize_request_qty request (some meta) =
      let qty = round_qty_down request.qty meta.qty_step in
      if qty =? request.qty then request else record request { qty = qty }

module _ {D W : Type 0} (gw : ExchangeGateway D W) where
  -- `_meta_for`
  unfoldable pub meta_for : Symbol → Action (Session D W) (Option (SymbolMeta D))
  meta_for symbol s = elim s.symbol_meta [
    | some metas ↦ pure (lookup symbol metas) s
    | none ↦
        let (reply, w) = gw.load_instruments s.world in
        pure (lookup symbol (loaded reply))
          (record s { world = w; symbol_meta = some (loaded reply) })
  ]

  -- `place_order` of the gateway
  unfoldable pub send : OrderRequest D → Action (Session D W) (Placed D)
  send request s =
      let (answer, w) = gw.place_order request s.world in
      pure answer (record s { world = w; sent = request ∷ s.sent })

  unfoldable pub recover_order : Symbol → Option ℕ → Action (Session D W) (Option (ExchangeOrder D))
  recover_order symbol none = pure none
  recover_order symbol (some id) = do
    reply ← calls (gw.get_open_orders symbol)
    open_orders ← or_raise reply gateway_error
    pure (find_order id open_orders)

  -- `_safe_cancel`
  unfoldable pub safe_cancel : Symbol → Option ℕ → Option ℕ → Action (Session D W) (Unit {0})
  safe_cancel symbol order_id client_order_id =
      calls (λ w. (tt, gw.cancel_order symbol order_id client_order_id w))

module _ {D W : Type 0} (cfg : OrderConfig D) where
  -- `_reserve_order`, `_clear_order_reservation`
  unfoldable pub reserve : OrderRequest D → Action (Session D W) (Unit {0})
  reserve request = modify (λ s. record s {
    runtime =
        if cfg.has_sinks
        then reserve_order request.client_order_id request.symbol s.runtime
        else s.runtime;
  })

  unfoldable pub clear : Option ℕ → Action (Session D W) (Unit {0})
  clear id = modify (λ s. record s {
    runtime = if cfg.has_sinks then clear_order_reservation id s.runtime else s.runtime;
  })

  -- `_record_order`, whose sink in the running bot is `BotRuntime._register_order`
  unfoldable pub record_order :
      OrderRequest D → ExchangeOrderResult D → Option EntryMode → Action (Session D W) (Unit {0})
  unfolding clear
  record_order request result mode =
      let order : Order D = record {
        symbol = request.symbol;
        side = request.side;
        order_type = request.order_type;
        qty = request.qty;
        price = request.price;
        client_order_id = or_id result.client_order_id request.client_order_id;
        order_id = result.order_id;
        status = result.status;
        filled_qty = result.filled_qty;
        avg_fill_price = result.avg_fill_price;
        reduce_only = request.reduce_only;
        entry_mode = mode;
      } in
      modify (λ s. if cfg.has_sinks then record s { recorded = s.recorded ++ (order ∷ []) } else s)
      >> clear order.client_order_id

module _ {D W : Type 0} ⦃d : Number D⦄ (gw : ExchangeGateway D W) (cfg : OrderConfig D) where
  -- The loop of `_resolve`, on fuel.
  unfoldable pub poll :
      ℕ
      → (Symbol → Option ℕ → Option ℕ → W → Option (Option (ExchangeOrder D)) × W)
      → OrderRequest D
      → ExchangeOrderResult D
      → ℕ
      → ExchangeOrderResult D
      → Action (Session D W) (ExchangeOrderResult D)
  poll zero get_order request placed deadline last = raise out_of_fuel
  poll (suc fuel) get_order request placed deadline last = do
    reply ← calls (get_order request.symbol placed.order_id placed.client_order_id)
    answer ← or_raise reply gateway_error
    elim answer [
      | none ↦ pure last
      | some order ↦ λ s.
          let immediate = is_immediate request.time_in_force in
          let again =
            poll fuel get_order request placed deadline (result_of order)
              (record s { world = gw.sleep cfg.poll_interval s.world }) in
          if is_settled order.status
            || (is_partial order.status && immediate)
            || (immediate || leb deadline (gw.clock s.world))
          then pure (result_of order) s
          else again
    ]

  abbrev pub ttl_sec : OrderRequest D → Option ℕ → ℕ
  ttl_sec request (some ttl) = if is_immediate request.time_in_force then 0 else ttl
  ttl_sec request none =
      if is_immediate request.time_in_force then 0 else cfg.orders.limit_order_ttl_sec

  -- `_resolve`
  unfoldable pub resolve :
      OrderRequest D
      → ExchangeOrderResult D
      → Option ℕ
      → Action (Session D W) (ExchangeOrderResult D)
  unfolding poll
  resolve request placed limit_ttl s =
      if (num 0 << placed.filled_qty) || is_known placed.status
      then pure placed s
      else elim gw.get_order [
        | none ↦ pure placed s
        | some get_order ↦
            let ttl = ttl_sec request limit_ttl * 1000 in
            let deadline = gw.clock s.world + ttl in
            poll (suc ttl) get_order request placed deadline placed s
      ]
