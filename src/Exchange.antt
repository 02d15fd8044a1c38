-- ===== src/Exchange.antt =====
-- packages/exchange/gateway.py: the gateway is a parameter over an unknown world `W` (the exchange,
-- the clock, the source of ids). Calls that use it are actions on a session, which keeps what the
-- caller's objects hold, and the requests sent so far.
use quantbot.Prelude.{
  ◌≡◌, ◌+◌, ◌≤◌, true, false, none, some, ℕ, Bool, Option, none, some, List, Dict,
}
use quantbot.Core.Models.{Symbol, SymbolMeta}
use quantbot.Core.Orders.{
  ExchangePosition, OrderRequest, ExchangeOrderResult, ExchangeOrder, Order, TradingStopRequest,
  PositionTpSlState,
}
use quantbot.Runtime.{RuntimeState}

-- How `place_order` ends: with a result, with `OrderTimeoutError`, or with another exception.
pub data Placed (D : Type 0) : Type 0 where
  accepted : ExchangeOrderResult D → Placed D
  timed_out : Placed D
  refused : Placed D

-- The prefixes of a `client_order_id`.
pub data Prefix : Type 0 where
  qb exit ptp retry : Prefix

-- The methods that the modelled code calls, with `none` for a call that raises; `get_order` is
-- `none` for a gateway without this method. `clock` and `sleep` are in milliseconds.
pub record ExchangeGateway (D W : Type 0) : Type 0 where
  pub load_instruments : W → Option (List (SymbolMeta D)) × W
  pub place_order : OrderRequest D → W → Placed D × W
  pub cancel_order : Symbol → Option ℕ → Option ℕ → W → W
  pub get_open_orders : Symbol → W → Option (List (ExchangeOrder D)) × W
  pub get_order : Option (Symbol → Option ℕ → Option ℕ → W → Option (Option (ExchangeOrder D)) × W)
  pub set_trading_stop : TradingStopRequest D → W → Option Bool × W
  pub get_positions : W → Option (List (ExchangePosition D)) × W
  pub get_position_tpsl : Symbol → W → Option (PositionTpSlState D) × W
  pub new_id : Prefix → W → ℕ × W
  pub clock : W → ℕ
  pub sleep : ℕ → W → W

-- `symbol_meta` is the order manager's cache; `recorded` are the orders passed to `order_sink`, in
-- the order of the calls, and `sent` the requests passed to `place_order`, the last one first.
pub record Session (D W : Type 0) : Type 0 where
  pub world : W
  pub symbol_meta : Option (Dict (SymbolMeta D))
  pub runtime : RuntimeState D
  pub recorded : List (Order D)
  pub sent : List (OrderRequest D)

-- `out_of_fuel` is not of the source: it marks a loop that the model cuts off.
pub data Failure : Type 0 where
  order_error key_error value_error timeout_error gateway_error out_of_fuel : Failure

pub data Result (A : Type 0) : Type 0 where
  returned : A → Result A
  raised : Failure → Result A

abbrev pub Action : Type 0 → Type 0 → Type 0
Action S A = S → Result A × S

module _ {S : Type 0} where
  abbrev pub pure : {A : Type 0} → A → Action S A
  pure a s = (returned a, s)

  abbrev pub raise : {A : Type 0} → Failure → Action S A
  raise e s = (raised e, s)

  -- What follows a call: nothing after an exception, which leaves the state as it then is.
  abbrev pub continue : {A B : Type 0} → (A → Action S B) → Result A × S → Result B × S
  continue f (returned a, s) = f a s
  continue f (raised e, s) = (raised e, s)

  infixl 5 ◌>>=◌ ◌>>◌
  unfoldable pub ◌>>=◌ : {A B : Type 0} → Action S A → (A → Action S B) → Action S B
  ◌>>=◌ m f s = continue f (m s)

  abbrev pub ◌>>◌ : {A B : Type 0} → Action S A → Action S B → Action S B
  m >> k = m >>= λ _. k

  abbrev pub modify : (S → S) → Action S (Unit {0})
  modify f s = (returned tt, f s)

  abbrev pub or_raise : {A : Type 0} → Option A → Failure → Action S A
  or_raise none e = raise e
  or_raise (some a) e = pure a

-- A call that only uses the world.
abbrev pub calls : {D W A : Type 0} → (W → A × W) → Action (Session D W) A
calls f s = let (a, w) = f s.world in (returned a, record s { world = w })

-- Whether an exception comes from the exchange's side.
abbrev pub is_outside : Failure → Bool
is_outside timeout_error = true
is_outside gateway_error = true
is_outside _ = false

abbrev pub ends_well : {A : Type 0} → Result A → Bool
ends_well (returned a) = true
ends_well (raised e) = is_outside e

-- What the polling loop relies on of the clock: a sleep takes at least its time, and no call turns
-- the clock back (`time.monotonic`).
pub record IsClock (D W : Type 0) (gw : ExchangeGateway D W) : Type 0 where
  pub sleep_later : (n : ℕ) (w : W) → gw.clock w + n ≤ gw.clock (gw.sleep n w)
  pub get_order_later :
      (get_order : Symbol → Option ℕ → Option ℕ → W → Option (Option (ExchangeOrder D)) × W)
      (symbol : Symbol) (order_id client_order_id : Option ℕ) (w : W)
      → gw.get_order ≡ some get_order
      → gw.clock w ≤ gw.clock (get_order symbol order_id client_order_id w).1
