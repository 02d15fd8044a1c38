-- ===== src/Positions/Protection.antt =====
-- packages/position/protection_manager.py: the stop loss and the take profit on the exchange after an
-- entry, and the emergency close where they cannot be verified. Events and logs are left out.
pub mod Secured
mod Tests
use quantbot.Prelude.{
  ℕ, zero, suc, ◌+◌, ◌-◌, ◌*◌, Bool, true, false, not, ◌&&◌, ◌||◌, ltb, ◌==◌, if◌then◌else◌,
  is_some, Option, none, some, List, [], ◌∷◌,
}
use quantbot.Number.{Number, num, ◌⊖◌, ◌⊗◌, ◌⊘◌, ◌<=◌, ◌<<◌, abs_of}
use quantbot.Core.Enums.{
  PositionSide, long, short, Side, buy, sell, market, active, closed, TriggerBy, last_price,
}
use quantbot.Core.Models.{Symbol, Position}
use quantbot.Core.Orders.{ExchangePosition, TpSl, TradingStopRequest, PositionTpSlState}
use quantbot.Exchange.{
  ExchangeGateway, Session, Result, returned, raised, continue, Action, pure, raise, ◌>>=◌, ◌>>◌,
  modify, or_raise, gateway_error, value_error,
}
use quantbot.Execution.Policy.{OrderConfig}
use quantbot.Execution.Orders.{
  with_triggers, OrderOutcome, OutcomeStatus, fully_filled, partly_filled, no_fill, turned_down,
  place_exit,
}

-- What the manager reads of the configuration; times are in milliseconds.
pub record ProtectionConfig (D : Type 0) : Type 0 where
  pub use_exchange_tp : Bool
  pub use_exchange_sl : Bool
  pub verify_tpsl_after_entry : Bool
  pub verify_tpsl_retry_count : ℕ
  pub verify_tpsl_retry_interval : ℕ
  pub tpsl_verify_tolerance_percent : D
  pub sync_exchange_sl_with_trailing : Bool
  pub min_exchange_sl_update_interval : ℕ
  pub runner_update_interval : ℕ
  pub order : OrderConfig D

pub record ProtectionResult : Type 0 where
  pub protected : Bool
  pub emergency : Bool
  pub closed : Bool

-- The session, the position that the manager changes, the time of its last update of the stop on the
-- exchange, and the last answer that it read back.
pub record Guarded (D W : Type 0) : Type 0 where
  pub session : Session D W
  pub position : Position D
  pub last_sl_update_at : ℕ
  pub last_read : Option (PositionTpSlState D)

abbrev pub exit_side : PositionSide → Side
exit_side long = sell
exit_side short = buy

module _ {D W : Type 0} where
  -- A call that only uses the world.
  abbrev pub asks : {A : Type 0} → (W → A × W) → Action (Guarded D W) A
  asks call s =
      let (a, w) = call s.session.world in
      (returned a, record s { session = record s.session { world = w } })

  -- An action of the order manager.
  abbrev pub within : {A : Type 0} → Action (Session D W) A → Action (Guarded D W) A
  within m s = let (r, t) = m s.session in (r, record s { session = t })

  abbrev set_position : Position D → Action (Guarded D W) (Unit {0})
  set_position p = modify (λ s. record s { position = p })

module _ {D : Type 0} ⦃d : Number D⦄ where
  abbrev close_enough : D → Option D → D → Bool
  close_enough tolerance none expected = false
  close_enough tolerance (some actual) expected =
      abs_of (actual ⊖ expected) <= ((abs_of expected ⊗ tolerance) ⊘ num 100)

  -- One side of the protection, where it is used.
  abbrev side_matches : Bool → D → Option D → Option D → Bool
  side_matches false tolerance actual wanted = true
  side_matches true tolerance actual none = false
  side_matches true tolerance actual (some expected) = close_enough tolerance actual expected

  -- `_matches_requested_tpsl`
  unfoldable pub matches_requested : ProtectionConfig D → Position D → PositionTpSlState D → Bool
  matches_requested c p state =
      let tolerance = c.tpsl_verify_tolerance_percent in
      side_matches c.use_exchange_sl tolerance state.stop_loss p.stop_loss_price
      && side_matches c.use_exchange_tp tolerance state.take_profit p.take_profit_price
      && (c.use_exchange_sl || c.use_exchange_tp)

  abbrev find_open : Symbol → List (ExchangePosition D) → Option (ExchangePosition D)
  find_open symbol [] = none
  find_open symbol (p ∷ ps) =
      let rest = find_open symbol ps in if (p.symbol == symbol) && p.is_open then some p else rest

  -- The position with the size and the price that the exchange has for it.
  abbrev pub trusting : Position D → Option (List (ExchangePosition D)) → Position D
  trusting p none = p
  trusting p (some positions) = elim (find_open p.symbol positions) [
    | none ↦ p
    | some match ↦
        if num 0 << match.size
        then record p { qty = match.size; avg_entry_price = match.avg_price }
        else p
  ]

  abbrev wanted : Bool → Option D → Option D
  wanted true price = price
  wanted false price = none

  -- `OrderOutcome.is_filled`
  abbrev pub is_outcome_filled : OrderOutcome D → Bool
  is_outcome_filled o =
      (elim o.status [ fully_filled ↦ true | partly_filled ↦ true | _ ↦ false ])
      && (num 0 << o.filled_qty)

module _ {D W : Type 0} ⦃d : Number D⦄ (gw : ExchangeGateway D W) (c : ProtectionConfig D) where
  -- `_confirm_position`
  unfoldable pub confirm_position : Action (Guarded D W) (Unit {0})
  confirm_position = do
    positions ← asks gw.get_positions
    modify (λ s. record s { position = trusting s.position positions })

  -- What an answer tells, in the state after the call.
  abbrev pub judged : Option (PositionTpSlState D) → Action (Guarded D W) Bool
  judged none = raise gateway_error
  judged (some state) =
      λ s. pure (matches_requested c s.position state) (record s { last_read = some state })

  -- One reading of the protection, and whether it is the requested one.
  unfoldable pub read_back : Action (Guarded D W) Bool
  unfolding matches_requested
  read_back s =
      let (answer, t) = asks (gw.get_position_tpsl s.position.symbol) s in
      continue judged (answer, t)

  -- The next attempt after a sleep, unless the last one succeeded or none is left.
  abbrev pub unless_matched : ℕ → Action (Guarded D W) Bool → Bool → Action (Guarded D W) Bool
  unless_matched left again true = pure true
  unless_matched left again false =
      if left == 0
      then pure false
      else asks (λ w. (tt, gw.sleep c.verify_tpsl_retry_interval w)) >> again

  -- `_verify`, on the attempts that are left.
  unfoldable pub verify : ℕ → Action (Guarded D W) Bool
  unfolding read_back
  verify zero = pure false
  verify (suc left) = do matched ← read_back; unless_matched left (verify left) matched

  abbrev protected_result : ProtectionResult
  protected_result = record { protected = true; emergency = false; closed = false }

  -- `_activate`
  unfoldable pub activate : Action (Guarded D W) ProtectionResult
  activate s = pure protected_result (record s { position = record s.position { status = active } })

  -- What follows the exit of an emergency.
  abbrev pub flattened : OrderOutcome D → Action (Guarded D W) ProtectionResult
  flattened outcome s =
      if is_outcome_filled outcome
      then pure (record { protected = false; emergency = true; closed = true })
          (record s { position = record s.position { status = closed } })
      else pure (record { protected = false; emergency = true; closed = false }) s

  -- `_emergency_close`
  unfoldable pub emergency_close : Action (Guarded D W) ProtectionResult
  unfolding place_exit
  emergency_close s =
      let p = s.position in
      continue flattened
        (within (place_exit gw c.order p.symbol (exit_side p.side) p.qty market none) s)

  -- The position becomes active if it is protected.
  abbrev pub activate_or :
      Action (Guarded D W) ProtectionResult → Bool → Action (Guarded D W) ProtectionResult
  activate_or other true = activate
  activate_or other false = other

  abbrev pub then_verify : Option Bool → Action (Guarded D W) ProtectionResult
  then_verify none = raise gateway_error
  then_verify (some success) =
      if c.verify_tpsl_after_entry
      then verify c.verify_tpsl_retry_count >>= activate_or emergency_close
      else activate

  abbrev request_for : Symbol → Option (TpSl D) → Option (TradingStopRequest D)
  request_for symbol none = none
  request_for symbol (some tpsl) = some (record { symbol = symbol; tpsl = tpsl })

  -- The request of both sides; none where `TriggerBy` raises `ValueError`.
  abbrev pub both_sides : Position D → Option (TradingStopRequest D)
  both_sides p = request_for p.symbol (
      with_triggers (wanted c.use_exchange_sl p.stop_loss_price)
        (wanted c.use_exchange_tp p.take_profit_price) c.order.tp_trigger_by c.order.sl_trigger_by)

  abbrev pub requested : Option (TradingStopRequest D) → Action (Guarded D W) ProtectionResult
  requested none = raise value_error
  requested (some request) = λ s. continue then_verify (asks (gw.set_trading_stop request) s)

  -- The request of both sides, and what follows it.
  unfoldable pub request_and_verify : Action (Guarded D W) ProtectionResult
  unfolding verify activate emergency_close
  request_and_verify s = requested (both_sides s.position) s

  -- Whether nothing is asked of the exchange.
  abbrev pub nothing_wanted : Position D → Bool
  nothing_wanted p =
      not (is_some (wanted c.use_exchange_tp p.take_profit_price))
      && not (is_some (wanted c.use_exchange_sl p.stop_loss_price))

  -- `protect`, after the position is confirmed.
  unfoldable pub protect_confirmed : Action (Guarded D W) ProtectionResult
  unfolding verify activate request_and_verify
  protect_confirmed s =
      if nothing_wanted s.position
      then activate s
      else if c.verify_tpsl_after_entry
      then (verify c.verify_tpsl_retry_count >>= activate_or request_and_verify) s
      else request_and_verify s

  -- `protect` and `resync`
  unfoldable pub protect : Action (Guarded D W) ProtectionResult
  unfolding confirm_position protect_confirmed
  protect = do confirm_position; protect_confirmed

  -- `sync_stop_loss`: whether the stop was sent.
  unfoldable pub sync_stop_loss : Action (Guarded D W) Bool
  sync_stop_loss s =
      let p = s.position in
      let now = gw.clock s.session.world in
      let interval =
        if p.runner_mode_active
        then c.runner_update_interval
        else c.min_exchange_sl_update_interval in
      let request : TriggerBy → TradingStopRequest D = λ trigger. record {
        symbol = p.symbol;
        tpsl = record {
          take_profit = none;
          stop_loss = p.stop_loss_price;
          tp_trigger_by = last_price;
          sl_trigger_by = trigger;
        };
      } in
      if not c.sync_exchange_sl_with_trailing
        || not c.use_exchange_sl
        || not (is_some p.stop_loss_price)
      then pure false s
      else if ltb (now - s.last_sl_update_at) interval
      then pure false s
      else (do
        trigger ← or_raise c.order.sl_trigger_by value_error
        reply ← asks (gw.set_trading_stop (request trigger))
        _ ← or_raise reply gateway_error
        modify (λ t. record t { last_sl_update_at = now })
        pure true)
          s
