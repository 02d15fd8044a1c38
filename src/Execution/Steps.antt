-- ===== src/Execution/Steps.antt =====
-- packages/execution/order_manager.py: every step of a request keeps a property of the requests
-- sent.
use quantbot.Prelude.{◌≤◌, refl, ◌+◌, ◌*◌, ℕ, zero, suc, true, ◌≡◌, Option, none, some, arith}
use quantbot.Number.{Number}
use quantbot.Core.Enums.{EntryMode}
use quantbot.Core.Models.{Symbol, SymbolMeta}
use quantbot.Universe.{round_qty_down}
use quantbot.Core.Orders.{OrderRequest, ExchangeOrder, ExchangeOrderResult}
use quantbot.Exchange.{IsClock, ends_well, retry, calls, ExchangeGateway, Session, ◌>>=◌}
use quantbot.Execution.Policy.{OrderConfig}
use quantbot.Execution.Resolving.{
  result_of, meta_for, send, recover_order, safe_cancel, reserve, clear, record_order,
  normalize_request_qty, poll, resolve, ttl_sec,
}
use quantbot.Execution.Placing.{finish, place_again, recover, place_once, place}
use quantbot.Execution.Kept.{
  if-holds, Keeps, bind-Keeps, if-Keeps, option-Keeps, answer-Keeps, Sent, IsStable,
}

module _ {D W : Type 0} ⦃d : Number D⦄ (gw : ExchangeGateway D W) (cfg : OrderConfig D)
    (law : IsClock D W gw) (ticks : 1 ≤ cfg.poll_interval) (P : OrderRequest D → Type 0) where
  meta_for-Keeps : (symbol : Symbol) → Keeps (Sent {W = W} P) (meta_for gw symbol)
  unfolding meta_for
  meta_for-Keeps symbol s h = ground arith

  poll-Keeps :
      (fuel : ℕ)
      (get_order : Symbol → Option ℕ → Option ℕ → W → Option (Option (ExchangeOrder D)) × W)
      (r : OrderRequest D) (placed : ExchangeOrderResult D) (deadline : ℕ)
      (last : ExchangeOrderResult D) (s : Session D W)
      → gw.get_order ≡ some get_order
      → deadline ≤ gw.clock s.world + fuel
      → Sent P s
      → Sent P (poll gw cfg (suc fuel) get_order r placed deadline last s).1
        × (ends_well (poll gw cfg (suc fuel) get_order r placed deadline last s).0 ≡ true)
  unfolding poll ◌>>=◌
  poll-Keeps zero get_order r placed deadline last s given enough h =
      let (reply, w) = get_order r.symbol placed.order_id placed.client_order_id s.world in
      let later =
        law.get_order_later get_order r.symbol placed.order_id placed.client_order_id s.world
          given in
      elim reply
          as (λ x.
            reply ≡ x
            → Sent P (poll gw cfg (suc zero) get_order r placed deadline last s).1
              × (ends_well (poll gw cfg (suc zero) get_order r placed deadline last s).0 ≡ true)) [
                | some (some order) ↦ λ e. ground (arith, later)
                | _ ↦ λ e. ground arith
              ]
        refl
  poll-Keeps (suc n) get_order r placed deadline last s given enough h =
      let (reply, w) = get_order r.symbol placed.order_id placed.client_order_id s.world in
      let later =
        law.get_order_later get_order r.symbol placed.order_id placed.client_order_id s.world
          given in
      elim reply
          as (λ x.
            reply ≡ x
            → Sent P (poll gw cfg (suc (suc n)) get_order r placed deadline last s).1
              × (ends_well (poll gw cfg (suc (suc n)) get_order r placed deadline last s).0
                  ≡ true)) [
                    | some (some order) ↦ λ e.
                        let slept = law.sleep_later cfg.poll_interval w in
                        let next = record s { world = gw.sleep cfg.poll_interval w } in
                        ground (
                          arith,
                          later,
                          poll-Keeps n get_order r placed deadline (result_of order) next given
                              (omega (arith, later, slept, enough, ticks)) h,
                        )
                    | _ ↦ λ e. ground arith
                  ]
        refl

  pub calls-Keeps : {A : Type 0} (call : W → A × W) → Keeps (Sent {D = D} P) (calls call)
  calls-Keeps call s h = (h, refl)

  reserve-Keeps : (r : OrderRequest D) → Keeps (Sent {W = W} P) (reserve cfg r)
  unfolding reserve
  reserve-Keeps r s h = (h, refl)

  clear-Keeps : (id : Option ℕ) → Keeps (Sent {W = W} P) (clear cfg id)
  unfolding clear
  clear-Keeps id s h = (h, refl)

  send-Keeps : (r : OrderRequest D) → P r → Keeps (Sent {W = W} P) (send gw r)
  unfolding send
  send-Keeps r p s h = ((p, h), refl)

  resolve-Keeps :
      (r : OrderRequest D) (placed : ExchangeOrderResult D) (ttl : Option ℕ)
      → Keeps (Sent {W = W} P) (resolve gw cfg r placed ttl)
  unfolding resolve
  resolve-Keeps r placed ttl s h =
      elim gw.get_order
          as (λ x.
            gw.get_order ≡ x
            → Sent P (resolve gw cfg r placed ttl s).1
              × (ends_well (resolve gw cfg r placed ttl s).0 ≡ true)) [
                | none ↦ λ e. ground arith
                | some get_order ↦ λ e.
                    let ms = ttl_sec gw cfg r ttl * 1000 in
                    ground
                      (arith, poll-Keeps ms get_order r placed (gw.clock s.world + ms) placed s e)
              ]
        refl

  pub safe_cancel-Keeps :
      (symbol : Symbol) (order_id id : Option ℕ)
      → Keeps (Sent {D = D} P) (safe_cancel gw symbol order_id id)
  unfolding safe_cancel
  safe_cancel-Keeps symbol order_id id s h = (h, refl)

  pub record_order-Keeps :
      (r : OrderRequest D) (result : ExchangeOrderResult D) (mode : Option EntryMode)
      → Keeps (Sent {W = W} P) (record_order cfg r result mode)
  unfolding record_order ◌>>=◌
  record_order-Keeps r result mode s h = ground arith

  finish-Keeps :
      (r : OrderRequest D) (mode : Option EntryMode) (ttl : Option ℕ)
      (placed : ExchangeOrderResult D)
      → Keeps (Sent {W = W} P) (finish gw cfg r mode ttl placed)
  unfolding finish
  finish-Keeps r mode ttl placed = bind-Keeps (Sent P) _ _ (resolve-Keeps r placed ttl) (λ result.
      bind-Keeps (Sent P) _ _ (record_order-Keeps r result mode)
        (λ _. bind-Keeps (Sent P) _ _ (clear-Keeps r.client_order_id) (λ _ s h. (h, refl))))

  place_again-Keeps :
      (r : OrderRequest D) (mode : Option EntryMode) (ttl : Option ℕ)
      → P r
      → Keeps (Sent {W = W} P) (place_again gw cfg r mode ttl)
  unfolding place_again
  place_again-Keeps r mode ttl p = bind-Keeps (Sent P) _ _ (reserve-Keeps r) (λ _.
      bind-Keeps (Sent P) _ _ (send-Keeps r p) (λ answer.
        answer-Keeps (Sent P) answer _ _ _ (finish-Keeps r mode ttl) (λ s h. (h, refl))
          (λ s h. (h, refl))))

  recover_order-Keeps :
      (symbol : Symbol) (id : Option ℕ) → Keeps (Sent {W = W} P) (recover_order gw symbol id)
  unfolding recover_order ◌>>=◌
  recover_order-Keeps symbol id s h = ground arith

  recover-Keeps :
      (r : OrderRequest D) (mode : Option EntryMode) (ttl : Option ℕ)
      → ((id : Option ℕ) → P (record r { client_order_id = id }))
      → Keeps (Sent {W = W} P) (recover gw cfg r mode ttl)
  unfolding recover
  recover-Keeps r mode ttl p =
      bind-Keeps (Sent P) _ _ (recover_order-Keeps r.symbol r.client_order_id) (λ found.
        option-Keeps (Sent P) found _ _
          (bind-Keeps (Sent P) _ _ (clear-Keeps r.client_order_id) (λ _.
            bind-Keeps (Sent P) _ _ (calls-Keeps (gw.new_id retry)) (λ id.
              place_again-Keeps (record r { client_order_id = some id }) mode ttl (p (some id)))))
          (λ order.
            bind-Keeps (Sent P) _ _ (record_order-Keeps r (result_of order) mode)
              (λ _. bind-Keeps (Sent P) _ _ (clear-Keeps r.client_order_id) (λ _ s h. (h, refl)))))

  place_once-Keeps :
      (r : OrderRequest D) (mode : Option EntryMode) (ttl : Option ℕ)
      → P r
      → ((id : Option ℕ) → P (record r { client_order_id = id }))
      → Keeps (Sent {W = W} P) (place_once gw cfg r mode ttl)
  unfolding place_once
  place_once-Keeps r mode ttl p q = bind-Keeps (Sent P) _ _ (reserve-Keeps r) (λ _.
      bind-Keeps (Sent P) _ _ (send-Keeps r p) (λ answer.
        answer-Keeps (Sent P) answer _ _ _ (finish-Keeps r mode ttl) (recover-Keeps r mode ttl q)
          (bind-Keeps (Sent P) _ _ (clear-Keeps r.client_order_id) (λ _ s h. (h, refl)))))

  normalize_request_qty_stable :
      (r : OrderRequest D) (meta : Option (SymbolMeta D))
      → IsStable P
      → P r
      → P (normalize_request_qty r meta)
  unfolding normalize_request_qty
  normalize_request_qty_stable r none stable p = p
  normalize_request_qty_stable r (some meta) stable p =
      if-holds P _ r _ p (stable.0 r (round_qty_down r.qty meta.qty_step) p)

  -- Whatever the exchange does, `place` sends the given request with another quantity or id, or
  -- nothing.
  pub place-Keeps :
      (r : OrderRequest D) (mode : Option EntryMode) (ttl : Option ℕ)
      → IsStable P
      → P r
      → Keeps (Sent {W = W} P) (place gw cfg r mode ttl)
  unfolding place
  place-Keeps r mode ttl stable p = bind-Keeps (Sent P) _ _ (meta_for-Keeps r.symbol) (λ meta.
      let q = normalize_request_qty_stable r meta stable p in
      if-Keeps (Sent P) _ _ _ (λ s h. (h, refl))
        (place_once-Keeps (normalize_request_qty r meta) mode ttl q
          (λ id. stable.1 (normalize_request_qty r meta) id q)))
