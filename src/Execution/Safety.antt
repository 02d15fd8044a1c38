-- ===== src/Execution/Safety.antt =====
-- What the order manager may send, and how its calls end, whatever the exchange answers.
use quantbot.Prelude.{
  ◌≡◌, refl, ◌⊎◌, inl, inr, ℕ, zero, suc, ◌≤◌, true, false, Option, none, some, [], All,
  Option-cases, Bool-cases, Bool, not, ◌&&◌, ◌||◌, is_some,
}
use quantbot.Number.{Number, num, ◌<=◌, ◌<<◌, ◌⊘◌}
use quantbot.Core.Enums.{
  TriggerBy, Side, OrderType, limit, aggressive_limit, market, cancelled, opposite, is_market,
}
use quantbot.Core.Models.{Symbol}
use quantbot.Core.Orders.{TpSl, no_tpsl, OrderRequest, ExchangeOrderResult}
use quantbot.Exchange.{
  ◌>>=◌, ExchangeGateway, Session, IsClock, raised, order_error, key_error, value_error, qb, exit,
  ptp,
}
use quantbot.Execution.Policy.{OrderConfig, entry_order_type, is_forbidden, limit_ttl_sec}
use quantbot.Execution.Orders.{
  Entry, with_triggers, entry_tpsl, place_exit, exit_remainder, place_partial_exit, keep_or_flatten,
  place_allowed, resting_request, place_aggressive, withdraw, place_limit, place_entry,
}
use quantbot.Execution.Resolving.{safe_cancel}
use quantbot.Execution.Kept.{Keeps, bind-Keeps, known-Keeps, if-Keeps, Sent, IsStable}
use quantbot.Execution.Steps.{calls-Keeps, safe_cancel-Keeps, record_order-Keeps, place-Keeps}

module _ {D : Type 0} where
  -- A request that reduces a position of the symbol from the given side.
  abbrev pub Reduces : Symbol → Side → OrderRequest D → Type 0
  Reduces symbol side r = (r.symbol ≡ symbol) × (r.side ≡ side) × (r.reduce_only ≡ true)

  -- The given prices are attached, with the given triggers where there is a price.
  abbrev pub AttachedTo :
      Option D → Option D → Option TriggerBy → Option TriggerBy → TpSl D → Type 0
  AttachedTo stop target tp sl t =
      (t.stop_loss ≡ stop)
      × (t.take_profit ≡ target)
      × (is_some stop || is_some target ≡ true
          → (tp ≡ some t.tp_trigger_by) × (sl ≡ some t.sl_trigger_by))

  abbrev pub Attached : OrderConfig D → Entry D → TpSl D → Type 0
  Attached cfg e t = AttachedTo e.stop_loss e.take_profit cfg.tp_trigger_by cfg.sl_trigger_by t

  -- A price is to be attached, and one of the triggers is not known.
  abbrev pub lacks : Option D → Option D → Option TriggerBy → Option TriggerBy → Bool
  lacks stop target tp sl = (is_some stop || is_some target) && not (is_some tp && is_some sl)

  abbrev pub lacks_trigger : OrderConfig D → Entry D → Bool
  lacks_trigger cfg e = lacks e.stop_loss e.take_profit cfg.tp_trigger_by cfg.sl_trigger_by

  -- A request that opens the entry: no market order, with the stop loss and the take profit.
  abbrev pub Opens : OrderConfig D → Entry D → OrderRequest D → Type 0
  Opens cfg e r =
      (r.symbol ≡ e.symbol)
      × (r.side ≡ e.side)
      × (is_market r.order_type ≡ false)
      × Attached cfg e r.tpsl

  abbrev pub IsOfEntry : OrderConfig D → Entry D → OrderRequest D → Type 0
  IsOfEntry cfg e r = Opens cfg e r ⊎ Reduces e.symbol (opposite e.side) r

module _ {D : Type 0} where
  with_triggers-AttachedTo :
      (stop target : Option D) (tp sl : Option TriggerBy)
      → ((with_triggers stop target tp sl ≡ none) × (is_some tp && is_some sl ≡ false))
        ⊎ ((t : TpSl D) × (with_triggers stop target tp sl ≡ some t)
            × (is_some tp && is_some sl ≡ true)
            × AttachedTo stop target tp sl t)
  with_triggers-AttachedTo stop target (some tp) (some sl) = inr (
    record { take_profit = target; stop_loss = stop; tp_trigger_by = tp; sl_trigger_by = sl },
    refl,
    refl,
    (refl, refl, λ h. (refl, refl)),
  )
  with_triggers-AttachedTo stop target (some tp) none = inl (refl, refl)
  with_triggers-AttachedTo stop target none sl = inl (refl, refl)

  entry_tpsl-AttachedTo :
      (cfg : OrderConfig D) (stop target : Option D)
      → ((entry_tpsl cfg stop target ≡ none)
          × (lacks stop target cfg.tp_trigger_by cfg.sl_trigger_by ≡ true))
        ⊎ ((t : TpSl D) × (entry_tpsl cfg stop target ≡ some t)
            × (lacks stop target cfg.tp_trigger_by cfg.sl_trigger_by ≡ false)
            × AttachedTo stop target cfg.tp_trigger_by cfg.sl_trigger_by t)
  entry_tpsl-AttachedTo cfg none none = inr (no_tpsl, refl, refl, (refl, refl, λ h. cc))
  entry_tpsl-AttachedTo cfg (some stop) target =
      elim (with_triggers-AttachedTo (some stop) target cfg.tp_trigger_by cfg.sl_trigger_by) [
        | inl (unknown, missing) ↦ inl (unknown, simp missing refl)
        | inr (t, known, there, attached) ↦ inr (t, known, simp there refl, attached)
      ]
  entry_tpsl-AttachedTo cfg none (some target) =
      elim (with_triggers-AttachedTo none (some target) cfg.tp_trigger_by cfg.sl_trigger_by) [
        | inl (unknown, missing) ↦ inl (unknown, simp missing refl)
        | inr (t, known, there, attached) ↦ inr (t, known, simp there refl, attached)
      ]

module _ {D W : Type 0} ⦃d : Number D⦄ (gw : ExchangeGateway D W) (cfg : OrderConfig D)
    (law : IsClock D W gw) (ticks : 1 ≤ cfg.poll_interval) where
  Reduces-IsStable : (symbol : Symbol) (side : Side) → IsStable (Reduces {D = D} symbol side)
  Reduces-IsStable symbol side = (λ r q h. h, λ r id h. h)

  IsOfEntry-IsStable : (e : Entry D) → IsStable (IsOfEntry cfg e)
  IsOfEntry-IsStable e = (
    λ r q h. elim h [ inl o ↦ inl o | inr x ↦ inr x ],
    λ r id h. elim h [ inl o ↦ inl o | inr x ↦ inr x ],
  )

  module _ (P : OrderRequest D → Type 0) (stable : IsStable P) (symbol : Symbol) (side : Side)
      (h : (r : OrderRequest D) → Reduces symbol side r → P r) where
    exit-Keeps :
        (qty : D) (order_type : OrderType) (price : Option D)
        → Keeps (Sent {W = W} P) (place_exit gw cfg symbol side qty order_type price)
    unfolding place_exit
    exit-Keeps qty order_type price =
        bind-Keeps (Sent P) _ _ (calls-Keeps gw cfg law ticks P (gw.new_id exit)) (λ id.
          bind-Keeps (Sent P) _ _
            (place-Keeps gw cfg law ticks P _ none none stable (h _ (refl, refl, refl)))
            (λ result s k. (k, refl)))

    remainder-Keeps :
        (qty : D) (result : ExchangeOrderResult D) (id : ℕ)
        → Keeps (Sent {W = W} P) (exit_remainder gw cfg symbol side qty result id)
    unfolding exit_remainder
    remainder-Keeps qty result id =
        bind-Keeps (Sent P) _ _
          (safe_cancel-Keeps gw cfg law ticks P symbol result.order_id (some id))
          (λ _.
            if-Keeps (Sent P) _ _ _
              (bind-Keeps (Sent P) _ _ (exit-Keeps _ market none) (λ rest s k. (k, refl)))
              (exit-Keeps qty market none))

    partial-Keeps :
        (qty : D) (price : Option D)
        → Keeps (Sent {W = W} P) (place_partial_exit gw cfg symbol side qty price)
    unfolding place_partial_exit
    partial-Keeps qty none = exit-Keeps qty market none
    partial-Keeps qty (some price) =
        bind-Keeps (Sent P) _ _ (calls-Keeps gw cfg law ticks P (gw.new_id ptp)) (λ id.
          bind-Keeps (Sent P) _ _
            (place-Keeps gw cfg law ticks P _ none none stable (h _ (refl, refl, refl)))
            (λ result. if-Keeps (Sent P) _ _ _ (λ s k. (k, refl)) (remainder-Keeps qty result id)))

  module _ (e : Entry D) (P : OrderRequest D → Type 0) (stable : IsStable P)
      (h : (r : OrderRequest D) → IsOfEntry cfg e r → P r) (t : TpSl D)
      (known : entry_tpsl cfg e.stop_loss e.take_profit ≡ some t)
      (attached : Attached cfg e t) where
    entry-exit :
        (qty : D)
        → Keeps (Sent {W = W} P) (place_exit gw cfg e.symbol (opposite e.side) qty market none)
    entry-exit qty =
        exit-Keeps P stable e.symbol (opposite e.side) (λ r k. h r (inr k)) qty market none

    cancel-Keeps :
        (order_id id : Option ℕ) → Keeps (Sent {W = W} P) (safe_cancel gw e.symbol order_id id)
    cancel-Keeps order_id id = safe_cancel-Keeps gw cfg law ticks P e.symbol order_id id

    keep_or_flatten-Keeps :
        (result : ExchangeOrderResult D) (id : ℕ)
        → Keeps (Sent {W = W} P) (keep_or_flatten gw cfg e result id)
    unfolding keep_or_flatten
    keep_or_flatten-Keeps result id =
        let I = Sent {W = W} P in
        if-Keeps I (cfg.orders.partial_fill_min_ratio_to_keep <= (result.filled_qty ⊘ e.qty)) _ _
          (if-Keeps I (result.filled_qty << e.qty) _ _
            (bind-Keeps I _ _ (cancel-Keeps result.order_id (some id)) (λ _ s k. (k, refl)))
            (λ s k. (k, refl)))
          (bind-Keeps I _ _ (cancel-Keeps result.order_id (some id))
            (λ _. bind-Keeps I _ _ (entry-exit result.filled_qty) (λ _ s k. (k, refl))))

    aggressive-Keeps : Keeps (Sent {W = W} P) (place_aggressive gw cfg e)
    unfolding place_aggressive
    aggressive-Keeps =
        let I = Sent {W = W} P in
        bind-Keeps I _ _ (calls-Keeps gw cfg law ticks P (gw.new_id qb)) (λ id.
          known-Keeps I _ value_error _ t known (
            bind-Keeps I _ _
              (place-Keeps gw cfg law ticks P _ (some e.mode) none stable
                (h _ (inl (refl, refl, refl, attached))))
              (λ result. if-Keeps I _ _ _ (λ s k. (k, refl)) (keep_or_flatten-Keeps result id))))

    withdraw-Keeps :
        (result : ExchangeOrderResult D) (id : ℕ)
        → Keeps (Sent {W = W} P) (withdraw gw cfg e t result id)
    unfolding withdraw
    withdraw-Keeps result id =
        bind-Keeps (Sent P) _ _ (cancel-Keeps result.order_id (some id)) (λ _.
          record_order-Keeps gw cfg law ticks P (resting_request gw cfg e t id)
            (record result { status = cancelled }) (some e.mode))

    limit-Keeps : (tries : ℕ) → Keeps (Sent {W = W} P) (place_limit gw cfg tries e)
    unfolding place_limit
    limit-Keeps zero = λ s k. (k, refl)
    limit-Keeps (suc tries) =
        let I = Sent {W = W} P in
        let again = limit-Keeps tries in
        bind-Keeps I _ _ (calls-Keeps gw cfg law ticks P (gw.new_id qb)) (λ id.
          known-Keeps I _ value_error _ t known (
            bind-Keeps I _ _
              (place-Keeps gw cfg law ticks P (resting_request gw cfg e t id) (some e.mode)
                (some (limit_ttl_sec e.mode cfg.orders)) stable
                (h _ (inl (refl, refl, refl, attached))))
              (λ result.
                if-Keeps I (result.filled_qty <= num 0) _ _
                  (bind-Keeps I _ _ (withdraw-Keeps result id) (λ _. again))
                  (if-Keeps I (result.filled_qty << e.qty) _ _
                    (bind-Keeps I _ _ (withdraw-Keeps result id) (λ _ s k. (k, refl)))
                    (λ s k. (k, refl))))))

    allowed-Keeps :
        (order_type : OrderType) → Keeps (Sent {W = W} P) (place_allowed gw cfg order_type e)
    unfolding place_allowed
    allowed-Keeps aggressive_limit = aggressive-Keeps
    allowed-Keeps limit = limit-Keeps (suc cfg.orders.limit_reorder_attempts)
    allowed-Keeps market = limit-Keeps (suc cfg.orders.limit_reorder_attempts)

  -- Without known triggers nothing is sent.
  unknown_trigger :
      (e : Entry D) (t : OrderType) (s : Session D W)
      → entry_tpsl cfg e.stop_loss e.take_profit ≡ none
      → ((place_allowed gw cfg t e s).0 ≡ raised value_error)
        × ((place_allowed gw cfg t e s).1.sent ≡ s.sent)
  unfolding place_allowed place_aggressive place_limit ◌>>=◌
  unknown_trigger e aggressive_limit s unknown = simp unknown (refl, refl)
  unknown_trigger e limit s unknown = simp unknown (refl, refl)
  unknown_trigger e market s unknown = simp unknown (refl, refl)

  -- The three ways through `place_entry`.
  place_entry-ways :
      (e : Entry D) (s : Session D W)
      → ((entry_order_type e.mode cfg.orders ≡ none)
          × (place_entry gw cfg e s ≡ (raised key_error, s)))
        ⊎ (((t : OrderType) × (entry_order_type e.mode cfg.orders ≡ some t)
              × (is_forbidden t false cfg.orders ≡ true)
              × (place_entry gw cfg e s ≡ (raised order_error, s)))
            ⊎ ((t : OrderType) × (entry_order_type e.mode cfg.orders ≡ some t)
                × (is_forbidden t false cfg.orders ≡ false)
                × (place_entry gw cfg e s ≡ place_allowed gw cfg t e s)))
  unfolding place_entry ◌>>=◌
  place_entry-ways e s = elim (Option-cases (entry_order_type e.mode cfg.orders)) [
    | inl absent ↦ inl (absent, rw absent refl)
    | inr (t, e') ↦ elim (Bool-cases (is_forbidden t false cfg.orders)) [
      | inl yes' ↦ inr (inl (t, e', yes', rw (e', yes') refl))
      | inr no' ↦ inr (inr (t, e', no', rw (e', no') refl))
    ]
  ]

  -- Whatever the exchange answers, an entry with nothing sent before it sends only requests for its
  -- symbol that either open it on its side, as no market order, with exactly its stop loss and its
  -- take profit attached and, where it has one of them, the configured triggers, or are reduce-only
  -- on the opposite side. The clock must not run backwards and the poll interval must not be zero.
  pub entries_are_safe :
      (e : Entry D) (s : Session D W)
      → s.sent ≡ []
      → All (IsOfEntry cfg e) (place_entry gw cfg e s).1.sent
  entries_are_safe e s h =
      let begin : Sent (IsOfEntry cfg e) s = rw h tt in
      elim (place_entry-ways e s) [
        | inl (_, stop) ↦ rw stop begin
        | inr (inl (_, _, _, stop)) ↦ rw stop begin
        | inr (inr (t, _, _, go)) ↦
            rw go (elim (entry_tpsl-AttachedTo cfg e.stop_loss e.take_profit) [
              | inl (unknown, _) ↦ rw (unknown_trigger e t s unknown).1 begin
              | inr (tpsl, known, _, attached) ↦
                  (allowed-Keeps e (IsOfEntry cfg e) (IsOfEntry-IsStable e) (λ r k. k) tpsl known
                    attached t s begin).0
            ])
      ]

  -- Whatever the exchange answers, an exit and a partial exit with nothing sent before them send only
  -- reduce-only requests for the given symbol and side. The clock must not run backwards and the
  -- poll interval must not be zero.
  pub exits_only_reduce :
      (symbol : Symbol) (side : Side) (qty : D) (order_type : OrderType) (price : Option D)
      (s : Session D W)
      → s.sent ≡ []
      → All (Reduces symbol side) (place_exit gw cfg symbol side qty order_type price s).1.sent
        × All (Reduces symbol side) (place_partial_exit gw cfg symbol side qty price s).1.sent
  exits_only_reduce symbol side qty order_type price s h =
      let begin : Sent (Reduces symbol side) s = rw h tt in
      (
        (exit-Keeps (Reduces symbol side) (Reduces-IsStable symbol side) symbol side (λ r k. k) qty
            order_type price s begin).0,
        (partial-Keeps (Reduces symbol side) (Reduces-IsStable symbol side) symbol side (λ r k. k)
            qty price s begin).0,
      )
