-- ===== src/Runtime/Orders.antt =====
-- Which symbols are settling, from the whole sequence of calls.
use quantbot.Prelude.{
  ◌≡◌, refl, ℕ, ◌+◌, ◌-◌, Bool, true, false, ltb, ◌==◌, if◌then◌else◌, some, List, [], ◌∷◌, any,
  Dict, lookup, values, Unique, Unique-insert, Unique-remove, lookup-insert, lookup-insert_other,
  lookup-remove, lookup-remove_other, arith,
}
use quantbot.Core.Models.{Symbol}
use quantbot.Runtime.{
  RuntimeState, reserve_order, clear_order_reservation, has_pending_order_for_symbol, updates_of,
  begin_position_update, end_position_update, has_position_update_for_symbol,
  has_bot_order_settling_for_symbol,
}

-- The calls around a fill: an update of a position begins or ends.
pub data Update : Type 0 where
  begins : Symbol → Update
  ends : Symbol → Update

-- How many updates of a symbol are still running: an end without a beginning is dropped.
abbrev pub in_flight : Symbol → ℕ → List Update → ℕ
in_flight symbol n [] = n
in_flight symbol n (begins s ∷ us) =
    let here = in_flight symbol (n + 1) us in
    let there = in_flight symbol n us in if s == symbol then here else there
in_flight symbol n (ends s ∷ us) =
    let here = in_flight symbol (n - 1) us in
    let there = in_flight symbol n us in if s == symbol then here else there

-- Calls on reservations and on running updates.
pub data Call : Type 0 where
  reserves : ℕ → Symbol → Call
  clears : ℕ → Call
  updates : Update → Call

abbrev pub is_about : ℕ → Call → Bool
is_about id (reserves k symbol) = k == id
is_about id (clears k) = k == id
is_about id (updates u) = false

lookup-pending :
    (id : ℕ) (symbol : Symbol) (m : Dict Symbol)
    → lookup id m ≡ some symbol
    → any (λ reserved. reserved == symbol) (values m) ≡ true
lookup-pending id symbol [] h = cc
lookup-pending id symbol ((j, w) ∷ m) h = ground (arith, lookup-pending id symbol m)

module _ {D : Type 0} where
  unfoldable pub run_updates : List Update → RuntimeState D → RuntimeState D
  run_updates [] s = s
  run_updates (begins k ∷ us) s = run_updates us (begin_position_update k s)
  run_updates (ends k ∷ us) s = run_updates us (end_position_update k s)

  updates_of-begin :
      (symbol k : Symbol) (s : RuntimeState D)
      → updates_of symbol (begin_position_update k s)
        ≡ (if k == symbol then updates_of symbol s + 1 else updates_of symbol s)
  unfolding updates_of begin_position_update
  updates_of-begin symbol k s = ground (
    arith,
    lookup-insert k (updates_of k s + 1) s.position_update_symbols,
    lookup-insert_other k symbol (updates_of k s + 1) s.position_update_symbols,
  )

  updates_of-end :
      (symbol k : Symbol) (s : RuntimeState D)
      → Unique s.position_update_symbols
      → updates_of symbol (end_position_update k s)
        ≡ (if k == symbol then updates_of symbol s - 1 else updates_of symbol s)
  unfolding updates_of end_position_update
  updates_of-end symbol k s u = ground (
    arith,
    lookup-insert k (updates_of k s - 1) s.position_update_symbols,
    lookup-insert_other k symbol (updates_of k s - 1) s.position_update_symbols,
    lookup-remove k s.position_update_symbols u,
    lookup-remove_other k symbol s.position_update_symbols,
  )

  Unique-begin :
      (k : Symbol) (s : RuntimeState D)
      → Unique s.position_update_symbols
      → Unique (begin_position_update k s).position_update_symbols
  unfolding begin_position_update
  Unique-begin k s u = Unique-insert k (updates_of k s + 1) s.position_update_symbols u

  Unique-end :
      (k : Symbol) (s : RuntimeState D)
      → Unique s.position_update_symbols
      → Unique (end_position_update k s).position_update_symbols
  unfolding end_position_update
  Unique-end k s u = ground (
    arith,
    Unique-insert k (updates_of k s - 1) s.position_update_symbols u,
    Unique-remove k s.position_update_symbols u,
  )

  none-running :
      (symbol : Symbol) (s : RuntimeState D)
      → s.position_update_symbols ≡ []
      → updates_of symbol s ≡ 0
  unfolding updates_of
  none-running symbol s h = rw h refl

  run-in_flight :
      (symbol : Symbol) (us : List Update) (s : RuntimeState D)
      → Unique s.position_update_symbols
      → updates_of symbol (run_updates us s) ≡ in_flight symbol (updates_of symbol s) us
  unfolding run_updates
  run-in_flight symbol [] s u = refl
  run-in_flight symbol (begins k ∷ us) s u =
      let next = begin_position_update k s in
      let ih = run-in_flight symbol us next (Unique-begin k s u) in
      ground (arith, ih, updates_of-begin symbol k s)
  run-in_flight symbol (ends k ∷ us) s u =
      let next = end_position_update k s in
      let ih = run-in_flight symbol us next (Unique-end k s u) in
      ground (arith, ih, updates_of-end symbol k s u)

  -- From a state without running updates a symbol has one running exactly when its number of updates
  -- in flight is above zero, over any interleaving of the calls for all symbols: a begin adds one to
  -- the number of its symbol, and an end takes one away, or does nothing where none is in flight.
  pub updates_are_counted :
      (symbol : Symbol) (us : List Update) (s : RuntimeState D)
      → s.position_update_symbols ≡ []
      → has_position_update_for_symbol symbol (run_updates us s) ≡ ltb 0 (in_flight symbol 0 us)
  unfolding has_position_update_for_symbol
  updates_are_counted symbol us s h =
      rw (run-in_flight symbol us s (rw h tt), none-running symbol s h) refl

  unfoldable pub run_calls : List Call → RuntimeState D → RuntimeState D
  run_calls [] s = s
  run_calls (reserves k symbol ∷ cs) s = run_calls cs (reserve_order (some k) symbol s)
  run_calls (clears k ∷ cs) s = run_calls cs (clear_order_reservation (some k) s)
  run_calls (updates u ∷ cs) s = run_calls cs (run_updates (u ∷ []) s)

  stays_reserved :
      (id : ℕ) (symbol : Symbol) (cs : List Call) (s : RuntimeState D)
      → any (is_about id) cs ≡ false
      → lookup id s.pending_order_symbols ≡ some symbol
      → lookup id (run_calls cs s).pending_order_symbols ≡ some symbol
  unfolding run_calls reserve_order clear_order_reservation run_updates begin_position_update
      end_position_update
  stays_reserved id symbol [] s q h = h
  stays_reserved id symbol (reserves k t ∷ cs) s q h =
      stays_reserved id symbol cs _ (ground arith)
        (ground (arith, lookup-insert_other k id t s.pending_order_symbols))
  stays_reserved id symbol (clears k ∷ cs) s q h =
      stays_reserved id symbol cs _ (ground arith)
        (ground (arith, lookup-remove_other k id s.pending_order_symbols))
  stays_reserved id symbol (updates (begins k) ∷ cs) s q h = stays_reserved id symbol cs _ q h
  stays_reserved id symbol (updates (ends k) ∷ cs) s q h =
      stays_reserved id symbol cs (end_position_update k s) q (ground arith)

  -- From the reservation of an order to the first later call about its id, its symbol counts as
  -- settling, whatever other orders and updates come and go.
  pub reserved_until_cleared :
      (id : ℕ) (symbol : Symbol) (cs : List Call) (s : RuntimeState D)
      → any (is_about id) cs ≡ false
      → has_bot_order_settling_for_symbol symbol (run_calls cs (reserve_order (some id) symbol s))
        ≡ true
  unfolding has_bot_order_settling_for_symbol has_pending_order_for_symbol
  reserved_until_cleared id symbol cs s q =
      let kept =
        stays_reserved id symbol cs (reserve_order (some id) symbol s) q
          (unfold reserve_order in lookup-insert id symbol s.pending_order_symbols) in
      rw (lookup-pending id symbol _ kept) refl
