-- ===== src/Scanner/Depth.antt =====
-- packages/scanner/symbol_scanner.py, `depth_usdt_within`.
use quantbot.Prelude.{if◌then◌else◌, Bool, Option, none, some, List, [], ◌∷◌}
use quantbot.Core.Models.{OrderBook, OrderBookLevel, best_bid, best_ask}
use quantbot.Number.{Number, num, ◌⊕◌, ◌⊖◌, ◌⊗◌, ◌⊘◌, ◌<=◌}

module _ {D : Type 0} ⦃d : Number D⦄ where
  -- The loop over one side of the book.
  abbrev pub sum_levels : (D → Bool) → D → List (OrderBookLevel D) → D
  sum_levels inside total [] = total
  sum_levels inside total (level ∷ levels) =
      let next = total ⊕ (level.price ⊗ level.size) in
      let counted = sum_levels inside next levels in
      let passed = sum_levels inside total levels in if inside level.price then counted else passed

  abbrev pub depth_between : D → OrderBook D → Option D → Option D → D
  depth_between pct ob none _ = num 0
  depth_between pct ob (some bid) none = num 0
  depth_between pct ob (some bid) (some ask) =
      let mid = (bid ⊕ ask) ⊘ num 2 in
      let band = mid ⊗ pct ⊘ num 100 in
      let from_bids = sum_levels (λ price. (mid ⊖ band) <= price) (num 0) ob.bids in
      sum_levels (λ price. price <= (mid ⊕ band)) from_bids ob.asks

  unfoldable pub depth_usdt_within : OrderBook D → D → D
  depth_usdt_within ob pct = depth_between pct ob (best_bid ob) (best_ask ob)
