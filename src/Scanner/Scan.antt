-- ===== src/Scanner/Scan.antt =====
-- packages/scanner/symbol_scanner.py, `SymbolScanner.scan`: filter, score, sort, cut. The dicts of the
-- caller are functions, and the universe is its test `is_tradable`.
use quantbot.Prelude.{
  ℕ, zero, suc, Bool, true, false, ◌&&◌, if◌then◌else◌, Option, none, some, List, [], ◌∷◌, keep_if,
}
use quantbot.Core.Models.{Symbol, OrderBook}
use quantbot.Number.{Number, ◌<=◌, ◌<<◌, ◌=?◌, min_of, max_of}
use quantbot.Scanner.Depth.{depth_usdt_within}
use quantbot.Scanner.Score.{MarketTicker, IndicatorSnapshot, spread_percent, scanner_score}

pub record ScannerSection (D : Type 0) : Type 0 where
  pub max_spread_percent : D
  pub min_atr_percent : D
  pub max_atr_percent : D
  pub min_orderbook_depth_usdt_0_1_percent : D
  pub min_orderbook_depth_usdt_0_3_percent : D
  pub max_candidates : ℕ
  pub min_turnover_usdt : D

-- The arguments of `scan` beside the tickers.
pub record Inputs (D : Type 0) : Type 0 where
  pub cfg : ScannerSection D
  pub is_tradable : Symbol → Bool
  pub atr_percent_by_symbol : Symbol → Option D
  pub orderbooks : Option (Symbol → Option (OrderBook D))
  pub snapshots_15m : Symbol → Option (IndicatorSnapshot D)
  pub snapshots_5m : Symbol → Option (IndicatorSnapshot D)

pub record Scored (D : Type 0) : Type 0 where
  pub ticker : MarketTicker D
  pub score : D

module _ {D : Type 0} ⦃d : Number D⦄ where
  abbrev pub tight_spread : ScannerSection D → Option D → Bool
  tight_spread c none = false
  tight_spread c (some spread) = spread <= c.max_spread_percent

  abbrev pub atr_in_range : ScannerSection D → Option D → Bool
  atr_in_range c none = false
  atr_in_range c (some atr) = (c.min_atr_percent <= atr) && (atr <= c.max_atr_percent)

  abbrev pub deep_book : ScannerSection D → Option (OrderBook D) → Bool
  deep_book c none = false
  deep_book c (some ob) =
      (c.min_orderbook_depth_usdt_0_1_percent <= depth_usdt_within ob (d.dec 1 1))
      && (c.min_orderbook_depth_usdt_0_3_percent <= depth_usdt_within ob (d.dec 3 1))

  abbrev pub deep_books : ScannerSection D → Symbol → Option (Symbol → Option (OrderBook D)) → Bool
  deep_books c symbol none = true
  deep_books c symbol (some books) = deep_book c (books symbol)

  -- `_passes`
  unfoldable pub passes : Inputs D → MarketTicker D → Bool
  passes i t =
      (i.cfg.min_turnover_usdt <= t.turnover_24h)
      && (tight_spread i.cfg (spread_percent t)
          && (atr_in_range i.cfg (i.atr_percent_by_symbol t.symbol)
              && deep_books i.cfg t.symbol i.orderbooks))

  unfoldable pub eligible : Inputs D → List (MarketTicker D) → List (MarketTicker D)
  eligible i = keep_if (λ t. i.is_tradable t.symbol && passes i t)

  abbrev pub least_turnover : D → List (MarketTicker D) → D
  least_turnover least [] = least
  least_turnover least (t ∷ ts) = least_turnover (min_of least t.turnover_24h) ts

  abbrev pub most_turnover : D → List (MarketTicker D) → D
  most_turnover most [] = most
  most_turnover most (t ∷ ts) = most_turnover (max_of most t.turnover_24h) ts

  abbrev pub score_with : Inputs D → D → D → MarketTicker D → D → Scored D
  score_with i least most t atr = record {
    ticker = t;
    score = scanner_score t atr least most (i.snapshots_15m t.symbol) (i.snapshots_5m t.symbol);
  }

  -- One entry of `scored`; a missing ATR is the `KeyError` of the dict.
  abbrev pub score_one : Inputs D → D → D → MarketTicker D → Option D → Option (Scored D)
  score_one i least most t none = none
  score_one i least most t (some atr) = some (score_with i least most t atr)

  abbrev pub joined : Option (Scored D) → Option (List (Scored D)) → Option (List (Scored D))
  joined none rest = none
  joined (some s) none = none
  joined (some s) (some rest) = some (s ∷ rest)

  abbrev pub score_all : Inputs D → D → D → List (MarketTicker D) → Option (List (Scored D))
  score_all i least most [] = some []
  score_all i least most (t ∷ ts) =
      joined (score_one i least most t (i.atr_percent_by_symbol t.symbol))
        (score_all i least most ts)

  -- Is the first pair of score and turnover the greater one?
  unfoldable pub ranks_above : Scored D → Scored D → Bool
  ranks_above a b =
      if a.score =? b.score
      then b.ticker.turnover_24h << a.ticker.turnover_24h
      else b.score << a.score

  -- A stable sort, the greatest first.
  abbrev pub insert_ranked : Scored D → List (Scored D) → List (Scored D)
  insert_ranked a [] = a ∷ []
  insert_ranked a (b ∷ bs) =
      let rest = insert_ranked a bs in if ranks_above a b then a ∷ b ∷ bs else b ∷ rest

  abbrev pub rank : List (Scored D) → List (Scored D) → List (Scored D)
  rank sorted [] = sorted
  rank sorted (a ∷ rest) = rank (insert_ranked a sorted) rest

  abbrev pub first_symbols : ℕ → List (Scored D) → List Symbol
  first_symbols zero ss = []
  first_symbols (suc n) [] = []
  first_symbols (suc n) (s ∷ ss) = s.ticker.symbol ∷ first_symbols n ss

  abbrev pub ranked : ℕ → Option (List (Scored D)) → Option (List Symbol)
  ranked n none = none
  ranked n (some ss) = some (first_symbols n (rank [] ss))

  abbrev pub scan_eligible : Inputs D → List (MarketTicker D) → Option (List Symbol)
  scan_eligible i [] = some []
  scan_eligible i (t ∷ ts) =
      let least = least_turnover t.turnover_24h ts in
      let most = most_turnover t.turnover_24h ts in
      ranked i.cfg.max_candidates (score_all i least most (t ∷ ts))

  -- No result is a `KeyError`.
  unfoldable pub scan : Inputs D → List (MarketTicker D) → Option (List Symbol)
  unfolding eligible
  scan i tickers = scan_eligible i (eligible i tickers)
