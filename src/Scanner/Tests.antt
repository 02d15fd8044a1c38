-- ===== src/Scanner/Tests.antt =====
-- A scan of three tickers, and the theorem there.
use quantbot.Prelude.{◌≡◌, refl, ◌≤◌, true, none, some, List, [], ◌∷◌, length, All}
use quantbot.Core.Models.{Symbol}
use quantbot.Number.{min_of, max_of}
use quantbot.Number.Fraction.{Fraction, dec, fraction_number}
use quantbot.Scanner.Score.{
  MarketTicker, spread_percent, turnover_score, atr_score, trend_potential_score, volume_score,
  spread_score, scanner_score,
}
use quantbot.Scanner.Scan.{Inputs, passes, eligible, ranks_above, scan}
use quantbot.Scanner.Eligible.{IsCandidate, scan_picks_candidates}

abbrev inputs : Inputs Fraction
inputs = record {
  cfg = record {
    max_spread_percent = dec 10 2;
    min_atr_percent = dec 5 1;
    max_atr_percent = dec 5 0;
    min_orderbook_depth_usdt_0_1_percent = dec 1000 0;
    min_orderbook_depth_usdt_0_3_percent = dec 3000 0;
    max_candidates = 2;
    min_turnover_usdt = dec 100 0;
  };
  is_tradable = λ s. true;
  atr_percent_by_symbol = λ s. some (dec 1 0);
  orderbooks = none;
  snapshots_15m = λ s. none;
  snapshots_5m = λ s. none;
}

-- Symbol 3 has too wide a spread; symbol 2 has the larger turnover of the others.
abbrev tickers : List (MarketTicker Fraction)
tickers =
    record { symbol = 1; turnover_24h = dec 200 0; bid_price = dec 9999 2; ask_price = dec 10001 2 }
    ∷ record {
      symbol = 2;
      turnover_24h = dec 500 0;
      bid_price = dec 9999 2;
      ask_price = dec 10001 2;
    }
    ∷ record { symbol = 3; turnover_24h = dec 900 0; bid_price = dec 99 0; ask_price = dec 101 0 }
    ∷ []

two_found : scan inputs tickers ≡ some (2 ∷ 1 ∷ [])
unfolding scan eligible passes spread_percent ranks_above scanner_score turnover_score atr_score
    trend_potential_score volume_score spread_score min_of max_of
two_found = refl

scan_picks_candidates_example :
    (ss : List Symbol) × (scan inputs tickers ≡ some ss)
    × (length ss ≤ 2)
    × All (IsCandidate inputs tickers) ss
scan_picks_candidates_example = scan_picks_candidates inputs tickers
