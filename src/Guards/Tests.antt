-- ===== src/Guards/Tests.antt =====
-- The guards on sample inputs, and theorems there.
use quantbot.Prelude.{
  ltb, if◌then◌else◌, ◌≡◌, refl, ℕ, Bool, true, false, Option, none, some, is_some, [], ◌∷◌,
}
use quantbot.Core.Enums.{long, short}
use quantbot.Number.{num, abs_of, min_of}
use quantbot.Number.Fraction.{Fraction, frac, dec, fraction_number}
use quantbot.Number.Fraction.Ordered.{Fraction-IsOrdered}
use quantbot.Guards.ClockSync.{is_within_tolerance}
use quantbot.Guards.DataQuality
use quantbot.Guards.DataQuality.{DataQualitySection, Inputs, late, diverges}
use quantbot.Guards.Funding.{
  FundingGuardSection, is_unfavorable, rate_reaches, in_window, block_new_entry,
  should_reduce_position, reducing_also_blocks,
}
use quantbot.Guards.PreOrder
use quantbot.Guards.PreOrder.{PreOrderCheck, OrderInputs, spread_percent, check_book}
use quantbot.Scanner.Depth.{depth_usdt_within}
use quantbot.Guards.Backoff.{
  Outcome, returned, raised, Trace, Policy, Traced, delay_after, attempts, with_backoff,
  with_backoff_ends,
}

abbrev quality : DataQualitySection Fraction
quality = record {
  max_kline_delay_sec = 90;
  max_ticker_delay_sec = 10;
  max_orderbook_delay_sec = 5;
  max_missing_candles = 2;
  block_if_candle_gap_detected = true;
  max_ticker_kline_price_divergence_percent = dec 15 1;
}

abbrev fresh : Inputs Fraction
fresh = record {
  now_ms = 100000;
  last_kline_ms = some 40000;
  last_ticker_ms = some 99000;
  last_orderbook_ms = some 98000;
  missing_candles = 1;
  ticker_price = some (dec 101 0);
  kline_close = some (dec 100 0);
  indicators_valid = some true;
  require_orderbook = true;
}

fresh_passes : DataQuality.check quality fresh ≡ none
unfolding DataQuality.check late diverges abs_of
fresh_passes = refl

old_ticker_blocks :
    DataQuality.check quality (record fresh { last_ticker_ms = some 80000 })
    ≡ some DataQuality.ticker_delay
unfolding DataQuality.check late diverges abs_of
old_ticker_blocks = refl

abbrev funding : FundingGuardSection Fraction
funding = record {
  enabled = true;
  block_new_entries_before_funding_min = 5;
  block_if_abs_funding_rate_percent_above = dec 8 2;
  reduce_position_if_abs_funding_rate_percent_above = dec 12 2;
}

abbrev high_rate : Option Fraction
high_rate = some (dec 15 4)

reduces_long : should_reduce_position funding high_rate (some long) ≡ true
unfolding should_reduce_position rate_reaches is_unfavorable abs_of
reduces_long = refl

reducing_also_blocks_example :
    (is_some (block_new_entry funding 0 none high_rate (some long)) ≡ true)
    × (in_window {D = Fraction} 0 none (num 5) ≡ false
        → block_new_entry funding 0 none high_rate (some short) ≡ none)
reducing_also_blocks_example =
    reducing_also_blocks Fraction-IsOrdered funding 0 none high_rate refl long reduces_long

abbrev gate : PreOrderCheck Fraction
gate = record {
  block_if_status_not_trading = true;
  max_spread = dec 8 2;
  max_slippage = dec 12 2;
  depth_multiple = dec 5 0;
  depth_band = dec 1 1;
}

abbrev order : OrderInputs Fraction
order = record {
  orderbook = record {
    bids =
        record { price = dec 9999 2; size = dec 40 0 }
        ∷ record { price = dec 90 0; size = dec 9 0 }
        ∷ [];
    asks = record { price = dec 10001 2; size = dec 30 0 } ∷ [];
  };
  order_notional = dec 1000 0;
  expected_slippage_percent = dec 5 2;
  trading = true;
  clock = record { block_above_ms = 1000; drift_ms = num 120; last_sync_ms = none };
}

order_passes : PreOrder.check gate order ≡ none
unfolding PreOrder.check check_book is_within_tolerance spread_percent depth_usdt_within abs_of
order_passes = refl

-- A call that fails twice and then returns.
abbrev flaky : ℕ → Outcome Bool ℕ
flaky n = if ltb n 2 then raised true else returned n

abbrev policy : Policy Fraction Bool
policy = record { retries = 3; base_sec = dec 1 0; max_sec = dec 15 1; retry_on = λ e. e }

third_attempt :
    with_backoff policy flaky
    ≡ some (record { outcome = returned 2; last = 2; delays = frac 1 0 0 ∷ dec 15 1 ∷ [] })
unfolding with_backoff attempts delay_after min_of
third_attempt = refl

with_backoff_ends_example :
    (t : Trace Fraction Bool ℕ) × (with_backoff policy flaky ≡ some t) × Traced policy flaky 0 t
with_backoff_ends_example = with_backoff_ends Fraction-IsOrdered policy flaky
