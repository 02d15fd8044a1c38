-- ===== src/Entry/Tests.antt =====
-- The anti-chase filter on a quiet market.
use quantbot.Prelude.{◌≡◌, refl, true, none, some, List, [], ◌∷◌}
use quantbot.Number.{abs_of, min_of, max_of}
use quantbot.Number.Fraction.{Fraction, dec, fraction_number}
use quantbot.Entry.Metrics.{Candle, metrics_of, cumulative_move}
use quantbot.Entry.AntiChase.{AntiChase, Snapshot, known, recent_3_runup, check_long, block_long}

abbrev settings : AntiChase Fraction
settings = record {
  enabled = true;
  max_rsi_long = dec 70 0;
  min_rsi_short = dec 30 0;
  max_dist_atr = dec 15 1;
  max_recent3_atr = dec 2 0;
  max_single_atr = dec 12 1;
  exhaustion_vr = dec 4 0;
  long_min_cpr = dec 7 1;
  short_max_cpr = dec 3 1;
}

abbrev snapshot : Snapshot Fraction
snapshot = record {
  rsi14 = some (dec 55 0);
  ema20 = some (dec 100 0);
  atr14 = some (dec 2 0);
  volume_ratio = some (dec 1 0);
}

abbrev rising : Candle Fraction
rising = record { open_price = dec 100 0; high = dec 102 0; low = dec 100 0; close = dec 102 0 }

abbrev candles : List (Candle Fraction)
candles =
    record { open_price = dec 99 0; high = dec 101 0; low = dec 98 0; close = dec 100 0 }
    ∷ record { open_price = dec 100 0; high = dec 101 0; low = dec 99 0; close = dec 100 0 }
    ∷ rising
    ∷ []

long_passes : block_long settings snapshot candles (metrics_of rising) ≡ none
unfolding block_long known check_long metrics_of cumulative_move abs_of min_of max_of
long_passes = refl

-- Three candles that rise by four ATR block a long entry.
runup_blocks :
    block_long settings
      (record snapshot { atr14 = some (dec 5 1); ema20 = some (dec 102 0) })
      candles
      (metrics_of rising)
    ≡ some recent_3_runup
unfolding block_long known check_long metrics_of cumulative_move abs_of min_of max_of
runup_blocks = refl
