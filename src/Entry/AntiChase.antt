-- ===== src/Entry/AntiChase.antt =====
-- packages/entry/anti_chase.py: no long entry after a run up, no short entry after a fall.
use quantbot.Prelude.{Bool, false, ◌&&◌, if◌then◌else◌, Option, none, some, List}
use quantbot.Number.{Number, num, ◌⊕◌, ◌⊖◌, ◌⊗◌, ◌<=◌, ◌<<◌}
use quantbot.Entry.Metrics.{Candle, CandleMetrics, nth_last, cumulative_move}

pub record AntiChase (D : Type 0) : Type 0 where
  pub enabled : Bool
  pub max_rsi_long : D
  pub min_rsi_short : D
  pub max_dist_atr : D
  pub max_recent3_atr : D
  pub max_single_atr : D
  pub exhaustion_vr : D
  pub long_min_cpr : D
  pub short_max_cpr : D

-- The fields of `IndicatorSnapshot` that the filter reads.
pub record Snapshot (D : Type 0) : Type 0 where
  pub rsi14 : Option D
  pub ema20 : Option D
  pub atr14 : Option D
  pub volume_ratio : Option D

pub data ChaseBlock : Type 0 where
  anti_chase_data : ChaseBlock
  rsi_overbought : ChaseBlock
  price_far_above_ema : ChaseBlock
  recent_3_runup : ChaseBlock
  single_candle_spike : ChaseBlock
  exhaustion_upper_wick : ChaseBlock
  weak_close_in_range : ChaseBlock
  rsi_oversold : ChaseBlock
  price_far_below_ema : ChaseBlock
  recent_3_drop : ChaseBlock
  single_candle_drop : ChaseBlock
  exhaustion_lower_wick : ChaseBlock

-- The indicators once they are known, and the last candle.
pub record Known (D : Type 0) : Type 0 where
  pub rsi : D
  pub ema : D
  pub atr : D
  pub vr : D
  pub last : Candle D

module _ {D : Type 0} where
  abbrev pub known_with :
      Option D → Option D → Option D → Option D → Option (Candle D) → Option (Known D)
  known_with (some rsi) (some ema) (some atr) (some vr) (some last) =
      some (record { rsi = rsi; ema = ema; atr = atr; vr = vr; last = last })
  known_with _ _ _ _ _ = none

  -- Everything is there, or the entry is blocked for want of data.
  unfoldable pub known : Snapshot D → List (Candle D) → Option (Known D)
  known s candles = known_with s.rsi14 s.ema20 s.atr14 s.volume_ratio (nth_last 1 candles)

module _ {D : Type 0} ⦃d : Number D⦄ where
  abbrev pub at_least : D → Option D → Bool
  at_least limit none = false
  at_least limit (some move) = limit <= move

  abbrev pub at_most : D → Option D → Bool
  at_most limit none = false
  at_most limit (some move) = move <= limit

  abbrev pub wick_threshold : D
  wick_threshold = d.dec 30 2

  unfoldable pub check_long :
      AntiChase D → List (Candle D) → CandleMetrics D → Known D → Option ChaseBlock
  check_long c candles m k =
      if c.max_rsi_long <= k.rsi
      then some rsi_overbought
      else if (k.ema ⊕ (c.max_dist_atr ⊗ k.atr)) <= k.last.close
      then some price_far_above_ema
      else if at_least (c.max_recent3_atr ⊗ k.atr) (cumulative_move candles 3)
      then some recent_3_runup
      else if (c.max_single_atr ⊗ k.atr) <= (k.last.close ⊖ k.last.open_price)
      then some single_candle_spike
      else if (c.exhaustion_vr <= k.vr) && (wick_threshold <= m.upper_wick_ratio)
      then some exhaustion_upper_wick
      else if m.close_position_in_range << c.long_min_cpr
      then some weak_close_in_range
      else none

  unfoldable pub check_short :
      AntiChase D → List (Candle D) → CandleMetrics D → Known D → Option ChaseBlock
  check_short c candles m k =
      if k.rsi <= c.min_rsi_short
      then some rsi_oversold
      else if k.last.close <= (k.ema ⊖ (c.max_dist_atr ⊗ k.atr))
      then some price_far_below_ema
      else if at_most ((num 0 ⊖ c.max_recent3_atr) ⊗ k.atr) (cumulative_move candles 3)
      then some recent_3_drop
      else if (c.max_single_atr ⊗ k.atr) <= (k.last.open_price ⊖ k.last.close)
      then some single_candle_drop
      else if (c.exhaustion_vr <= k.vr) && (wick_threshold <= m.lower_wick_ratio)
      then some exhaustion_lower_wick
      else if c.short_max_cpr << m.close_position_in_range
      then some weak_close_in_range
      else none

  abbrev pub when_known : (Known D → Option ChaseBlock) → Option (Known D) → Option ChaseBlock
  when_known test none = some anti_chase_data
  when_known test (some k) = test k

  unfoldable pub block_long :
      AntiChase D → Snapshot D → List (Candle D) → CandleMetrics D → Option ChaseBlock
  block_long c s candles m =
      if c.enabled then when_known (check_long c candles m) (known s candles) else none

  unfoldable pub block_short :
      AntiChase D → Snapshot D → List (Candle D) → CandleMetrics D → Option ChaseBlock
  block_short c s candles m =
      if c.enabled then when_known (check_short c candles m) (known s candles) else none
