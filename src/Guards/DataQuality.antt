-- ===== src/Guards/DataQuality.antt =====
-- packages/guards/data_quality.py: stale, missing or diverging market data blocks an entry.
use quantbot.Prelude.{ℕ, Bool, true, false, not, ◌&&◌, ltb, if◌then◌else◌, Option, none, some}
use quantbot.Number.{Number, num, ◌⊖◌, ◌⊗◌, ◌⊘◌, ◌<<◌, abs_of}

pub record DataQualitySection (D : Type 0) : Type 0 where
  pub max_kline_delay_sec : ℕ
  pub max_ticker_delay_sec : ℕ
  pub max_orderbook_delay_sec : ℕ
  pub max_missing_candles : ℕ
  pub block_if_candle_gap_detected : Bool
  pub max_ticker_kline_price_divergence_percent : D

pub data BlockReason : Type 0 where
  kline_delay : BlockReason
  ticker_delay : BlockReason
  orderbook_delay : BlockReason
  missing_candles : BlockReason
  price_divergence : BlockReason
  indicator_nan : BlockReason

-- The arguments of `check`; of the indicators only whether they are valid is read.
pub record Inputs (D : Type 0) : Type 0 where
  pub now_ms : ℕ
  pub last_kline_ms : Option ℕ
  pub last_ticker_ms : Option ℕ
  pub last_orderbook_ms : Option ℕ
  pub missing_candles : ℕ
  pub ticker_price : Option D
  pub kline_close : Option D
  pub indicators_valid : Option Bool
  pub require_orderbook : Bool

abbrev pub invalid : Option Bool → Bool
invalid none = false
invalid (some valid) = not valid

module _ {D : Type 0} ⦃d : Number D⦄ where
  -- `delay is None or delay > limit`
  unfoldable pub late : ℕ → Option ℕ → D → Bool
  late now none limit = true
  late now (some ts) limit = limit << ((num now ⊖ num ts) ⊘ num 1000)

  unfoldable pub diverges : D → Option D → Option D → Bool
  diverges limit (some price) (some close) =
      (num 0 << close) && (limit << (abs_of (price ⊖ close) ⊘ close ⊗ num 100))
  diverges limit none _ = false
  diverges limit (some price) none = false

  unfoldable pub check : DataQualitySection D → Inputs D → Option BlockReason
  check c i =
      if late i.now_ms i.last_kline_ms (num c.max_kline_delay_sec)
      then some kline_delay
      else if late i.now_ms i.last_ticker_ms (num c.max_ticker_delay_sec)
      then some ticker_delay
      else if i.require_orderbook
          && late i.now_ms i.last_orderbook_ms (num c.max_orderbook_delay_sec)
      then some orderbook_delay
      else if ltb c.max_missing_candles i.missing_candles && c.block_if_candle_gap_detected
      then some BlockReason.missing_candles
      else if diverges c.max_ticker_kline_price_divergence_percent i.ticker_price i.kline_close
      then some price_divergence
      else if invalid i.indicators_valid
      then some indicator_nan
      else none
