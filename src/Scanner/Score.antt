-- ===== src/Scanner/Score.antt =====
-- packages/scanner/symbol_scanner.py, `scanner_score`: the composite score of the watchlist.
use quantbot.Prelude.{not, ◌&&◌, ◌||◌, if◌then◌else◌, Option, none, some}
use quantbot.Core.Models.{Symbol}
use quantbot.Number.{Number, num, ◌⊕◌, ◌⊖◌, ◌⊗◌, ◌⊘◌, ◌<=◌, ◌<<◌, ◌=?◌}

pub record MarketTicker (D : Type 0) : Type 0 where
  pub symbol : Symbol
  pub turnover_24h : D
  pub bid_price : D
  pub ask_price : D

-- The fields of `IndicatorSnapshot` that the scanner reads.
pub record IndicatorSnapshot (D : Type 0) : Type 0 where
  pub ema20 : Option D
  pub ema50 : Option D
  pub ema20_slope_atr : Option D
  pub volume_ratio : Option D

module _ {D : Type 0} ⦃d : Number D⦄ where
  unfoldable pub spread_percent : MarketTicker D → Option D
  spread_percent t =
      if (t.bid_price <= num 0) || (t.ask_price <= num 0)
      then none
      else let mid = (t.bid_price ⊕ t.ask_price) ⊘ num 2 in
        if mid <= num 0 then none else some ((t.ask_price ⊖ t.bid_price) ⊘ mid ⊗ num 100)

  unfoldable pub turnover_score : D → D → D → D
  turnover_score value min_value max_value =
      if max_value <= num 0
      then num 0
      else if max_value =? min_value
      then num 100
      else (value ⊖ min_value) ⊘ (max_value ⊖ min_value) ⊗ num 100

  unfoldable pub atr_score : D → D
  atr_score value =
      if (d.dec 5 1 <= value) && (value <= d.dec 35 1)
      then num 100
      else if (d.dec 35 1 << value) && (value <= d.dec 50 1)
      then num 70
      else num 40

  abbrev or_zero : Option D → D
  or_zero none = num 0
  or_zero (some x) = x

  unfoldable pub trend_of : D → D → D → D
  trend_of ema20 ema50 slope =
      if ((ema50 << ema20) && (num 0 << slope)) || ((ema20 << ema50) && (slope << num 0))
      then num 100
      else if not (ema20 =? ema50) || not (slope =? num 0)
      then num 60
      else num 20

  abbrev pub trend_of_emas : Option D → Option D → D → D
  trend_of_emas none _ slope = num 20
  trend_of_emas (some ema20) none slope = num 20
  trend_of_emas (some ema20) (some ema50) slope = trend_of ema20 ema50 slope

  unfoldable pub trend_potential_score : Option (IndicatorSnapshot D) → D
  trend_potential_score none = num 20
  trend_potential_score (some s) = trend_of_emas s.ema20 s.ema50 (or_zero s.ema20_slope_atr)

  abbrev pub volume_of : Option D → D
  volume_of none = num 20
  volume_of (some value) =
      if d.dec 10 1 <= value then num 100 else if d.dec 6 1 <= value then num 60 else num 20

  unfoldable pub volume_score : Option (IndicatorSnapshot D) → D
  volume_score none = num 20
  volume_score (some s) = volume_of s.volume_ratio

  unfoldable pub spread_score : Option D → D
  spread_score none = num 20
  spread_score (some value) =
      if value <= d.dec 5 2 then num 100 else if value <= d.dec 10 2 then num 70 else num 0

  unfoldable pub scanner_score :
      MarketTicker D → D → D → D → Option (IndicatorSnapshot D) → Option (IndicatorSnapshot D) → D
  scanner_score ticker atr_percent min_turnover max_turnover snapshot_15m snapshot_5m =
      (turnover_score ticker.turnover_24h min_turnover max_turnover ⊗ d.dec 30 2)
      ⊕ (atr_score atr_percent ⊗ d.dec 25 2)
      ⊕ (trend_potential_score snapshot_15m ⊗ d.dec 25 2)
      ⊕ (volume_score snapshot_5m ⊗ d.dec 10 2)
      ⊕ (spread_score (spread_percent ticker) ⊗ d.dec 10 2)
