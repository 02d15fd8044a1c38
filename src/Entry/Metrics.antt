-- ===== src/Entry/Metrics.antt =====
-- packages/entry/candle_metrics.py: the geometry of a candle, and the move over the last candles.
use quantbot.Prelude.{
  ℕ, Bool, true, false, ltb, ◌==◌, ◌||◌, if◌then◌else◌, Option, none, some, List, [], ◌∷◌, length,
}
use quantbot.Number.{Number, num, ◌⊖◌, ◌⊘◌, ◌<=◌, abs_of, min_of, max_of}

-- The prices of a `Candle`.
pub record Candle (D : Type 0) : Type 0 where
  pub open_price : D
  pub high : D
  pub low : D
  pub close : D

pub record CandleMetrics (D : Type 0) : Type 0 where
  pub candle_range : D
  pub body : D
  pub upper_wick : D
  pub lower_wick : D
  pub body_ratio : D
  pub upper_wick_ratio : D
  pub lower_wick_ratio : D
  pub close_position_in_range : D
  pub valid : Bool

-- `xs[-n]`
abbrev pub nth_last {ℓ} : {A : Type ℓ} → ℕ → List A → Option A
nth_last n [] = none
nth_last n (x ∷ xs) = let rest = nth_last n xs in if length (x ∷ xs) == n then some x else rest

module _ {D : Type 0} ⦃d : Number D⦄ where
  abbrev flat_metrics : D → CandleMetrics D
  flat_metrics range = record {
    candle_range = range;
    body = num 0;
    upper_wick = num 0;
    lower_wick = num 0;
    body_ratio = num 0;
    upper_wick_ratio = num 0;
    lower_wick_ratio = num 0;
    close_position_in_range = num 0;
    valid = false;
  }

  unfoldable pub metrics_of : Candle D → CandleMetrics D
  metrics_of c =
      let range = c.high ⊖ c.low in
      let body = abs_of (c.close ⊖ c.open_price) in
      let upper = c.high ⊖ max_of c.open_price c.close in
      let lower = min_of c.open_price c.close ⊖ c.low in
      if range <= num 0 then flat_metrics range else record {
        candle_range = range;
        body = body;
        upper_wick = upper;
        lower_wick = lower;
        body_ratio = body ⊘ range;
        upper_wick_ratio = upper ⊘ range;
        lower_wick_ratio = lower ⊘ range;
        close_position_in_range = (c.close ⊖ c.low) ⊘ range;
        valid = true;
      }

  abbrev pub move_between : Option (Candle D) → Option (Candle D) → Option D
  move_between none _ = none
  move_between (some first) none = none
  move_between (some first) (some last) = some (last.close ⊖ first.open_price)

  unfoldable pub cumulative_move : List (Candle D) → ℕ → Option D
  cumulative_move candles n =
      if ltb (length candles) n || (n == 0)
      then none
      else move_between (nth_last n candles) (nth_last 1 candles)
