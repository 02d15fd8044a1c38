-- ===== src/Guards/Funding.antt =====
-- packages/guards/funding_guard.py: entries near a funding time, or against a high funding rate.
use quantbot.Prelude.{
  ◌≡◌, ℕ, Bool, true, false, ◌&&◌, if◌then◌else◌, Option, none, some, is_some, arith,
}
use quantbot.Core.Enums.{PositionSide, long, short}
use quantbot.Number.{Number, num, ◌⊖◌, ◌⊗◌, ◌⊘◌, ◌<=◌, ◌<<◌, ◌≼◌, abs_of}
use quantbot.Number.Laws.{IsOrdered}

pub record FundingGuardSection (D : Type 0) : Type 0 where
  pub enabled : Bool
  pub block_new_entries_before_funding_min : ℕ
  pub block_if_abs_funding_rate_percent_above : D
  pub reduce_position_if_abs_funding_rate_percent_above : D

pub data FundingBlock : Type 0 where
  funding_window : FundingBlock
  funding_rate_high : FundingBlock

abbrev pub other : PositionSide → PositionSide
other long = short
other short = long

module _ {D : Type 0} ⦃d : Number D⦄ where
  -- `_is_unfavorable`; the side stands for the direction of an entry too, and none is any direction.
  unfoldable pub is_unfavorable : Option D → Option PositionSide → Bool
  is_unfavorable none _ = false
  is_unfavorable (some rate) (some long) = num 0 << rate
  is_unfavorable (some rate) (some short) = rate << num 0
  is_unfavorable (some rate) none = true

  -- `pct is not None and pct >= limit`
  unfoldable pub rate_reaches : Option D → D → Bool
  rate_reaches none limit = false
  rate_reaches (some rate) limit = limit <= (abs_of rate ⊗ num 100)

  -- `0 <= minutes_to_funding <= limit`
  unfoldable pub in_window : ℕ → Option ℕ → D → Bool
  in_window now none limit = false
  in_window now (some next) limit =
      let minutes : D = (num next ⊖ num now) ⊘ num 60000 in (num 0 <= minutes) && (minutes <= limit)

  unfoldable pub block_new_entry :
      FundingGuardSection D → ℕ → Option ℕ → Option D → Option PositionSide → Option FundingBlock
  block_new_entry c now next rate direction =
      if c.enabled
      then (if in_window now next (num c.block_new_entries_before_funding_min)
          then some funding_window
          else if rate_reaches rate c.block_if_abs_funding_rate_percent_above
              && is_unfavorable rate direction
          then some funding_rate_high
          else none)
      else none

  unfoldable pub should_reduce_position :
      FundingGuardSection D → Option D → Option PositionSide → Bool
  should_reduce_position c rate side =
      c.enabled
      && (rate_reaches rate c.reduce_position_if_abs_funding_rate_percent_above
          && is_unfavorable rate side)

  rate_reaches-le :
      IsOrdered D
      → (rate : Option D) (low high : D) → low ≼ high
      → rate_reaches rate high ≡ true
      → rate_reaches rate low ≡ true
  unfolding rate_reaches
  rate_reaches-le laws none low high h r = ground arith
  rate_reaches-le laws (some rate) low high h r = laws.le_trans low high _ h r

  favours_one :
      IsOrdered D
      → (rate : Option D) (side : PositionSide) → is_unfavorable rate (some side) ≡ true
      → is_unfavorable rate (some (other side)) ≡ false
  unfolding is_unfavorable
  favours_one laws none side h = ground arith
  favours_one laws (some rate) long h = ground (arith, laws.le_total rate (num 0))
  favours_one laws (some rate) short h = ground (arith, laws.le_total rate (num 0))

  -- Over ordered numbers, where the reducing threshold is no lower than the blocking one, a rate
  -- that reduces a position also blocks a new entry on its side, and never one on the other side
  -- outside the window.
  pub reducing_also_blocks :
      IsOrdered D
      → (c : FundingGuardSection D) (now : ℕ) (next : Option ℕ) (rate : Option D)
      → c.block_if_abs_funding_rate_percent_above
        ≼ c.reduce_position_if_abs_funding_rate_percent_above
      → (side : PositionSide) → should_reduce_position c rate (some side) ≡ true
      → (is_some (block_new_entry c now next rate (some side)) ≡ true)
        × (in_window now next (num c.block_new_entries_before_funding_min) ≡ false
            → block_new_entry c now next rate (some (other side)) ≡ none)
  unfolding should_reduce_position block_new_entry
  reducing_also_blocks laws c now next rate h side r =
      let low =
        rate_reaches-le laws rate c.block_if_abs_funding_rate_percent_above
          c.reduce_position_if_abs_funding_rate_percent_above h in
      (
        ground (arith, low, favours_one laws rate side),
        λ w. ground (arith, low, favours_one laws rate side),
      )
