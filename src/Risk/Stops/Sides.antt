-- ===== src/Risk/Stops/Sides.antt =====
-- On which side of the entry and of each other the stops lie.
use quantbot.Prelude.{Option, none, some, arith}
use quantbot.Core.Enums.{PositionSide, long, short}
use quantbot.Number.{Number, ◌≼◌, ◌≺◌}
use quantbot.Number.Laws.{
  IsOrdered, IsStepped, min_of-le_left, min_of-le_right, le-max_of_left, le-max_of_right,
}
use quantbot.Risk.Stops.{round_stop_to_tick, select_stop}

module _ {D : Type 0} ⦃d : Number D⦄ where
  -- `a` is at least as far on the losing side as `b`.
  abbrev pub Beyond : PositionSide → D → D → Type 0
  Beyond long a b = a ≼ b
  Beyond short a b = b ≼ a

  -- The same of a candidate that may be missing.
  abbrev pub BeyondAny : PositionSide → D → Option D → Type 0
  BeyondAny side a none = Unit {0}
  BeyondAny side a (some b) = Beyond side a b

  abbrev pub StrictlyBeyond : PositionSide → D → D → Type 0
  StrictlyBeyond long a b = a ≺ b
  StrictlyBeyond short a b = b ≺ a

module _ {D : Type 0} ⦃d : Number D⦄ (laws : IsOrdered D) where
  pub Beyond-trans :
      (side : PositionSide) (a b c : D) → Beyond side a b → Beyond side b c → Beyond side a c
  Beyond-trans long a b c h k = laws.le_trans a b c h k
  Beyond-trans short a b c h k = laws.le_trans c b a k h

  pub BeyondAny-trans :
      (side : PositionSide) (a b : D) (c : Option D)
      → Beyond side a b
      → BeyondAny side b c
      → BeyondAny side a c
  BeyondAny-trans side a b none h k = tt
  BeyondAny-trans side a b (some c) h k = Beyond-trans side a b c h k

  -- Rounding a stop to the tick moves it away from the entry, never towards it.
  pub round_stop_to_tick-Beyond :
      (steps : IsStepped D) (price : D) (side : PositionSide) (tick : D)
      → Beyond side (round_stop_to_tick price side tick) price
  unfolding round_stop_to_tick
  round_stop_to_tick-Beyond steps price long tick =
      ground (arith, laws.le_refl price, steps.floor_step_le price tick)
  round_stop_to_tick-Beyond steps price short tick =
      ground (arith, laws.le_refl price, steps.le-ceiling_step price tick)

  pub select_stop-Beyond :
      (side : PositionSide) (stop : D) (other : Option D)
      → Beyond side (select_stop side stop other) stop
        × BeyondAny side (select_stop side stop other) other
  unfolding select_stop
  select_stop-Beyond long stop none = (laws.le_refl stop, tt)
  select_stop-Beyond short stop none = (laws.le_refl stop, tt)
  select_stop-Beyond long stop (some other) =
      (min_of-le_left laws stop other, min_of-le_right laws stop other)
  select_stop-Beyond short stop (some other) =
      (le-max_of_left laws stop other, le-max_of_right laws stop other)
