-- ===== src/Risk/Leverage/Bounds.antt =====
-- Bounds of the leverage.
use quantbot.Prelude.{ℕ, ◌≤◌, Bool, List, [], ◌∷◌, ◌++◌, le→leb, arith}
use mathlib.Core.List.{append_assoc}
use quantbot.Core.Enums.{EntryMode}
use quantbot.Config.{RiskSection}
use quantbot.Number.{Number, num, ◌⊘◌, ◌≼◌, ◌≺◌, min_of, max_of}
use quantbot.Number.Laws.{
  IsOrdered, min_of-le_left, min_of-le_right, le-max_of_left, le-max_of_right, max_of-le,
}
use quantbot.Risk.Leverage.{
  min_from, base_cap, volatile_cap, streak_cap, losing_cap, derisk_caps, max_leverage,
  choose_leverage,
}

module _ {D : Type 0} ⦃d : Number D⦄ (laws : IsOrdered D) where
  min_from-le_first : (x : D) (ys : List D) → min_from x ys ≼ x
  unfolding min_from
  min_from-le_first x [] = laws.le_refl x
  min_from-le_first x (y ∷ ys) =
      laws.le_trans _ _ _ (min_from-le_first (min_of x y) ys) (min_of-le_left laws x y)

  min_from-le_append : (x : D) (ys : List D) (z : D) (zs : List D) → min_from x (ys ++ (z ∷ zs)) ≼ z
  unfolding min_from
  min_from-le_append x [] z zs =
      laws.le_trans _ _ _ (min_from-le_first (min_of x z) zs) (min_of-le_right laws x z)
  min_from-le_append x (y ∷ ys) z zs = min_from-le_append (min_of x y) ys z zs

  min_from-le_last : (x : D) (ys zs : List D) (z : D) → min_from x (ys ++ (zs ++ (z ∷ []))) ≼ z
  min_from-le_last x ys zs z = rw (← append_assoc) (min_from-le_append x (ys ++ zs) z [])

  pub max_of_mono : (a b c : D) → b ≼ c → max_of a b ≼ max_of a c
  max_of_mono a b c h =
      max_of-le laws a b (max_of a c) (le-max_of_left laws a c)
        (laws.le_trans b c (max_of a c) h (le-max_of_right laws a c))

  -- Over ordered numbers the least leverage that the policy allows is always allowed, and each rule
  -- that applies caps the result, down to that least leverage: the cap of the entry mode (of high
  -- quality entries), the cap of a volatile market, the cap of a losing streak, and the cap of a
  -- losing day.
  pub max_leverage_bounds :
      (c : RiskSection D) (mode : EntryMode) (atr_percent : D) (losses : ℕ) (daily_loss : D)
      (high_quality : Bool)
      → let lev = max_leverage c mode atr_percent losses daily_loss high_quality in
        let floor_lev : D = num c.min_leverage in
        (floor_lev ≼ lev)
        × (lev ≼ max_of floor_lev (base_cap c mode high_quality))
        × (c.high_atr_derisk_threshold_percent ≺ atr_percent
            → lev ≼ max_of floor_lev (num c.high_atr_max_leverage))
        × (c.consecutive_loss_derisk_count ≤ losses
            → lev ≼ max_of floor_lev (num c.consecutive_loss_max_leverage))
        × (c.daily_loss_derisk_percent ≼ daily_loss
            → lev ≼ max_of floor_lev (num c.daily_loss_max_leverage))
  unfolding max_leverage
  max_leverage_bounds c mode atr_percent losses daily_loss high_quality = (
    le-max_of_left laws (num c.min_leverage) capped,
    max_of_mono (num c.min_leverage) _ _ (min_from-le_first base caps),
    λ h. max_of_mono (num c.min_leverage) capped (num c.high_atr_max_leverage) (
        rw h (
          min_from-le_append base [] (num c.high_atr_max_leverage)
            (streak_cap c losses ++ losing_cap c daily_loss))),
    λ h. max_of_mono (num c.min_leverage) capped (num c.consecutive_loss_max_leverage) (
        rw (le→leb _ _ h) (
          min_from-le_append base (volatile_cap c atr_percent) (num c.consecutive_loss_max_leverage)
            (losing_cap c daily_loss))),
    λ h. max_of_mono (num c.min_leverage) capped (num c.daily_loss_max_leverage) (
        rw h (
          min_from-le_last base (volatile_cap c atr_percent) (streak_cap c losses)
            (num c.daily_loss_max_leverage))),
  )
    where
      base : D
      base = base_cap c mode high_quality

      caps : List D
      caps = derisk_caps c atr_percent losses daily_loss

      capped : D
      capped = min_from base caps

  -- Over ordered numbers the chosen leverage is at least the minimum; above the minimum it exceeds
  -- neither the cap nor the whole number that the notional needs of the equity; and with positive
  -- equity it is no less than the smaller of that need and the cap.
  pub choose_leverage_bounds :
      (notional equity max_lev min_lev : D)
      → let lev = choose_leverage notional equity max_lev min_lev in
        (min_lev ≼ lev)
        × (lev ≼ max_of min_lev max_lev)
        × (lev ≼ max_of min_lev (d.ceiling (notional ⊘ equity)))
        × (num 0 ≺ equity → min_of (d.ceiling (notional ⊘ equity)) max_lev ≼ lev)
  unfolding choose_leverage
  choose_leverage_bounds notional equity max_lev min_lev =
      let needed = d.ceiling (notional ⊘ equity) in
      let inner = min_of needed max_lev in
      ground (
        arith,
        laws.le_refl min_lev,
        le-max_of_left laws min_lev inner,
        le-max_of_right laws min_lev inner,
        le-max_of_left laws min_lev max_lev,
        le-max_of_left laws min_lev needed,
        max_of_mono min_lev inner max_lev (min_of-le_right laws needed max_lev),
        max_of_mono min_lev inner needed (min_of-le_left laws needed max_lev),
      )
