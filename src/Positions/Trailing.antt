-- ===== src/Positions/Trailing.antt =====
-- packages/position/position_manager.py: the extremes of the price, the trailing stop and its ratchet
-- (step 6 of `evaluate`). A time is in seconds and never goes back.
pub mod Ratchet
mod Tests
use quantbot.Prelude.{
  ℕ, ◌-◌, Bool, true, false, not, ◌&&◌, ltb, if◌then◌else◌, is_some, Option, none, some, List, [],
  ◌∷◌,
}
use quantbot.Core.Enums.{PositionSide, long, short}
use quantbot.Core.Models.{Position}
use quantbot.Number.{Number, num, ◌⊕◌, ◌⊖◌, ◌⊗◌, ◌⊘◌, ◌<=◌, ◌<<◌, ◌=?◌, min_of, max_of}

-- What the modelled methods read of the configuration.
pub record TrailingConfig (D : Type 0) : Type 0 where
  pub trailing_mult : D
  pub trailing_ext_after_r : D
  pub trailing_ext_mult : D
  pub min_trailing_update_interval_sec : ℕ
  pub min_trailing_improvement_atr : D

-- One call of the step: the highest and the lowest price since the last one, the ATR, the largest
-- multiple of the risk so far, and the time.
pub record Tick (D : Type 0) : Type 0 where
  pub high : D
  pub low : D
  pub atr : D
  pub max_r : D
  pub now : ℕ

abbrev pub too_soon : ℕ → ℕ → Option ℕ → Bool
too_soon now interval none = false
too_soon now interval (some last_at) = ltb (now - last_at) interval

module _ {D : Type 0} ⦃d : Number D⦄ where
  abbrev pub risk_multiple : PositionSide → D → D → Option D → D
  risk_multiple side entry price none = num 0
  risk_multiple side entry price (some risk) =
      let gained = (price ⊖ entry) ⊘ risk in
      let lost = (entry ⊖ price) ⊘ risk in
      if risk <= num 0 then num 0 else elim side [ long ↦ gained | short ↦ lost ]

  unfoldable pub r_multiple : Position D → D → D
  r_multiple p price = risk_multiple p.side p.avg_entry_price price p.initial_risk_per_unit

  abbrev pub raised : Option D → D → D
  raised none high = high
  raised (some highest) high = max_of highest high

  abbrev pub sunk : Option D → D → D
  sunk none low = low
  sunk (some lowest) low = min_of lowest low

  unfoldable pub update_extremes : D → D → Position D → Position D
  update_extremes high low p = record p {
    highest_price = some (raised p.highest_price high);
    lowest_price = some (sunk p.lowest_price low);
  }

  -- Python's `x or default` on numbers: zero counts as missing.
  abbrev pub or_default : Option D → D → D
  or_default none default = default
  or_default (some x) default = if x =? num 0 then default else x

  abbrev pub or_else : Option D → Option D → Option D
  or_else none other = other
  or_else (some x) other = if x =? num 0 then other else some x

  abbrev pub multiplier : TrailingConfig D → D → Bool → Option D → D
  multiplier c max_r true (some own) = own
  multiplier c max_r _ _ =
      if c.trailing_ext_after_r <= max_r then c.trailing_ext_mult else c.trailing_mult

  unfoldable pub trail_stop : TrailingConfig D → D → D → Position D → D
  trail_stop c atr max_r p =
      let mult = multiplier c max_r p.runner_mode_active p.runner_trailing_atr_multiplier in
      let below = or_default p.highest_price p.avg_entry_price ⊖ (atr ⊗ mult) in
      let above = or_default p.lowest_price p.avg_entry_price ⊕ (atr ⊗ mult) in
      elim p.side [ long ↦ below | short ↦ above ]

  unfoldable pub stop_breached : Position D → D → D → Bool
  stop_breached p price stop = elim p.side [ long ↦ price <= stop | short ↦ stop <= price ]

  abbrev pub more_protective : PositionSide → Option D → D → D
  more_protective side none trail = trail
  more_protective long (some cur) trail = max_of cur trail
  more_protective short (some cur) trail = min_of cur trail

  unfoldable pub effective_stop : Position D → D → D
  effective_stop p trail = more_protective p.side p.stop_loss_price trail

  abbrev pub moved : PositionSide → Option D → D → Option D
  moved side none trail = some trail
  moved long (some cur) trail = if cur << trail then some trail else none
  moved short (some cur) trail = if trail << cur then some trail else none

  unfoldable pub ratchet : Position D → D → Option D
  ratchet p trail = moved p.side p.stop_loss_price trail

  abbrev pub improves : PositionSide → D → D → D → Option D → Bool
  improves side new_stop atr least none = true
  improves side new_stop atr least (some last_stop) =
      let up = (atr ⊗ least) <= (new_stop ⊖ last_stop) in
      let down = (atr ⊗ least) <= (last_stop ⊖ new_stop) in
      if atr <= num 0 then true else elim side [ long ↦ up | short ↦ down ]

  -- `_runner_trailing_update_allowed`
  unfoldable pub update_allowed : TrailingConfig D → Position D → D → D → ℕ → Bool
  update_allowed c p new_stop atr now =
      if not p.runner_mode_active
      then true
      else if too_soon now c.min_trailing_update_interval_sec p.last_runner_trailing_update_at
      then false
      else improves p.side new_stop atr c.min_trailing_improvement_atr
          (or_else p.last_runner_trailing_stop p.stop_loss_price)

  -- `_record_runner_trailing_update`
  abbrev pub record_update : D → ℕ → Position D → Position D
  record_update new_stop now p =
      if p.runner_mode_active
      then record p {
        last_runner_trailing_update_at = some now;
        last_runner_trailing_stop = some new_stop;
      }
      else p

  abbrev pub apply_stop : TrailingConfig D → D → ℕ → Position D → Option D → Position D
  apply_stop c atr now p none = p
  apply_stop c atr now p (some new_stop) =
      if update_allowed c p new_stop atr now
      then record_update new_stop now (record p { stop_loss_price = some new_stop })
      else p

  -- The trailing stop of a position where it is active.
  unfoldable pub trail : TrailingConfig D → D → D → ℕ → Position D → Position D
  trail c atr max_r now p =
      if p.trailing_active then apply_stop c atr now p (ratchet p (trail_stop c atr max_r p)) else p

  unfoldable pub follow : TrailingConfig D → List (Tick D) → Position D → Position D
  follow c [] p = p
  follow c (t ∷ ts) p = follow c ts (trail c t.atr t.max_r t.now (update_extremes t.high t.low p))
