-- ===== src/Positions/Trailing/Ratchet.antt =====
-- How the trailing stop moves.
use quantbot.Prelude.{
  ◌≡◌, refl, inl, inr, ℕ, true, false, Bool-cases, Option, Option-cases, none, some, List, [], ◌∷◌,
  arith,
}
use quantbot.Core.Enums.{PositionSide, long, short}
use quantbot.Core.Models.{Position}
use quantbot.Number.{Number, ◌≼◌, max_of, min_of}
use quantbot.Number.Laws.{IsOrdered, le_of_lt}
use quantbot.Positions.Trailing.{
  TrailingConfig, Tick, update_extremes, trail_stop, moved, more_protective, effective_stop,
  ratchet, update_allowed, record_update, apply_stop, trail, follow,
}

module _ {D : Type 0} ⦃d : Number D⦄ where
  -- The second stop is no looser than the first.
  abbrev pub NoLooser : PositionSide → D → D → Type 0
  NoLooser long old next = old ≼ next
  NoLooser short old next = next ≼ old

  more_protective-moved :
      (side : PositionSide) (cur t : D)
      → moved side (some cur) t ≡ none
      → more_protective side (some cur) t ≡ cur
  unfolding max_of min_of
  more_protective-moved long cur t h = ground arith
  more_protective-moved short cur t h = ground arith

  moved-more_protective :
      (side : PositionSide) (cur : Option D) (t : D) {u : D}
      → moved side cur t ≡ some u
      → more_protective side cur t ≡ u
  unfolding max_of min_of
  moved-more_protective side none t h = ground arith
  moved-more_protective long (some cur) t h = ground arith
  moved-more_protective short (some cur) t h = ground arith

  record_update-stop :
      (u : D) (now : ℕ) (p : Position D)
      → ((record_update u now p).stop_loss_price ≡ p.stop_loss_price)
        × ((record_update u now p).side ≡ p.side)
        × ((record_update u now p).highest_price ≡ p.highest_price)
  record_update-stop u now p = ground arith

  module _ (laws : IsOrdered D) where
    pub NoLooser-refl : (side : PositionSide) (s : D) → NoLooser side s s
    NoLooser-refl long s = laws.le_refl s
    NoLooser-refl short s = laws.le_refl s

    pub NoLooser-trans :
        (side : PositionSide) (a b c : D)
        → NoLooser side a b
        → NoLooser side b c
        → NoLooser side a c
    NoLooser-trans long a b c h k = laws.le_trans a b c h k
    NoLooser-trans short a b c h k = laws.le_trans c b a k h

    pub NoLooser-side :
        (side other : PositionSide) (a b : D)
        → side ≡ other
        → NoLooser side a b
        → NoLooser other a b
    NoLooser-side side other a b e h = rw (← e) h

    pub moved-NoLooser :
        (side : PositionSide) (cur t u : D) → moved side (some cur) t ≡ some u → NoLooser side cur u
    moved-NoLooser long cur t u h = ground (arith, le_of_lt laws cur t)
    moved-NoLooser short cur t u h = ground (arith, le_of_lt laws t cur)

    apply_stop-NoLooser :
        (c : TrailingConfig D) (atr : D) (now : ℕ) (p : Position D) (s t : D)
        → p.stop_loss_price ≡ some s
        → (u : Option D) → moved p.side (some s) t ≡ u
        → (next : D) × ((apply_stop c atr now p u).stop_loss_price ≡ some next)
          × ((apply_stop c atr now p u).side ≡ p.side)
          × NoLooser p.side s next
    apply_stop-NoLooser c atr now p s t h none e = (s, h, refl, NoLooser-refl p.side s)
    apply_stop-NoLooser c atr now p s t h (some u) e =
        elim (Bool-cases (update_allowed c p u atr now)) [
          | inl allowed ↦
              let kept = record_update-stop u now (record p { stop_loss_price = some u }) in
              (u, rw allowed kept.0, rw allowed kept.1, moved-NoLooser p.side s t u e)
          | inr refused ↦ (s, rw refused h, rw refused refl, NoLooser-refl p.side s)
        ]

    trail-NoLooser :
        (c : TrailingConfig D) (atr max_r : D) (now : ℕ) (p : Position D) (s : D)
        → p.stop_loss_price ≡ some s
        → (next : D) × ((trail c atr max_r now p).stop_loss_price ≡ some next)
          × ((trail c atr max_r now p).side ≡ p.side)
          × NoLooser p.side s next
    unfolding trail ratchet
    trail-NoLooser c atr max_r now p s h = elim (Bool-cases p.trailing_active) [
      | inl on ↦
          simp (on, h)
            (apply_stop-NoLooser c atr now p s (trail_stop c atr max_r p) h
              (moved p.side (some s) (trail_stop c atr max_r p)) refl)
      | inr off ↦ simp off (s, h, refl, NoLooser-refl p.side s)
    ]

    -- Over ordered numbers, whatever prices come and whatever the runner mode allows, a position that
    -- has a stop keeps one, and it never moves against the position: up only for a long one, down
    -- only for a short one.
    pub follow_never_loosens :
        (c : TrailingConfig D) (ts : List (Tick D)) (p : Position D) (s : D)
        → p.stop_loss_price ≡ some s
        → (next : D) × ((follow c ts p).stop_loss_price ≡ some next) × NoLooser p.side s next
    unfolding follow update_extremes
    follow_never_loosens c [] p s h = (s, h, NoLooser-refl p.side s)
    follow_never_loosens c (t ∷ ts) p s h =
        let seen = update_extremes t.high t.low p in
        let step = trail-NoLooser c t.atr t.max_r t.now seen s h in
        let rest = follow_never_loosens c ts (trail c t.atr t.max_r t.now seen) step.0 step.1 in
        (
          rest.0,
          rest.1,
          NoLooser-trans p.side s step.0 rest.0 step.3
              (NoLooser-side _ p.side step.0 rest.0 step.2 rest.2),
        )

  allowed-plain :
      (c : TrailingConfig D) (p : Position D) (u atr : D) (now : ℕ)
      → p.runner_mode_active ≡ false
      → update_allowed c p u atr now ≡ true
  unfolding update_allowed
  allowed-plain c p u atr now h = ground arith

  apply_stop-effective :
      (c : TrailingConfig D) (atr : D) (now : ℕ) (p : Position D) (t : D)
      → p.runner_mode_active ≡ false
      → (u : Option D) → moved p.side p.stop_loss_price t ≡ u
      → (apply_stop c atr now p u).stop_loss_price
        ≡ some (more_protective p.side p.stop_loss_price t)
  apply_stop-effective c atr now p t plain (some u) e =
      rw (allowed-plain c p u atr now plain, moved-more_protective p.side p.stop_loss_price t e)
        (record_update-stop u now (record p { stop_loss_price = some u })).0
  apply_stop-effective c atr now p t plain none e = elim (Option-cases p.stop_loss_price) [
    | inl missing ↦ absurd (stuck p.side (rw missing at e))
    | inr (cur, h) ↦ kept cur h
  ]
    where
      stuck : (side : PositionSide) → moved side none t ≡ none → ⊥
      stuck long q = cc
      stuck short q = cc

      kept :
          (cur : D)
          → p.stop_loss_price ≡ some cur
          → p.stop_loss_price ≡ some (more_protective p.side p.stop_loss_price t)
      kept cur h = rw (h, more_protective-moved p.side cur t (rw h at e)) refl

  -- Outside the runner mode an active trailing step leaves exactly the stop that the breach test
  -- uses: the more protective one of the current and the trailing stop.
  pub trail_is_effective_stop :
      (c : TrailingConfig D) (atr max_r : D) (now : ℕ) (p : Position D)
      → p.trailing_active ≡ true
      → p.runner_mode_active ≡ false
      → (trail c atr max_r now p).stop_loss_price
        ≡ some (effective_stop p (trail_stop c atr max_r p))
  unfolding trail ratchet effective_stop
  trail_is_effective_stop c atr max_r now p on plain =
      let t = trail_stop c atr max_r p in
      simp on (apply_stop-effective c atr now p t plain (moved p.side p.stop_loss_price t) refl)
