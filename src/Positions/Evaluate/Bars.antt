-- ===== src/Positions/Evaluate/Bars.antt =====
-- What holds of a position over any number of evaluations.
use quantbot.Prelude.{
  ◌≡◌, refl, ◌∙◌, ℕ, ◌+◌, ◌≤◌, false, some, List, [], ◌∷◌, count_if, count_if-append, arith,
}
use quantbot.Core.Enums.{PositionSide}
use quantbot.Number.{Number}
use quantbot.Number.Laws.{IsOrdered}
use quantbot.Positions.Trailing.{update_extremes, ratchet, moved, record_update}
use quantbot.Positions.Trailing.Ratchet.{NoLooser, NoLooser-refl, NoLooser-trans, moved-NoLooser}
use quantbot.Positions.Managed.{PositionSection, Bar, Tracked, Managed, advance_bar_counter}
use quantbot.Positions.Evaluate.{Evaluation, after, observed, evaluate}
use quantbot.Positions.Evaluate.Spent.{reduces_scout, IsSpent}
use quantbot.Positions.Evaluate.Spent.Whole.{managed_step-IsSpent}
use quantbot.Positions.Evaluate.Settled.{is_retest, retest_of, stop_after, IsSettled}
use quantbot.Positions.Evaluate.Settled.Whole.{observed-IsPlain, managed_step-IsSettled}
use quantbot.Positions.Evaluate.Changes.{IsStable}
use quantbot.Positions.Evaluate.Stable.{evaluate-keeps}

module _ {D : Type 0} ⦃d : Number D⦄ where
  -- The state after the pipeline has applied the actions: the assignment of the stop.
  abbrev pub applied : Evaluation D → Managed D
  applied (actions, s) = record s {
    position = record s.position {
      base = record s.position.base {
        stop_loss_price = stop_after actions s.position.base.stop_loss_price;
      };
    };
  }

  -- Evaluations of one position with the memory they share, their stops applied, and all the actions
  -- that they ask for.
  unfoldable pub evaluate_all : PositionSection D → List (Bar D) → Managed D → Evaluation D
  unfolding evaluate
  evaluate_all c [] s = ([], s)
  evaluate_all c (bar ∷ bars) s =
      let e = evaluate c bar s in after e.0 (evaluate_all c bars (applied e))

  -- What an observation leaves alone.
  observed-same :
      (bar : Bar D) (s : Managed D)
      → ((observed bar s).position.base.side ≡ s.position.base.side)
        × ((observed bar s).position.base.stop_loss_price ≡ s.position.base.stop_loss_price)
        × ((observed bar s).position.base.qty ≡ s.position.base.qty)
        × ((observed bar s).position.defensive_reduction_count
            ≡ s.position.defensive_reduction_count)
  unfolding observed advance_bar_counter update_extremes
  observed-same bar s = ground arith

  reductions-IsStable :
      (c : PositionSection D)
      → IsStable c (λ p. p.defensive_reduction_count ≤ c.scout_management.max_defensive_reductions)
  reductions-IsStable c = record {
    leaves = λ reason p h. h;
    observes = λ bar s h. omega (arith, h, (observed-same bar s).3);
    trails = λ p h. h;
    takes = λ p h. h;
    strengthens = λ strength p h. h;
    ratchets = λ t u now p e h. h;
    scouts = λ state started p h. h;
    reduces = λ p allowed h. ground arith;
  }

  evaluate-IsSpent :
      (c : PositionSection D) (bar : Bar D) (s : Managed D)
      → s.position.defensive_reduction_count + count_if reduces_scout (evaluate c bar s).0
        ≤ (evaluate c bar s).1.position.defensive_reduction_count
  unfolding evaluate IsSpent
  evaluate-IsSpent c bar s = ground (arith, managed_step-IsSpent c bar s)

  -- Over any bars, the reductions that the management of scouts asks for, together with those that
  -- were counted before, are never more than the configured number, if those before were not.
  pub scout_reductions_bounded :
      (c : PositionSection D) (bars : List (Bar D)) (s : Managed D)
      → s.position.defensive_reduction_count ≤ c.scout_management.max_defensive_reductions
      → s.position.defensive_reduction_count + count_if reduces_scout (evaluate_all c bars s).0
        ≤ c.scout_management.max_defensive_reductions
  unfolding evaluate_all
  scout_reductions_bounded c [] s h = omega (arith, h)
  scout_reductions_bounded c (bar ∷ bars) s h =
      let e = evaluate c bar s in
      let kept = evaluate-keeps c _ (reductions-IsStable c) bar s h in
      let later = scout_reductions_bounded c bars (applied e) kept in
      omega (
        arith,
        evaluate-IsSpent c bar s,
        later,
        count_if-append reduces_scout e.0 (evaluate_all c bars (applied e)).0,
      )

  -- A position of a side and a size whose stop is no looser than a price.
  abbrev pub Protected : PositionSide → D → D → Tracked D → Type 0
  Protected side qty cur p =
      (p.base.side ≡ side)
      × (p.base.qty ≡ qty)
      × (u : D) × (p.base.stop_loss_price ≡ some u)
      × NoLooser side cur u

  module _ (laws : IsOrdered D) where
    ratcheted :
        (side : PositionSide) (qty cur t u : D) (now : ℕ) (p : Tracked D)
        → ratchet p.base t ≡ some u
        → Protected side qty cur p
        → Protected side qty cur
            (record p { base = record_update u now (record p.base { stop_loss_price = some u }) })
    unfolding ratchet
    ratcheted side qty cur t u now p e (same, size, old, stop, kept) =
        let next = record_update u now (record p.base { stop_loss_price = some u }) in
        let e' : moved side (some old) t ≡ some u = cc in
        let rest : (next.side ≡ p.base.side)
            × (next.qty ≡ p.base.qty)
            × (next.stop_loss_price ≡ some u) =
          ground arith in
        (
          rest.0 ∙ same,
          rest.1 ∙ size,
          u,
          rest.2,
          NoLooser-trans laws side cur old u kept (moved-NoLooser laws side old t u e'),
        )

    stop-IsStable :
        (c : PositionSection D) (side : PositionSide) (qty cur : D)
        → IsStable c (Protected side qty cur)
    stop-IsStable c side qty cur = record {
      leaves = λ reason p h. h;
      observes = λ bar s h.
          let same = observed-same bar s in (same.0 ∙ h.0, same.2 ∙ h.1, h.2, same.1 ∙ h.3, h.4);
      trails = λ p h. h;
      takes = λ p h. h;
      strengthens = λ strength p h. h;
      ratchets = λ t u now p e h. ratcheted side qty cur t u now p e h;
      scouts = λ state started p h. h;
      reduces = λ p allowed h. h;
    }

    plain-IsStable : (c : PositionSection D) → IsStable c (λ p. retest_of p ≡ false)
    plain-IsStable c = record {
      leaves = λ reason p h. h;
      observes = λ bar s h. observed-IsPlain bar s h;
      trails = λ p h. h;
      takes = λ p h. h;
      strengthens = λ strength p h. h;
      ratchets = λ t u now p e h. h;
      scouts = λ state started p h. h;
      reduces = λ p allowed h. h;
    }

    evaluate-IsSettled :
        (c : PositionSection D) (bar : Bar D) (s : Managed D)
        → retest_of s.position ≡ false
        → stop_after (evaluate c bar s).0 (evaluate c bar s).1.position.base.stop_loss_price
          ≡ (evaluate c bar s).1.position.base.stop_loss_price
    unfolding evaluate IsSettled
    evaluate-IsSettled c bar s h = ground (arith, managed_step-IsSettled c bar s h)

    applied-Protected :
        (side : PositionSide) (qty cur : D) (e : Evaluation D)
        → stop_after e.0 e.1.position.base.stop_loss_price ≡ e.1.position.base.stop_loss_price
        → Protected side qty cur e.1.position
        → Protected side qty cur (applied e).position
    applied-Protected side qty cur (actions, s) settled (same, size, u, stop, kept) =
        (same, size, u, settled ∙ stop, kept)

    all-Protected :
        (c : PositionSection D) (side : PositionSide) (qty cur : D) (bars : List (Bar D))
        (s : Managed D)
        → retest_of s.position ≡ false
        → Protected side qty cur s.position
        → Protected side qty cur (evaluate_all c bars s).1.position
    unfolding evaluate_all
    all-Protected c side qty cur [] s plain h = h
    all-Protected c side qty cur (bar ∷ bars) s plain h =
        let e = evaluate c bar s in
        all-Protected c side qty cur bars (applied e)
          (evaluate-keeps c _ (plain-IsStable c) bar s plain)
          (applied-Protected side qty cur e (evaluate-IsSettled c bar s plain)
            (evaluate-keeps c _ (stop-IsStable c side qty cur) bar s h))

    -- Over any bars, with the stops of all their TRAIL_UPDATE actions applied, the evaluations of a
    -- position that has a stop and another entry mode than the retest leave its side and its size
    -- alone, and its stop set and no looser. Over ordered numbers.
    pub stop_never_loosens :
        (c : PositionSection D) (bars : List (Bar D)) (s : Managed D) (cur : D)
        → s.position.base.stop_loss_price ≡ some cur
        → is_retest s.position.entry_mode ≡ false
        → Protected s.position.base.side s.position.base.qty cur (evaluate_all c bars s).1.position
    stop_never_loosens c bars s cur e plain =
        all-Protected c s.position.base.side s.position.base.qty cur bars s plain
          (refl, refl, cur, e, NoLooser-refl laws s.position.base.side cur)
