-- ===== src/Positions/Protection/Secured.antt =====
-- How the protection of a new position ends.
use quantbot.Prelude.{◌≡◌, ◌⊎◌, Bool, true, false, none, some}
use quantbot.Number.{Number, num, ◌≺◌}
use quantbot.Core.Enums.{PositionStatus, active, closed, market}
use quantbot.Core.Models.{Position}
use quantbot.Core.Orders.{PositionTpSlState}
use quantbot.Exchange.{Session, ExchangeGateway, Result, returned, raised}
use quantbot.Execution.Orders.{OrderOutcome, fully_filled, partly_filled, place_exit}
use quantbot.Positions.Protection.{
  exit_side, ProtectionConfig, ProtectionResult, Guarded, matches_requested, nothing_wanted,
}

module _ {D W : Type 0} ⦃d : Number D⦄ (gw : ExchangeGateway D W) (c : ProtectionConfig D) where
  -- The last answer of the exchange is the requested protection.
  abbrev pub IsVerified : Guarded D W → Type 0
  IsVerified t =
      (state : PositionTpSlState D) × (t.last_read ≡ some state)
      × (matches_requested c t.position state ≡ true)

  -- A reading leaves the position alone, and succeeds only on the requested protection.
  abbrev Reads : Position D → Result Bool × Guarded D W → Type 0
  Reads p (returned true, t) = (t.position ≡ p) × IsVerified t
  Reads p (returned false, t) = t.position ≡ p
  Reads p (raised e, t) = t.position ≡ p

  -- Nothing had to be verified, or it was.
  abbrev pub IsSecured : Guarded D W → Type 0
  IsSecured t =
      (nothing_wanted gw c t.position ≡ true) ⊎ ((c.verify_tpsl_after_entry ≡ false) ⊎ IsVerified t)

  -- The last step was a market exit of the whole position, with this outcome.
  abbrev pub Exits : Guarded D W → OrderOutcome D → Type 0
  Exits t o =
      (u : Session D W) × (place_exit gw c.order t.position.symbol (exit_side t.position.side)
          t.position.qty market none u
        ≡ (returned o, t.session))

  -- An outcome with a fill.
  abbrev pub HasFill : OrderOutcome D → Type 0
  HasFill o = ((o.status ≡ fully_filled) ⊎ (o.status ≡ partly_filled)) × (num 0 ≺ o.filled_qty)

  -- A protected position is active and secured; one that is not is closed by an exit that filled, or
  -- it has the status that it had after one that did not, or after an exception.
  abbrev pub EndsSafely : PositionStatus → Result ProtectionResult × Guarded D W → Type 0
  EndsSafely old (returned r, t) =
      ((r.protected ≡ true) × (t.position.status ≡ active) × IsSecured t)
      ⊎ (((r.protected ≡ false)
            × (r.closed ≡ true)
            × (t.position.status ≡ closed)
            × (o : OrderOutcome D) × Exits t o
            × HasFill o)
          ⊎ ((r.protected ≡ false)
              × (r.closed ≡ false)
              × (t.position.status ≡ old)
              × (o : OrderOutcome D) × Exits t o
              × (HasFill o → ⊥)))
  EndsSafely old (raised e, t) = t.position.status ≡ old
