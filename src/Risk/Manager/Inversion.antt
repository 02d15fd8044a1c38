-- ===== src/Risk/Manager/Inversion.antt =====
-- What an approval went through.
use quantbot.Prelude.{◌≡◌, refl, Bool, true, false}
use quantbot.Number.{Number}
use quantbot.Risk.Levels.{estimate_liq_price}
use quantbot.Risk.Sizing.{SizingResult}
use quantbot.Risk.Result.{Result, ok, rejected, Reason, ◌>>=◌, ◌>>◌, reject_if}
use quantbot.Risk.Manager.{
  Request, Approval, side, check_market, check_stop, check_account, sized, check_minimum,
  check_exposure, check_liquidation, leverage_for, approval, approve,
}

pub >>-eq-ok {ℓ} :
    {B : Type ℓ} (m : Result (Unit {0})) (k : Result B) {b : B}
    → (m >> k) ≡ ok b
    → (m ≡ ok tt) × (k ≡ ok b)
>>-eq-ok (ok tt) k h = (refl, h)
>>-eq-ok (rejected r) k h = cc

-- A computed value, and the checks that it went on to.
record Continued {D E : Type 0} (step : Result D) (next : D → Result E) (end : E) : Type 0 where
  value : D
  computed : step ≡ ok value
  followed : next value ≡ ok end

continue :
    {D E : Type 0} (step : Result D) (next : D → Result E) (end : E)
    → (step >>= next) ≡ ok end
    → Continued step next end
continue (rejected why) next end done = cc
continue (ok v) next end done = record { value = v; computed = refl; followed = done }

pub reject_if-eq-ok : (b : Bool) (r : Reason) → reject_if b r ≡ ok tt → b ≡ false
reject_if-eq-ok true r h = cc
reject_if-eq-ok false r h = refl

module _ {D : Type 0} ⦃d : Number D⦄ where
  pub record Passed (q : Request D) (a : Approval D) : Type 0 where
    pub size : SizingResult D
    pub market : check_market q ≡ ok tt
    pub stop : check_stop q ≡ ok tt
    pub account : check_account q ≡ ok tt
    pub computed : sized q ≡ ok size
    pub minimum : check_minimum q size.qty ≡ ok tt
    pub exposure : check_exposure q size.risk_usdt ≡ ok tt
    pub liquidation :
        check_liquidation q (estimate_liq_price q.entry_price (leverage_for q size) (side q))
        ≡ ok tt
    pub result : a ≡ approval q size

  pub approve-Passed : (q : Request D) (a : Approval D) → approve q ≡ ok a → Passed q a
  unfolding approve
  approve-Passed q a h =
      let p1 = >>-eq-ok (check_market q) _ h in
      let p2 = >>-eq-ok (check_stop q) _ p1.1 in
      let p3 = >>-eq-ok (check_account q) _ p2.1 in
      let p4 = continue (sized q) _ a p3.1 in
      let s = p4.value in
      let p5 = >>-eq-ok (check_minimum q s.qty) _ p4.followed in
      let p6 = >>-eq-ok (check_exposure q s.risk_usdt) _ p5.1 in
      let p7 = >>-eq-ok (check_liquidation q _) _ p6.1 in
      record {
        size = s;
        market = p1.0;
        stop = p2.0;
        account = p3.0;
        computed = p4.computed;
        minimum = p5.0;
        exposure = p6.0;
        liquidation = p7.0;
        result = cc p7.1;
      }
