-- ===== src/Execution/Kept.antt =====
-- Which states an action keeps an invariant in, whatever it returns or raises, while it raises
-- nothing but the exchange's exceptions.
use quantbot.Prelude.{ℕ, true, false, ◌≡◌, Bool, Option, none, some, All, if◌then◌else◌}
use quantbot.Core.Orders.{OrderRequest, ExchangeOrderResult}
use quantbot.Exchange.{
  Failure, ends_well, is_outside, Placed, Session, Result, returned, raised, accepted, timed_out,
  refused, Action, continue, ◌>>=◌, or_raise,
}

pub if-holds :
    {A : Type 0} (P : A → Type 0) (test : Bool) (x y : A) → P x → P y → P (if test then x else y)
if-holds P true x y h k = h
if-holds P false x y h k = k

module _ {S A : Type 0} where
  abbrev pub Keeps : (S → Type 0) → Action S A → Type 0
  Keeps I m = (s : S) → I s → I (m s).1 × (ends_well (m s).0 ≡ true)

  pub bind-Keeps :
      {B : Type 0} (I : S → Type 0) (m : Action S B) (f : B → Action S A)
      → ((s : S) → I s → I (m s).1 × (ends_well (m s).0 ≡ true))
      → ((b : B) → Keeps I (f b))
      → Keeps I (m >>= f)
  unfolding ◌>>=◌
  bind-Keeps {B} I m f now later s h = after (m s) (now s h)
    where
      after :
          (p : Result B × S)
          → I p.1 × (ends_well p.0 ≡ true)
          → I (continue f p).1 × (ends_well (continue f p).0 ≡ true)
      after (returned b, t) k = later b t k.0
      after (raised e, t) k = k

  pub or_raise-Keeps :
      {B : Type 0} (I : S → Type 0) (o : Option B) (e : Failure) (f : B → Action S A)
      → is_outside e ≡ true
      → ((b : B) → Keeps I (f b))
      → Keeps I (or_raise o e >>= f)
  unfolding ◌>>=◌
  or_raise-Keeps I none e f q h s k = (k, q)
  or_raise-Keeps I (some b) e f q h s k = h b s k

  pub known-Keeps :
      {B : Type 0} (I : S → Type 0) (o : Option B) (e : Failure) (f : B → Action S A) (b : B)
      → o ≡ some b
      → Keeps I (f b)
      → Keeps I (or_raise o e >>= f)
  unfolding ◌>>=◌
  known-Keeps I o e f b known h s k = simp known (h s k)

  pub if-Keeps :
      (I : S → Type 0) (test : Bool) (m n : Action S A)
      → Keeps I m
      → Keeps I n
      → Keeps I (if test then m else n)
  if-Keeps I true m n h k = h
  if-Keeps I false m n h k = k

  pub option-Keeps :
      {B : Type 0} (I : S → Type 0) (o : Option B) (m : Action S A) (f : B → Action S A)
      → Keeps I m
      → ((b : B) → Keeps I (f b))
      → Keeps I (elim o [ none ↦ m | some b ↦ f b ])
  option-Keeps I none m f h k = h
  option-Keeps I (some b) m f h k = k b

  pub answer-Keeps :
      {D : Type 0} (I : S → Type 0) (answer : Placed D) (f : ExchangeOrderResult D → Action S A)
      (m n : Action S A)
      → ((r : ExchangeOrderResult D) → Keeps I (f r))
      → Keeps I m
      → Keeps I n
      → Keeps I (elim answer [ accepted r ↦ f r | timed_out ↦ m | refused ↦ n ])
  answer-Keeps I (accepted r) f m n h j k = h r
  answer-Keeps I timed_out f m n h j k = j
  answer-Keeps I refused f m n h j k = k

module _ {D W : Type 0} (P : OrderRequest D → Type 0) where
  -- A property of the requests sent.
  abbrev pub Sent : Session D W → Type 0
  Sent s = All P s.sent

-- A property that does not read the quantity or the id.
abbrev pub IsStable : {D : Type 0} → (OrderRequest D → Type 0) → Type 0
IsStable {D} P =
    ((r : OrderRequest D) (q : D) → P r → P (record r { qty = q }))
    × ((r : OrderRequest D) (id : Option ℕ) → P r → P (record r { client_order_id = id }))
