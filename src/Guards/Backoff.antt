-- ===== src/Guards/Backoff.antt =====
-- packages/guards/rate_limit.py, `with_backoff`: calls with exponentially growing pauses. What each
-- call does is a parameter, by the number of the attempt.
use quantbot.Prelude.{
  ◌≡◌, refl, sym, ◌⊎◌, ℕ, zero, suc, ◌+◌, ◌-◌, ◌^◌, ◌≤◌, ◌<◌, Bool, true, not, ltb, if◌then◌else◌,
  Option, none, some, inl, inr, Bool-cases, List, [], ◌∷◌, length, All, arith,
}
use quantbot.Number.{Number, num, ◌⊗◌, ◌≼◌, min_of}
use quantbot.Number.Laws.{IsOrdered, min_of-le_left}

pub data Outcome (E T : Type 0) : Type 0 where
  returned : T → Outcome E T
  raised : E → Outcome E T

-- What the whole call does: its outcome, the number of the last attempt, from 0, and the pauses.
pub record Trace (D E T : Type 0) : Type 0 where
  pub outcome : Outcome E T
  pub last : ℕ
  pub delays : List D

-- `retries`, `base_sec`, `max_sec` and `retry_on`
pub record Policy (D E : Type 0) : Type 0 where
  pub retries : ℕ
  pub base_sec : D
  pub max_sec : D
  pub retry_on : E → Bool

-- The pause after the attempt of this number.
unfoldable pub delay_after : {D E : Type 0} ⦃d : Number D⦄ → Policy D E → ℕ → D
delay_after p attempt = min_of p.max_sec (p.base_sec ⊗ num (2 ^ attempt))

module _ {D E T : Type 0} ⦃d : Number D⦄ where
  abbrev pub slept : D → Option (Trace D E T) → Option (Trace D E T)
  slept delay none = none
  slept delay (some t) = some (record t { delays = delay ∷ t.delays })

  abbrev pub on_outcome : Policy D E → ℕ → Option (Trace D E T) → Outcome E T → Option (Trace D E T)
  on_outcome p attempt rest (returned v) =
      some (record { outcome = returned v; last = attempt; delays = [] })
  on_outcome p attempt rest (raised e) =
      if not (p.retry_on e)
      then some (record { outcome = raised e; last = attempt; delays = [] })
      else if ltb p.retries (attempt + 1)
      then some (record { outcome = raised e; last = attempt; delays = [] })
      else slept (delay_after p attempt) rest

  -- The loop; without fuel there is no result.
  unfoldable pub attempts : Policy D E → (ℕ → Outcome E T) → ℕ → ℕ → Option (Trace D E T)
  attempts p func zero attempt = none
  attempts p func (suc fuel) attempt =
      let rest = attempts p func fuel (attempt + 1) in on_outcome p attempt rest (func attempt)

  unfoldable pub with_backoff : Policy D E → (ℕ → Outcome E T) → Option (Trace D E T)
  unfolding attempts
  with_backoff p func = attempts p func (p.retries + 1) 0

-- A call that failed and may be tried again.
module _ {D E T : Type 0} where
  abbrev pub Retriable : Policy D E → Outcome E T → Type 0
  Retriable p (returned v) = ⊥
  Retriable p (raised e) = p.retry_on e ≡ true

module _ {D E T : Type 0} ⦃d : Number D⦄ where
  -- The trace is that of a call from the attempt `first` on.
  pub record Traced (p : Policy D E) (func : ℕ → Outcome E T) (first : ℕ) (t : Trace D E T)
      : Type 0 where
    pub last_outcome : t.outcome ≡ func t.last
    pub in_order : first ≤ t.last
    pub bounded : t.last ≤ p.retries
    pub failures : (k : ℕ) → first ≤ k → k < t.last → Retriable p (func k)
    pub gives_up : Retriable p t.outcome → t.last ≡ p.retries
    pub pauses : length t.delays ≡ t.last - first
    pub short : All (λ delay. delay ≼ p.max_sec) t.delays

  -- The call ends at this attempt.
  Traced-stop :
      (p : Policy D E) (func : ℕ → Outcome E T) (k : ℕ) (o : Outcome E T)
      → func k ≡ o
      → k ≤ p.retries
      → (Retriable p o → k ≡ p.retries)
      → Traced p func k (record { outcome = o; last = k; delays = [] })
  Traced-stop p func k o e h g = record {
    last_outcome = sym e;
    in_order = omega arith;
    bounded = h;
    failures = λ j a b. absurd (omega (arith, a, b));
    gives_up = g;
    pauses = omega arith;
    short = tt;
  }

  -- The call fails at the attempt `k`, and is traced from the next one.
  Traced-retry :
      IsOrdered D
      → (p : Policy D E) (func : ℕ → Outcome E T) (k : ℕ) {t : Trace D E T} → Retriable p (func k)
      → Traced p func (k + 1) t
      → Traced p func k (record t { delays = delay_after p k ∷ t.delays })
  unfolding delay_after
  Traced-retry laws p func k {t = t} h r = record {
    last_outcome = r.last_outcome;
    in_order = omega (arith, r.in_order);
    bounded = r.bounded;
    failures =
        λ j a b. elim (compare-cases k j a) [ inl e ↦ rw (← e) h | inr l ↦ r.failures j l b ];
    gives_up = r.gives_up;
    pauses = omega (arith, r.pauses, r.in_order);
    short = (min_of-le_left laws p.max_sec _, r.short);
  }
    where
      compare-cases : (k j : ℕ) → k ≤ j → (k ≡ j) ⊎ (k + 1 ≤ j)
      compare-cases k j h = omega arith

  -- One round of the loop, with the trace `t` of what follows where retries are left.
  round-Traced :
      IsOrdered D
      → (p : Policy D E) (func : ℕ → Outcome E T) (k : ℕ) (rest : Option (Trace D E T))
      → k ≤ p.retries
      → (k < p.retries → (t : Trace D E T) × (rest ≡ some t) × Traced p func (k + 1) t)
      → (o : Outcome E T) → func k ≡ o
      → (t : Trace D E T) × (on_outcome p k rest o ≡ some t) × Traced p func k t
  round-Traced laws p func k rest b more (returned v) h =
      (_, refl, Traced-stop p func k (returned v) h b (λ r. absurd r))
  round-Traced laws p func k rest b more (raised e) h = elim (Bool-cases (p.retry_on e)) [
    | inr fatal ↦ (stopped, ground arith, Traced-stop p func k (raised e) h b (λ again. cc))
    | inl again ↦ elim (le-cases k p.retries b) [
      | inl over ↦ (stopped, ground arith, Traced-stop p func k (raised e) h b (λ r. over))
      | inr left ↦
          let after = more left in
          (
            record (after.0) { delays = delay_after p k ∷ after.0.delays },
            ground (arith, after.1),
            Traced-retry laws p func k (rw h again) after.2,
          )
    ]
  ]
    where
      stopped : Trace D E T
      stopped = record { outcome = raised e; last = k; delays = [] }

      le-cases : (m n : ℕ) → m ≤ n → (m ≡ n) ⊎ (m < n)
      le-cases m n l = omega arith

  attempts-Traced :
      IsOrdered D
      → (p : Policy D E) (func : ℕ → Outcome E T) (fuel k : ℕ) → k + fuel ≡ p.retries
      → (t : Trace D E T) × (attempts p func (suc fuel) k ≡ some t) × Traced p func k t
  unfolding attempts
  attempts-Traced laws p func zero k h =
      round-Traced laws p func k none (omega arith) (λ l. absurd (omega arith)) (func k) refl
  attempts-Traced laws p func (suc fuel) k h =
      round-Traced laws p func k (attempts p func (suc fuel) (k + 1)) (omega arith)
        (λ l. attempts-Traced laws p func fuel (k + 1) (omega arith)) (func k) refl

  -- Over ordered numbers the retry loop ends: after at most `retries` further attempts there is an
  -- outcome, that of the last attempt; every earlier attempt failed in a way that may be retried,
  -- the last one only when no retries are left, and there was one pause a retry, none longer than
  -- `max_sec`.
  pub with_backoff_ends :
      IsOrdered D
      → (p : Policy D E) (func : ℕ → Outcome E T)
      → (t : Trace D E T) × (with_backoff p func ≡ some t) × Traced p func 0 t
  unfolding with_backoff
  with_backoff_ends laws p func =
      let fuel : p.retries + 1 ≡ suc p.retries = omega arith in
      rw fuel (attempts-Traced laws p func p.retries 0 (omega arith))
