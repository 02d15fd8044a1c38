-- ===== src/Candles/Bound.antt =====
-- The invariant of a series of candles.
use quantbot.Prelude.{
  ◌≡◌, refl, inl, inr, ℕ, zero, suc, ◌-◌, ◌≤◌, ◌<◌, Bool, true, ltb, ◌==◌, Bool-cases, Option, none,
  some, List, [], ◌∷◌, ◌++◌, length, keep_if, All, All-append, arith,
}
use quantbot.Candles.{
  Candle, Series, drop, last_n, last_of, replace_last, push, gap_between, append, ingest, update,
  updates,
}

abbrev pub Later : Candle → List Candle → Type 0
Later prev [] = Unit
Later prev (c ∷ cs) = (prev.open_time_ms < c.open_time_ms) × Later c cs

-- Opening times rise.
abbrev pub Rising : List Candle → Type 0
Rising [] = Unit
Rising (c ∷ cs) = Later c cs

abbrev pub IsClosed : Candle → Type 0
IsClosed c = c.confirmed ≡ true

pub record IsValid (most : ℕ) (s : Series) : Type 0 where
  pub few : length s.confirmed ≤ most
  pub rising : Rising s.confirmed
  pub closed : All IsClosed s.confirmed

pub length-drop {ℓ} : {A : Type ℓ} (n : ℕ) (xs : List A) → length (drop n xs) ≡ length xs - n
length-drop zero xs = omega arith
length-drop (suc n) [] = omega arith
length-drop (suc n) (x ∷ xs) = omega (arith, length-drop n xs)

length-last_n {ℓ} : {A : Type ℓ} (n : ℕ) (xs : List A) → length (last_n n xs) ≤ n
unfolding last_n
length-last_n n xs = omega (arith, length-drop (length xs - n) xs)

Later-Rising : (c : Candle) (cs : List Candle) → Later c cs → Rising cs
Later-Rising c [] h = tt
Later-Rising c (e ∷ cs) h = h.1

Rising-drop : (n : ℕ) (cs : List Candle) → Rising cs → Rising (drop n cs)
Rising-drop zero cs h = h
Rising-drop (suc n) [] h = h
Rising-drop (suc n) (c ∷ cs) h = Rising-drop n cs (Later-Rising c cs h)

All-drop {ℓ κ} : {A : Type ℓ} (P : A → Type κ) (n : ℕ) (xs : List A) → All P xs → All P (drop n xs)
All-drop P zero xs h = h
All-drop P (suc n) [] h = h
All-drop P (suc n) (x ∷ xs) h = All-drop P n xs h.1

-- A candle after the last one continues the order.
pub Rising-snoc :
    (cs : List Candle) (c last : Candle)
    → last_of cs ≡ some last
    → last.open_time_ms < c.open_time_ms
    → Rising cs
    → Rising (cs ++ (c ∷ []))
Rising-snoc [] c last e h r = cc
Rising-snoc (x ∷ []) c last e h r = ground arith
Rising-snoc (x ∷ y ∷ cs) c last e h r = (r.0, Rising-snoc (y ∷ cs) c last e h r.1)

Later-replace :
    (p : Candle) (cs : List Candle) (c last : Candle)
    → last_of (p ∷ cs) ≡ some last
    → c.open_time_ms ≡ last.open_time_ms
    → (x : Candle) → Later x (p ∷ cs)
    → Later x (replace_last c (p ∷ cs))
Later-replace p [] c last e h x l = ground arith
Later-replace p (q ∷ cs) c last e h x l = (l.0, Later-replace q cs c last e h p l.1)

Rising-replace :
    (cs : List Candle) (c last : Candle)
    → last_of cs ≡ some last
    → c.open_time_ms ≡ last.open_time_ms
    → Rising cs
    → Rising (replace_last c cs)
Rising-replace [] c last e h r = r
Rising-replace (x ∷ []) c last e h r = tt
Rising-replace (x ∷ y ∷ cs) c last e h r = Later-replace y cs c last e h x r

length-replace_last {ℓ} :
    {A : Type ℓ} (a : A) (xs : List A) → length (replace_last a xs) ≡ length xs
length-replace_last a [] = refl
length-replace_last a (x ∷ []) = refl
length-replace_last a (x ∷ y ∷ xs) = omega (arith, length-replace_last a (y ∷ xs))

All-replace_last {ℓ κ} :
    {A : Type ℓ} (P : A → Type κ) (a : A) (xs : List A) → P a → All P xs → All P (replace_last a xs)
All-replace_last P a [] p h = h
All-replace_last P a (x ∷ []) p h = (p, h.1)
All-replace_last P a (x ∷ y ∷ xs) p h = (h.0, All-replace_last P a (y ∷ xs) p h.1)

pub keep_if-All : (p : Candle → Bool) (cs : List Candle) → All (λ c. p c ≡ true) (keep_if p cs)
keep_if-All p [] = tt
keep_if-All p (c ∷ cs) = ground (arith, keep_if-All p cs)

append-IsValid :
    (most : ℕ) (c : Candle) (missing : ℕ) (s : Series)
    → IsClosed c
    → Rising (s.confirmed ++ (c ∷ []))
    → IsValid most s
    → IsValid most (append most c missing s)
unfolding append push last_n
append-IsValid most c missing s closed r v =
    let all = s.confirmed ++ (c ∷ []) in
    record {
      few = unfold last_n in length-last_n most all;
      rising = Rising-drop (length all - most) all r;
      closed =
          All-drop IsClosed (length all - most) all
            (All-append IsClosed s.confirmed (c ∷ []) v.closed (closed, tt));
    }

Rising-first : (cs : List Candle) (c : Candle) → last_of cs ≡ none → Rising (cs ++ (c ∷ []))
Rising-first [] c h = tt
Rising-first (x ∷ []) c h = cc
Rising-first (x ∷ y ∷ cs) c h = absurd (last_of-some y cs h)
  where
    last_of-some : (y : Candle) (cs : List Candle) → last_of (y ∷ cs) ≡ none → ⊥
    last_of-some y [] h = cc
    last_of-some y (z ∷ cs) h = last_of-some z cs h

ingest-IsValid :
    (most interval : ℕ) (c : Candle) (s : Series) (last : Option Candle)
    → last_of s.confirmed ≡ last
    → IsClosed c
    → IsValid most s
    → IsValid most (ingest most interval c last s)
unfolding ingest
ingest-IsValid most interval c s none e closed v =
    append-IsValid most c 0 s closed (Rising-first s.confirmed c e) v
ingest-IsValid most interval c s (some last) e closed v =
    elim (Bool-cases (c.open_time_ms == last.open_time_ms)) [
      | inl same ↦
          let times : c.open_time_ms ≡ last.open_time_ms = ground arith in
          rw same (record {
            few = omega (arith, length-replace_last c s.confirmed, v.few);
            rising = Rising-replace s.confirmed c last e times v.rising;
            closed = All-replace_last IsClosed c s.confirmed closed v.closed;
          })
      | inr differ ↦ elim (Bool-cases (ltb c.open_time_ms last.open_time_ms)) [
        | inl stale ↦ rw (differ, stale) v
        | inr newer ↦
            rw (differ, newer)
              (append-IsValid most c (gap_between interval last c) s closed
                (Rising-snoc s.confirmed c last e (ground arith) v.rising) v)
      ]
    ]

update-IsValid :
    (most interval : ℕ) (c : Candle) (s : Series)
    → IsValid most s
    → IsValid most (update most interval c s)
unfolding update
update-IsValid most interval c s v = elim (Bool-cases c.confirmed) [
  | inl closed ↦ simp closed (ingest-IsValid most interval c s (last_of s.confirmed) refl closed v)
  | inr forming ↦ simp forming (record { few = v.few; rising = v.rising; closed = v.closed })
]

-- Every candle that is ingested, confirmed or not, in whatever order they come, leaves a series
-- with at most `most` candles, all confirmed, in strictly rising order of their opening times.
pub updates-IsValid :
    (most interval : ℕ) (cs : List Candle) (s : Series)
    → IsValid most s
    → IsValid most (updates most interval cs s)
unfolding updates
updates-IsValid most interval [] s v = v
updates-IsValid most interval (c ∷ cs) s v =
    updates-IsValid most interval cs (update most interval c s) (update-IsValid most interval c s v)
