-- ===== src/Candles/Gaps.antt =====
-- Ingesting candles one by one against seeding with them.
use quantbot.Prelude.{
  ◌≡◌, refl, ℕ, ◌+◌, ◌-◌, ◌≤◌, ◌<◌, not, none, some, List, [], ◌∷◌, ◌++◌, length, keep_if,
  length-append, All, arith,
}
use mathlib.Core.List.{append-nil, append_assoc}
use quantbot.Candles.{
  Candle, Series, empty_series, gap_between, gaps_after, count_gaps, last_n, last_of, push, append,
  seed, update, updates,
}
use quantbot.Candles.Bound.{Later, Rising, IsClosed}

gaps_after-snoc :
    (interval : ℕ) (p : Candle) (cs : List Candle) (c last : Candle)
    → last_of (p ∷ cs) ≡ some last
    → gaps_after interval p (cs ++ (c ∷ []))
      ≡ gaps_after interval p cs + gap_between interval last c
gaps_after-snoc interval p [] c last e = ground arith
gaps_after-snoc interval p (q ∷ cs) c last e = omega (arith, gaps_after-snoc interval q cs c last e)

last_exists : (p : Candle) (cs : List Candle) → (last : Candle) × (last_of (p ∷ cs) ≡ some last)
last_exists p [] = (p, refl)
last_exists p (q ∷ cs) = last_exists q cs

-- In rising order what follows the last entry is after it.
Later-next :
    (p : Candle) (before : List Candle) (a : Candle) (after : List Candle) (last : Candle)
    → last_of (p ∷ before) ≡ some last
    → Later p (before ++ (a ∷ after))
    → last.open_time_ms < a.open_time_ms
Later-next p [] a after last e h = ground arith
Later-next p (q ∷ before) a after last e h = Later-next q before a after last e h.1

last_n-all {ℓ} : {A : Type ℓ} (n : ℕ) (xs : List A) → length xs ≤ n → last_n n xs ≡ xs
unfolding last_n
last_n-all n xs h = let nothing : length xs - n ≡ 0 = omega arith in rw nothing refl

-- Nothing was dropped: what is kept is `cs`, and its gaps are counted.
record Holds (interval : ℕ) (cs : List Candle) (s : Series) : Type 0 where
  all : s.confirmed ≡ cs
  counted : s.gaps ≡ count_gaps interval cs
  settled : s.current ≡ none

update-newer :
    (most interval : ℕ) (c last : Candle) (s : Series)
    → IsClosed c
    → last_of s.confirmed ≡ some last
    → last.open_time_ms < c.open_time_ms
    → update most interval c s ≡ append most c (gap_between interval last c) s
unfolding update append
update-newer most interval c last s closed e h = ground arith

append-Holds :
    (most interval : ℕ) (p : Candle) (before : List Candle) (a last : Candle) (s : Series)
    → length (p ∷ (before ++ (a ∷ []))) ≤ most
    → last_of (p ∷ before) ≡ some last
    → Holds interval (p ∷ before) s
    → Holds interval (p ∷ (before ++ (a ∷ []))) (append most a (gap_between interval last a) s)
unfolding append push count_gaps
append-Holds most interval p before a last s l e h = record {
  all = rw (h.all) (last_n-all most (p ∷ (before ++ (a ∷ []))) l);
  counted = omega (arith, h.counted, gaps_after-snoc interval p before a last e);
  settled = rw (h.settled) refl;
}

update-Holds :
    (most interval : ℕ) (p : Candle) (before : List Candle) (a : Candle) (after : List Candle)
    (s : Series)
    → length (p ∷ (before ++ (a ∷ []))) ≤ most
    → IsClosed a
    → Rising (p ∷ (before ++ (a ∷ after)))
    → Holds interval (p ∷ before) s
    → Holds interval (p ∷ (before ++ (a ∷ []))) (update most interval a s)
update-Holds most interval p before a after s l c r h =
    let last = last_exists p before in
    let newer = Later-next p before a after last.0 last.1 r in
    let end : last_of s.confirmed ≡ some last.0 = rw (h.all) last.1 in
    rw (update-newer most interval a last.0 s c end newer)
      (append-Holds most interval p before a last.0 s l last.1 h)

updates-Holds :
    (most interval : ℕ) (p : Candle) (before after : List Candle) (s : Series)
    → length (p ∷ before) + length after ≤ most
    → All IsClosed after
    → Rising (p ∷ (before ++ after))
    → Holds interval (p ∷ before) s
    → Holds interval (p ∷ (before ++ after)) (updates most interval after s)
unfolding updates
updates-Holds most interval p before [] s l c r h = rw (append-nil before) h
updates-Holds most interval p before (a ∷ after) s l c r h =
    let fits : length (p ∷ (before ++ (a ∷ []))) ≤ most =
      omega (arith, length-append before (a ∷ [])) in
    let next = update-Holds most interval p before a after s fits c.0 r h in
    let split = append_assoc before (a ∷ []) after in
    rw (← split) (
      updates-Holds most interval p (before ++ (a ∷ [])) after (update most interval a s)
        (omega (arith, length-append before (a ∷ []))) c.1 (rw split r) next)

keep_if-closed : (cs : List Candle) → All IsClosed cs → keep_if (λ c. c.confirmed) cs ≡ cs
keep_if-closed [] h = refl
keep_if-closed (c ∷ cs) h = rw (h.0, keep_if-closed cs h.1) refl

keep_if-forming : (cs : List Candle) → All IsClosed cs → keep_if (λ c. not c.confirmed) cs ≡ []
keep_if-forming [] h = refl
keep_if-forming (c ∷ cs) h = rw (h.0, keep_if-forming cs h.1) refl

-- A series that holds what a snapshot would, is the snapshot's.
Holds-seed :
    (most interval : ℕ) (cs : List Candle) (s s0 : Series)
    → length cs ≤ most
    → All IsClosed cs
    → Holds interval cs s
    → s ≡ seed most interval cs s0
unfolding seed
Holds-seed most interval cs s s0 l c h =
    simp (keep_if-closed cs c, keep_if-forming cs c, last_n-all most cs l)
      (ground (arith, h.all, h.counted, h.settled))

empty-Holds : (interval : ℕ) → Holds interval [] empty_series
unfolding empty_series count_gaps
empty-Holds interval = record { all = refl; counted = refl; settled = refl }

first-Holds :
    (most interval : ℕ) (x : Candle)
    → 1 ≤ most
    → IsClosed x
    → Holds interval (x ∷ []) (update most interval x empty_series)
unfolding update empty_series push count_gaps
first-Holds most interval x l c =
    simp c (record {
      all = last_n-all most (x ∷ []) (omega arith);
      counted = omega arith;
      settled = refl;
    })

-- Streaming closed candles in rising order into an empty series gives what seeding it with them
-- gives, gap count included, as long as they are no more than the series keeps.
pub streaming_is_seeding :
    (most interval : ℕ) (cs : List Candle)
    → length cs ≤ most
    → All IsClosed cs
    → Rising cs
    → updates most interval cs empty_series ≡ seed most interval cs empty_series
unfolding updates
streaming_is_seeding most interval [] l c r =
    Holds-seed most interval [] empty_series empty_series l c (empty-Holds interval)
streaming_is_seeding most interval (x ∷ cs) l c r =
    let first = update most interval x empty_series in
    Holds-seed most interval (x ∷ cs) (updates most interval cs first) empty_series l c (
      updates-Holds most interval x [] cs first (omega arith) c.1 r
        (first-Holds most interval x (omega arith) c.0))
