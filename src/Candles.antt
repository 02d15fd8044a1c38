-- ===== src/Candles.antt =====
-- packages/market_data/candle_store.py: the candles of one symbol and interval. The store keeps such a
-- series under each key; `get` without a limit is the field `confirmed`, oldest first. Whether an
-- interval's candles are `step` milliseconds apart is the exchange's; only the spacing is read.
pub mod Bound
pub mod Gaps
mod Tests
use quantbot.Prelude.{
  ℕ, zero, suc, ◌+◌, ◌-◌, ◌*◌, ◌/◌, Bool, true, false, not, ltb, leb, ◌==◌, if◌then◌else◌, Option,
  none, some, List, [], ◌∷◌, ◌++◌, length, keep_if,
}

-- `Candle`: its opening time, whether it is confirmed, and its close for all that is only stored.
pub record Candle : Type 0 where
  pub open_time_ms : ℕ
  pub confirmed : Bool
  pub close : ℕ

pub record Series : Type 0 where
  pub confirmed : List Candle
  pub current : Option Candle
  pub gaps : ℕ

unfoldable pub interval_to_ms : ℕ → ℕ
interval_to_ms interval = interval * 60000

unfoldable pub empty_series : Series
empty_series = record { confirmed = []; current = none; gaps = 0 }

-- `(cur - prev) // step - 1`, and 0 where that is not positive
unfoldable pub gap_between : ℕ → Candle → Candle → ℕ
gap_between interval prev cur = (cur.open_time_ms - prev.open_time_ms) / interval_to_ms interval - 1

abbrev pub gaps_after : ℕ → Candle → List Candle → ℕ
gaps_after interval prev [] = 0
gaps_after interval prev (cur ∷ rest) = gap_between interval prev cur + gaps_after interval cur rest

unfoldable pub count_gaps : ℕ → List Candle → ℕ
count_gaps interval [] = 0
count_gaps interval (c ∷ cs) = gaps_after interval c cs

abbrev pub drop {ℓ} : {A : Type ℓ} → ℕ → List A → List A
drop zero xs = xs
drop (suc n) [] = []
drop (suc n) (x ∷ xs) = drop n xs

-- `xs[-n:]` for a positive `n`, which is also what a deque of that `maxlen` keeps of `xs`
unfoldable pub last_n {ℓ} : {A : Type ℓ} → ℕ → List A → List A
last_n n xs = drop (length xs - n) xs

abbrev pub last_of {ℓ} : {A : Type ℓ} → List A → Option A
last_of [] = none
last_of (x ∷ []) = some x
last_of (x ∷ y ∷ xs) = last_of (y ∷ xs)

-- `confirmed[-1] = candle`
abbrev pub replace_last {ℓ} : {A : Type ℓ} → A → List A → List A
replace_last a [] = []
replace_last a (x ∷ []) = a ∷ []
replace_last a (x ∷ y ∷ xs) = x ∷ replace_last a (y ∷ xs)

-- A deque of `maxlen` drops its first entry when it is full.
unfoldable pub push {ℓ} : {A : Type ℓ} → ℕ → A → List A → List A
push most a xs = last_n most (xs ++ (a ∷ []))

unfoldable pub seed : ℕ → ℕ → List Candle → Series → Series
seed most interval candles s =
    let closed = keep_if (λ c. c.confirmed) candles in
    record {
      confirmed = last_n most closed;
      gaps = count_gaps interval closed;
      current = last_of (keep_if (λ c. not c.confirmed) candles);
    }

-- The in-progress candle is cleared when it has closed.
abbrev pub clear_closed : Candle → Option Candle → Option Candle
clear_closed candle none = none
clear_closed candle (some cur) = if leb cur.open_time_ms candle.open_time_ms then none else some cur

unfoldable pub append : ℕ → Candle → ℕ → Series → Series
append most candle missing s = record {
  confirmed = push most candle s.confirmed;
  gaps = s.gaps + missing;
  current = clear_closed candle s.current;
}

-- A confirmed candle, given the last one.
unfoldable pub ingest : ℕ → ℕ → Candle → Option Candle → Series → Series
ingest most interval candle none s = append most candle 0 s
ingest most interval candle (some last) s =
    if candle.open_time_ms == last.open_time_ms
    then record s { confirmed = replace_last candle s.confirmed }
    else if ltb candle.open_time_ms last.open_time_ms
    then s
    else append most candle (gap_between interval last candle) s

unfoldable pub update : ℕ → ℕ → Candle → Series → Series
unfolding ingest append
update most interval candle s =
    if not candle.confirmed
    then record s { current = some candle }
    else ingest most interval candle (last_of s.confirmed) s

abbrev pub with_current : List Candle → Option Candle → List Candle
with_current candles none = candles
with_current candles (some cur) = candles ++ (cur ∷ [])

-- `candles[-limit:] if limit else candles`; no limit is 0.
abbrev pub limited : ℕ → List Candle → List Candle
limited zero candles = candles
limited (suc n) candles = last_n (suc n) candles

unfoldable pub get : ℕ → Series → List Candle
get limit s = limited limit s.confirmed

unfoldable pub get_with_current : ℕ → Series → List Candle
get_with_current limit s = limited limit (with_current s.confirmed s.current)

unfoldable pub last_closed : Series → Option Candle
last_closed s = last_of s.confirmed

unfoldable pub reset_gaps : Series → Series
reset_gaps s = record s { gaps = 0 }

unfoldable pub updates : ℕ → ℕ → List Candle → Series → Series
updates most interval [] s = s
updates most interval (c ∷ cs) s = updates most interval cs (update most interval c s)
