-- ===== src/Candles/Tests.antt =====
-- A series of minute candles, and the theorems there.
use quantbot.Prelude.{◌≡◌, refl, ℕ, ◌*◌, true, false, none, List, [], ◌∷◌, arith}
use quantbot.Candles.{
  Candle, interval_to_ms, empty_series, gap_between, last_n, push, seed, update, updates,
}
use quantbot.Candles.Bound.{IsValid, updates-IsValid}
use quantbot.Candles.Gaps.{streaming_is_seeding}

abbrev closed_at : ℕ → Candle
closed_at minute = record { open_time_ms = minute * 60000; confirmed = true; close = minute }

-- Two candles are missing before the third, and one before the last.
abbrev minutes : List Candle
minutes = closed_at 1 ∷ closed_at 2 ∷ closed_at 5 ∷ closed_at 7 ∷ []

abbrev out_of_order : List Candle
out_of_order =
    closed_at 4
    ∷ closed_at 2
    ∷ record (closed_at 5) { confirmed = false }
    ∷ closed_at 5
    ∷ closed_at 6
    ∷ []

three_missing : (updates 10 1 minutes empty_series).gaps ≡ 3
unfolding updates update push last_n gap_between interval_to_ms empty_series
three_missing = refl

newest_three :
    updates 2 1 out_of_order empty_series
    ≡ record { confirmed = closed_at 5 ∷ closed_at 6 ∷ []; current = none; gaps = 0 }
unfolding updates update push last_n gap_between interval_to_ms empty_series
newest_three = refl

empty-IsValid : IsValid 2 empty_series
unfolding empty_series
empty-IsValid = record { few = omega arith; rising = tt; closed = tt }

updates-IsValid_example : IsValid 2 (updates 2 1 out_of_order empty_series)
updates-IsValid_example = updates-IsValid 2 1 out_of_order empty_series empty-IsValid

streaming_is_seeding_example : updates 10 1 minutes empty_series ≡ seed 10 1 minutes empty_series
streaming_is_seeding_example =
    streaming_is_seeding 10 1 minutes (omega arith) (refl, (refl, (refl, (refl, tt)))) (omega arith)
