-- ===== src/Universe/Manager.antt =====
-- packages/universe/universe_manager.py: the tradable instruments. The instruments that the gateway
-- loads, and the time in milliseconds, are arguments; coins are numbers, and the days of a listing,
-- which are only compared with a quotient, are of its kind.
pub mod Exact
mod Tests
use quantbot.Prelude.{
  ℕ, Bool, true, false, not, ◌&&◌, ◌==◌, ltb, if◌then◌else◌, is_some, Option, none, some, List, [],
  ◌∷◌, any, Dict, lookup, insert,
}
use quantbot.Number.{Number, num, ◌⊖◌, ◌⊘◌, ◌<<◌}
use quantbot.Core.Models.{Symbol}

pub record UniverseSection (D : Type 0) : Type 0 where
  pub include_quote_coin : ℕ
  pub exclude_symbols : List Symbol
  pub include_symbols : List Symbol
  pub exclude_new_listing_days : D

-- What the manager reads of a `SymbolMeta`; `trading` is `status == "Trading"`.
pub record Instrument : Type 0 where
  pub symbol : Symbol
  pub quote_coin : ℕ
  pub trading : Bool
  pub launch_time_ms : Option ℕ

abbrev pub day_ms : ℕ
day_ms = 86400000

module _ {D : Type 0} ⦃d : Number D⦄ where
  -- Is the listing younger than the configured days?
  unfoldable pub too_new : D → ℕ → Option ℕ → Bool
  too_new days now none = false
  too_new days now (some launch) =
      (num 0 << days) && (((num now ⊖ num launch) ⊘ num day_ms) << days)

  unfoldable pub is_eligible : UniverseSection D → ℕ → Instrument → Bool
  is_eligible c now m =
      if not (m.quote_coin == c.include_quote_coin)
      then false
      else if not m.trading
      then false
      else if any (λ s. s == m.symbol) c.exclude_symbols
      then false
      else not (too_new c.exclude_new_listing_days now m.launch_time_ms)

-- The first loop, with `is_eligible` as its test.
abbrev pub keep_eligible : (Instrument → Bool) → Dict Instrument → List Instrument → Dict Instrument
keep_eligible test kept [] = kept
keep_eligible test kept (m ∷ ms) =
    let taken = keep_eligible test (insert m.symbol m kept) ms in
    let passed = keep_eligible test kept ms in if test m then taken else passed

-- `next((m for m in instruments if m.symbol == sym), None)`
abbrev pub find_symbol : Symbol → List Instrument → Option Instrument
find_symbol sym [] = none
find_symbol sym (m ∷ ms) = let rest = find_symbol sym ms in if m.symbol == sym then some m else rest

abbrev pub put_match : Symbol → Option Instrument → Dict Instrument → Dict Instrument
put_match sym none kept = kept
put_match sym (some m) kept = insert sym m kept

-- The second loop, over the explicit inclusions.
abbrev pub add_included : List Instrument → List Symbol → Dict Instrument → Dict Instrument
add_included instruments [] kept = kept
add_included instruments (sym ∷ syms) kept =
    let added = add_included instruments syms (put_match sym (find_symbol sym instruments) kept) in
    let passed = add_included instruments syms kept in
    if is_some (lookup sym kept) then passed else added

module _ {D : Type 0} ⦃d : Number D⦄ where
  unfoldable pub refresh : UniverseSection D → ℕ → List Instrument → Dict Instrument
  refresh c now instruments =
      add_included instruments c.include_symbols (keep_eligible (is_eligible c now) [] instruments)

unfoldable pub is_tradable : Symbol → Dict Instrument → Bool
is_tradable symbol symbols = is_some (lookup symbol symbols)
