-- ===== src/Universe/Manager/Tests.antt =====
-- A refresh of three instruments, and the theorem there.
use quantbot.Prelude.{◌≡◌, refl, true, false, ◌&&◌, ◌||◌, ◌==◌, none, some, List, [], ◌∷◌, any}
use quantbot.Number.Fraction.{Fraction, dec, fraction_number}
use quantbot.Universe.Manager.{
  UniverseSection, Instrument, day_ms, too_new, is_eligible, refresh, is_tradable,
}
use quantbot.Universe.Manager.Exact.{refresh_is_exact}

abbrev settings : UniverseSection Fraction
settings = record {
  include_quote_coin = 1;
  exclude_symbols = 6 ∷ [];
  include_symbols = 7 ∷ 9 ∷ [];
  exclude_new_listing_days = dec 30 0;
}

abbrev instruments : List Instrument
instruments =
    record { symbol = 5; quote_coin = 1; trading = true; launch_time_ms = none }
    ∷ record { symbol = 6; quote_coin = 1; trading = true; launch_time_ms = none }
    ∷ record { symbol = 7; quote_coin = 1; trading = true; launch_time_ms = some day_ms }
    ∷ []

-- Symbol 7 is too new, and included by name.
seven_is_included : is_tradable 7 (refresh settings 259200000 instruments) ≡ true
unfolding is_tradable refresh is_eligible too_new
seven_is_included = refl

six_is_excluded : is_tradable 6 (refresh settings 259200000 instruments) ≡ false
unfolding is_tradable refresh is_eligible too_new
six_is_excluded = refl

refresh_is_exact_example :
    is_tradable 7 (refresh settings 259200000 instruments)
    ≡ any (λ m. (m.symbol == 7) && is_eligible settings 259200000 m) instruments
      || (any (λ i. i == 7) settings.include_symbols && any (λ m. m.symbol == 7) instruments)
refresh_is_exact_example = refresh_is_exact settings 259200000 instruments 7
