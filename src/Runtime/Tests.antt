-- ===== src/Runtime/Tests.antt =====
-- The registries on short runs, and the theorems there.
use quantbot.Prelude.{◌≡◌, ◌↔◌, refl, ℕ, ◌+◌, ◌<◌, true, false, ◌||◌, ltb, some, List, [], ◌∷◌, any}
use quantbot.Number.Fraction.{Fraction}
use quantbot.Runtime.{
  RuntimeState, reserve_order, updates_of, begin_position_update, end_position_update,
  has_position_update_for_symbol, has_bot_order_settling_for_symbol, new_entries_paused,
  pause_remaining,
}
use quantbot.Runtime.Orders.{
  Update, begins, ends, in_flight, run_updates, updates_are_counted, Call, reserves, clears,
  updates, run_calls, reserved_until_cleared,
}
use quantbot.Runtime.Pause.{run_pauses, pause_is_longest}

abbrev fresh : RuntimeState Fraction
fresh = record {
  positions = [];
  pending_order_symbols = [];
  position_update_symbols = [];
  new_entry_pause_until = 0;
}

abbrev fills : List Update
fills = begins 3 ∷ begins 8 ∷ begins 3 ∷ ends 3 ∷ ends 8 ∷ []

-- One of the two updates of symbol 3 is still running, and none of symbol 8.
three_is_running : has_position_update_for_symbol 3 (run_updates fills fresh) ≡ true
unfolding has_position_update_for_symbol run_updates updates_of begin_position_update
    end_position_update
three_is_running = refl

eight_is_done : has_position_update_for_symbol 8 (run_updates fills fresh) ≡ false
unfolding has_position_update_for_symbol run_updates updates_of begin_position_update
    end_position_update
eight_is_done = refl

updates_are_counted_example :
    has_position_update_for_symbol 3 (run_updates fills fresh) ≡ ltb 0 (in_flight 3 0 fills)
updates_are_counted_example = updates_are_counted 3 fills fresh refl

abbrev others : List Call
others = reserves 51 4 ∷ updates (begins 4) ∷ clears 51 ∷ updates (ends 4) ∷ []

reserved_until_cleared_example :
    has_bot_order_settling_for_symbol 7 (run_calls others (reserve_order (some 50) 7 fresh)) ≡ true
reserved_until_cleared_example = reserved_until_cleared 50 7 others fresh refl

pause_is_longest_example :
    let ps : List (ℕ × ℕ) = (1000, 60000) ∷ (2000, 5000) ∷ [] in
    (new_entries_paused 30000 (run_pauses ps fresh)
      ≡ new_entries_paused 30000 fresh || any (λ p. ltb 30000 (p.0 + p.1)) ps)
    × (0 < pause_remaining 30000 (run_pauses ps fresh)
        ↔ new_entries_paused 30000 (run_pauses ps fresh) ≡ true)
pause_is_longest_example = pause_is_longest 30000 ((1000, 60000) ∷ (2000, 5000) ∷ []) fresh
