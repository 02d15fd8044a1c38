-- ===== src/Cooldown/Tests.antt =====
-- Cooldowns after sample trades, and the theorems there.
use quantbot.Prelude.{◌≡◌, refl, ◌+◌, ◌*◌, ◌≤◌, true, false, none, List, [], ◌∷◌, arith}
use quantbot.Core.Enums.{EntryMode, breakout_confirm, retest_confirm}
use quantbot.Core.Models.{Symbol}
use quantbot.Cooldown.{
  CooldownSection, CooldownTracker, Trade, minute, new, record_result, symbol_blocked,
  in_symbol_cooldown, in_cooldown, run,
}
use quantbot.Cooldown.Windows.{cooldown_expires}
use quantbot.Cooldown.Blocks.{loss_blocks}

abbrev section : CooldownSection
section = record {
  symbol_cooldown_after_loss_min = 15;
  symbol_cooldown_after_2_losses_min = 60;
  global_cooldown_after_3_losses_min = 30;
  entry_mode_cooldown_after_loss_min = 20;
}

abbrev fresh : CooldownTracker
fresh = record {
  cfg = section;
  symbol_losses = [];
  global_losses = [];
  entry_mode_losses = λ m. none;
}

abbrev trades : List Trade
trades =
    record { closed_at = 60000; symbol = 4; entry_mode = breakout_confirm; is_win = true }
    ∷ record { closed_at = 120000; symbol = 5; entry_mode = retest_confirm; is_win = false }
    ∷ []

-- A second loss 55 minutes after the first blocks for 60 minutes from the first only.
first_of_two_counts :
    in_symbol_cooldown 4270000 3 (
      record_result 3300000 3 breakout_confirm false
        (record_result 0 3 breakout_confirm false fresh))
    ≡ false
unfolding in_symbol_cooldown symbol_blocked record_result
first_of_two_counts = refl

cooldown_expires_example : in_cooldown 9000000 5 retest_confirm (run trades (new section)) ≡ false
cooldown_expires_example =
    cooldown_expires section 9000000 trades 5 retest_confirm
      (λ h. cc, (λ h. (omega arith, omega arith, omega arith, omega arith), tt))

loss_blocks_example :
    let after = run trades (record_result 30000 3 breakout_confirm false fresh) in
    (600000 ≤ 30000 + 15 * minute → (m : EntryMode) → in_cooldown 600000 3 m after ≡ true)
    × (600000 ≤ 30000 + 20 * minute
        → (s : Symbol) → in_cooldown 600000 s breakout_confirm after ≡ true)
loss_blocks_example =
    loss_blocks 30000 600000 3 breakout_confirm trades fresh (omega arith, (omega arith, tt))
      (omega arith)
