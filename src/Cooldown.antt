-- ===== src/Cooldown.antt =====
-- packages/position/cooldown.py: no new entries for a while after losses. Readings of the clock are in
-- milliseconds, configured times in minutes.
pub mod Windows
pub mod Blocks
mod Tests
use quantbot.Prelude.{
  ℕ, ◌-◌, ◌*◌, Bool, true, false, ◌||◌, leb, if◌then◌else◌, Option, none, some, List, [], ◌∷◌, ◌++◌,
  count_if, Dict, lookup, insert,
}
use quantbot.Core.Enums.{EntryMode, same_mode}
use quantbot.Core.Models.{Symbol}

pub record CooldownSection : Type 0 where
  pub symbol_cooldown_after_loss_min : ℕ
  pub symbol_cooldown_after_2_losses_min : ℕ
  pub global_cooldown_after_3_losses_min : ℕ
  pub entry_mode_cooldown_after_loss_min : ℕ

pub record CooldownTracker : Type 0 where
  pub cfg : CooldownSection
  pub symbol_losses : Dict (List ℕ)
  pub global_losses : List ℕ
  pub entry_mode_losses : EntryMode → Option ℕ

abbrev pub minute : ℕ
minute = 60000

unfoldable pub new : CooldownSection → CooldownTracker
new cfg = record {
  cfg = cfg;
  symbol_losses = [];
  global_losses = [];
  entry_mode_losses = λ m. none;
}

abbrev pub or_empty : Option (List ℕ) → List ℕ
or_empty none = []
or_empty (some ts) = ts

unfoldable pub record_result : ℕ → Symbol → EntryMode → Bool → CooldownTracker → CooldownTracker
record_result now symbol mode true k = k
record_result now symbol mode false k = record k {
  symbol_losses =
      insert symbol (or_empty (lookup symbol k.symbol_losses) ++ (now ∷ [])) k.symbol_losses;
  global_losses = k.global_losses ++ (now ∷ []);
  entry_mode_losses = λ m. if same_mode m mode then some now else k.entry_mode_losses m;
}

abbrev pub within : ℕ → ℕ → ℕ → Bool
within now minutes t = leb (now - t) (minutes * minute)

-- `losses[-1]` of a list that begins with `t`
abbrev pub newest : ℕ → List ℕ → ℕ
newest t [] = t
newest t (u ∷ ts) = newest u ts

unfoldable pub symbol_blocked : CooldownSection → ℕ → List ℕ → Bool
symbol_blocked c now [] = false
symbol_blocked c now (t ∷ ts) =
    if leb 2 (count_if (within now c.symbol_cooldown_after_2_losses_min) (t ∷ ts))
    then within now c.symbol_cooldown_after_2_losses_min (newest t ts)
    else within now c.symbol_cooldown_after_loss_min (newest t ts)

unfoldable pub in_symbol_cooldown : ℕ → Symbol → CooldownTracker → Bool
in_symbol_cooldown now symbol k =
    symbol_blocked k.cfg now (or_empty (lookup symbol k.symbol_losses))

unfoldable pub in_global_cooldown : ℕ → CooldownTracker → Bool
in_global_cooldown now k =
    leb 3 (count_if (within now k.cfg.global_cooldown_after_3_losses_min) k.global_losses)

abbrev pub mode_blocked : CooldownSection → ℕ → Option ℕ → Bool
mode_blocked c now none = false
mode_blocked c now (some last) = within now c.entry_mode_cooldown_after_loss_min last

unfoldable pub in_entry_mode_cooldown : ℕ → EntryMode → CooldownTracker → Bool
in_entry_mode_cooldown now mode k = mode_blocked k.cfg now (k.entry_mode_losses mode)

unfoldable pub in_cooldown : ℕ → Symbol → EntryMode → CooldownTracker → Bool
in_cooldown now symbol mode k =
    in_symbol_cooldown now symbol k || in_global_cooldown now k || in_entry_mode_cooldown now mode k

-- A trade that closed: when, on which symbol, how it was entered, and whether it was won.
pub record Trade : Type 0 where
  pub closed_at : ℕ
  pub symbol : Symbol
  pub entry_mode : EntryMode
  pub is_win : Bool

unfoldable pub run : List Trade → CooldownTracker → CooldownTracker
run [] k = k
run (t ∷ ts) k = run ts (record_result t.closed_at t.symbol t.entry_mode t.is_win k)
