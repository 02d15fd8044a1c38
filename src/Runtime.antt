-- ===== src/Runtime.antt =====
-- apps/bot/runtime/runtime_state.py: the registries of the running bot and the pause of new entries.
-- Readings of the clock and seconds are in milliseconds.
pub mod Orders
pub mod Pause
mod Tests
use quantbot.Prelude.{
  ◌≡◌, ℕ, zero, suc, ◌+◌, ◌-◌, Bool, true, false, ◌&&◌, ◌||◌, ltb, ◌==◌, if◌then◌else◌, is_some,
  Option, none, some, List, [], ◌∷◌, any, keep_if, length, Dict, lookup, insert, remove, values,
}
use quantbot.Core.Enums.{
  PositionStatus, pending, active, closing, closed, PositionSource, bot, external,
}
use quantbot.Core.Models.{Symbol, Position}

-- `client_order_id`s are numbers, and an empty one is `none`.
pub record RuntimeState (D : Type 0) : Type 0 where
  pub positions : Dict (Position D)
  pub pending_order_symbols : Dict Symbol
  pub position_update_symbols : Dict ℕ
  pub new_entry_pause_until : ℕ

abbrev pub is_bot_managed : PositionSource → Bool
is_bot_managed bot = true
is_bot_managed external = false

abbrev pub is_active : PositionStatus → Bool
is_active active = true
is_active pending = true
is_active closing = false
is_active closed = false

abbrev pub is_open : PositionStatus → Bool
is_open pending = true
is_open active = true
is_open closing = true
is_open closed = false

abbrev pub get_or : ℕ → Option ℕ → ℕ
get_or default none = default
get_or default (some n) = n

module _ {D : Type 0} where
  unfoldable pub new : RuntimeState D
  new = record {
    positions = [];
    pending_order_symbols = [];
    position_update_symbols = [];
    new_entry_pause_until = 0;
  }

  unfoldable pub active_bot_positions : RuntimeState D → List (Position D)
  active_bot_positions s =
      keep_if (λ p. is_bot_managed p.source && is_active p.status) (values s.positions)

  unfoldable pub open_positions : RuntimeState D → List (Position D)
  open_positions s = keep_if (λ p. is_open p.status) (values s.positions)

  unfoldable pub has_open_bot_position : RuntimeState D → Bool
  unfolding active_bot_positions
  has_open_bot_position s = ltb 0 (length (active_bot_positions s))

  unfoldable pub reserve_order : Option ℕ → Symbol → RuntimeState D → RuntimeState D
  reserve_order none symbol s = s
  reserve_order (some id) symbol s = record s {
    pending_order_symbols = insert id symbol s.pending_order_symbols;
  }

  unfoldable pub clear_order_reservation : Option ℕ → RuntimeState D → RuntimeState D
  clear_order_reservation none s = s
  clear_order_reservation (some id) s = record s {
    pending_order_symbols = remove id s.pending_order_symbols;
  }

  unfoldable pub has_pending_order_for_symbol : Symbol → RuntimeState D → Bool
  has_pending_order_for_symbol symbol s =
      any (λ reserved. reserved == symbol) (values s.pending_order_symbols)

  unfoldable pub updates_of : Symbol → RuntimeState D → ℕ
  updates_of symbol s = get_or 0 (lookup symbol s.position_update_symbols)

  unfoldable pub begin_position_update : Symbol → RuntimeState D → RuntimeState D
  begin_position_update symbol s = record s {
    position_update_symbols = insert symbol (updates_of symbol s + 1) s.position_update_symbols;
  }

  unfoldable pub end_position_update : Symbol → RuntimeState D → RuntimeState D
  end_position_update symbol s =
      let count = updates_of symbol s in
      if ltb 1 count
      then record s {
        position_update_symbols = insert symbol (count - 1) s.position_update_symbols;
      }
      else record s { position_update_symbols = remove symbol s.position_update_symbols }

  unfoldable pub has_position_update_for_symbol : Symbol → RuntimeState D → Bool
  has_position_update_for_symbol symbol s = ltb 0 (updates_of symbol s)

  unfoldable pub has_bot_order_settling_for_symbol : Symbol → RuntimeState D → Bool
  has_bot_order_settling_for_symbol symbol s =
      has_pending_order_for_symbol symbol s || has_position_update_for_symbol symbol s

  -- `max(until_so_far, now + seconds)`
  unfoldable pub pause_new_entries : ℕ → ℕ → RuntimeState D → RuntimeState D
  pause_new_entries now duration s =
      let until = now + duration in
      record s {
        new_entry_pause_until =
            if ltb s.new_entry_pause_until until then until else s.new_entry_pause_until;
      }

  unfoldable pub new_entries_paused : ℕ → RuntimeState D → Bool
  new_entries_paused now s = ltb now s.new_entry_pause_until

  unfoldable pub pause_remaining : ℕ → RuntimeState D → ℕ
  pause_remaining now s = s.new_entry_pause_until - now
