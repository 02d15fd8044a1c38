-- ===== src/Guards/ClockSync.antt =====
-- packages/guards/clock_sync.py: the drift of the local clock from the exchange's. The warning beyond
-- the soft limit is only logged.
use quantbot.Prelude.{ℕ, Bool, Option, some}
use quantbot.Number.{Number, num, ◌⊖◌, ◌<=◌, abs_of}

pub record ClockSyncGuard (D : Type 0) : Type 0 where
  pub block_above_ms : ℕ
  pub drift_ms : D
  pub last_sync_ms : Option ℕ

module _ {D : Type 0} ⦃d : Number D⦄ where
  unfoldable pub update : ℕ → ℕ → ClockSyncGuard D → ClockSyncGuard D
  update server_time local_time g = record g {
    drift_ms = num local_time ⊖ num server_time;
    last_sync_ms = some local_time;
  }

  unfoldable pub is_within_tolerance : ClockSyncGuard D → Bool
  is_within_tolerance g = abs_of g.drift_ms <= num g.block_above_ms
