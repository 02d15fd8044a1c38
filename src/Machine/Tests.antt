-- ===== src/Machine/Tests.antt =====
-- The machine on short runs, and its theorems there.
use quantbot.Prelude.{◌≡◌, refl, true, false, some, List, [], ◌∷◌}
use quantbot.Core.Enums.{
  BotState, booting, standby, start_requested, syncing, ready, running, reconciling, emergency_stop,
  stopping, stopped,
}
use quantbot.Machine.{
  Machine, invalid_transition, new, notify, transition, can_enter_new_position, is_terminal, run,
}
use quantbot.Machine.Paths.{
  Subsequence, running_needs_start, emergency_is_final, shutdown_reaches_stopped,
}

abbrev watched : BotState → Machine
watched s = record { state = s; listeners = 4 ∷ 9 ∷ []; calls = [] }

abbrev start_up : List BotState
start_up = standby ∷ start_requested ∷ syncing ∷ ready ∷ running ∷ []

started : (run start_up new).state ≡ running
unfolding run transition new
started = refl

two_calls :
    (transition ready "synced" (watched syncing)).0.calls
    ≡ notify syncing ready "synced" (4 ∷ 9 ∷ [])
unfolding transition
two_calls = refl

refused : (transition running "" (watched standby)).1 ≡ some (invalid_transition standby running)
unfolding transition
refused = refl

can_enter_running : can_enter_new_position (watched running) ≡ true
unfolding can_enter_new_position
can_enter_running = refl

can_enter_started : can_enter_new_position (run start_up (watched booting)) ≡ true
unfolding can_enter_new_position run transition
can_enter_started = refl

running_needs_start_example : Subsequence (start_requested ∷ syncing ∷ []) start_up
running_needs_start_example = running_needs_start start_up (watched booting) refl can_enter_started

emergency_is_final_example :
    can_enter_new_position (run (running ∷ standby ∷ stopping ∷ []) (watched emergency_stop))
    ≡ false
emergency_is_final_example =
    emergency_is_final (running ∷ standby ∷ stopping ∷ []) (watched emergency_stop) refl

shutdown_reaches_stopped_example :
    (is_terminal (run (stopping ∷ stopped ∷ []) (watched running)) ≡ true)
    × (is_terminal (watched running) ≡ true
        → is_terminal (run (running ∷ []) (watched running)) ≡ true)
shutdown_reaches_stopped_example = shutdown_reaches_stopped (watched running) (running ∷ [])

-- A synchronising machine gets to RUNNING without READY, by way of RECONCILING.
ready_is_skipped :
    can_enter_new_position (run (reconciling ∷ running ∷ []) (watched syncing)) ≡ true
unfolding can_enter_new_position run transition
ready_is_skipped = refl
