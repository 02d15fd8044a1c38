-- ===== src/Machine.antt =====
-- apps/bot/runtime/bot_state_machine.py: the execution state of the bot and its guarded moves. A
-- listener is known by a number; what it does is not the machine's, so only its calls are kept.
pub mod Paths
mod Tests
use Prim.Native.String.{String}
use quantbot.Prelude.{
  ℕ, Bool, true, false, not, ◌&&◌, if◌then◌else◌, Option, none, some, List, [], ◌∷◌, ◌++◌,
}
use quantbot.Core.Enums.{
  BotState, booting, standby, start_requested, syncing, ready, running, paused, risk_locked,
  reconciling, order_locked, emergency_stop, stopping, stopped,
}

abbrev pub same_state : BotState → BotState → Bool
same_state booting booting = true
same_state standby standby = true
same_state start_requested start_requested = true
same_state syncing syncing = true
same_state ready ready = true
same_state running running = true
same_state paused paused = true
same_state risk_locked risk_locked = true
same_state reconciling reconciling = true
same_state order_locked order_locked = true
same_state emergency_stop emergency_stop = true
same_state stopping stopping = true
same_state stopped stopped = true
same_state _ _ = false

-- `_ALLOWED`, as a test on a source and a target.
unfoldable pub allowed : BotState → BotState → Bool
allowed booting standby = true
allowed booting stopping = true
allowed standby start_requested = true
allowed standby stopping = true
allowed start_requested syncing = true
allowed start_requested standby = true
allowed start_requested stopping = true
allowed syncing ready = true
allowed syncing standby = true
allowed syncing reconciling = true
allowed syncing emergency_stop = true
allowed syncing stopping = true
allowed ready running = true
allowed ready standby = true
allowed ready stopping = true
allowed running paused = true
allowed running risk_locked = true
allowed running reconciling = true
allowed running order_locked = true
allowed running emergency_stop = true
allowed running stopping = true
allowed paused running = true
allowed paused risk_locked = true
allowed paused reconciling = true
allowed paused emergency_stop = true
allowed paused stopping = true
allowed risk_locked running = true
allowed risk_locked paused = true
allowed risk_locked emergency_stop = true
allowed risk_locked stopping = true
allowed reconciling running = true
allowed reconciling paused = true
allowed reconciling standby = true
allowed reconciling order_locked = true
allowed reconciling emergency_stop = true
allowed reconciling stopping = true
allowed order_locked reconciling = true
allowed order_locked running = true
allowed order_locked emergency_stop = true
allowed order_locked stopping = true
allowed emergency_stop stopping = true
allowed emergency_stop stopped = true
allowed stopping stopped = true
allowed _ _ = false

-- One call `listener(from_state, to_state, reason)`.
pub record Call : Type 0 where
  pub listener : ℕ
  pub from_state : BotState
  pub to_state : BotState
  pub reason : String

pub record Machine : Type 0 where
  pub state : BotState
  pub listeners : List ℕ
  pub calls : List Call

pub data InvalidTransition : Type 0 where
  invalid_transition : BotState → BotState → InvalidTransition

-- `BotStateMachine()`
unfoldable pub new : Machine
new = record { state = booting; listeners = []; calls = [] }

unfoldable pub add_listener : ℕ → Machine → Machine
add_listener l m = record m { listeners = m.listeners ++ (l ∷ []) }

unfoldable pub can_transition : BotState → Machine → Bool
unfolding allowed
can_transition to m = allowed m.state to

-- The loop over the listeners; what one raises is caught.
abbrev pub notify : BotState → BotState → String → List ℕ → List Call
notify from to reason [] = []
notify from to reason (l ∷ ls) =
    record { listener = l; from_state = from; to_state = to; reason = reason }
    ∷ notify from to reason ls

unfoldable pub force : BotState → String → Machine → Machine
force to reason m = record m { state = to; calls = m.calls ++ notify m.state to reason m.listeners }

unfoldable pub transition : BotState → String → Machine → Machine × Option InvalidTransition
unfolding can_transition force
transition to reason m =
    if same_state to m.state
    then (m, none)
    else if not (can_transition to m)
    then (m, some (invalid_transition m.state to))
    else (force to reason m, none)

unfoldable pub can_enter_new_position : Machine → Bool
can_enter_new_position m = same_state m.state running

abbrev is_management : BotState → Bool
is_management running = true
is_management paused = true
is_management risk_locked = true
is_management order_locked = true
is_management reconciling = true
is_management emergency_stop = true
is_management _ = false

unfoldable pub can_manage_positions : Machine → Bool
can_manage_positions m = is_management m.state

unfoldable pub is_terminal : Machine → Bool
is_terminal m = same_state m.state stopped

-- A sequence of requested moves, a refused one being dropped by its caller.
unfoldable pub run : List BotState → Machine → Machine
run [] m = m
run (to ∷ rest) m = run rest (transition to "" m).0
