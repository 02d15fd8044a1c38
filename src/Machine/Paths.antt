-- ===== src/Machine/Paths.antt =====
-- Sequences of requested moves.
use quantbot.Prelude.{◌≡◌, ◌⊎◌, inl, inr, Bool, true, false, List, [], ◌∷◌, ap, arith}
use quantbot.Core.Enums.{
  BotState, booting, standby, start_requested, syncing, emergency_stop, stopping, stopped,
}
use quantbot.Machine.{Machine, same_state, transition, can_enter_new_position, is_terminal, run}

-- The first list can be got from the second by leaving entries out.
pub data Subsequence : List BotState → List BotState → Type 0 where
  done : Subsequence [] []
  skip : {xs ys : List BotState} (y : BotState) → Subsequence xs ys → Subsequence xs (y ∷ ys)
  take : {xs ys : List BotState} (y : BotState) → Subsequence xs ys → Subsequence (y ∷ xs) (y ∷ ys)

Subsequence-nil : (ys : List BotState) → Subsequence [] ys
Subsequence-nil [] = done
Subsequence-nil (y ∷ ys) = skip y (Subsequence-nil ys)

Subsequence-tail :
    (x : BotState) (xs ys : List BotState) → Subsequence (x ∷ xs) ys → Subsequence xs ys
Subsequence-tail x xs ys (skip {ys = zs} y h) = skip y (Subsequence-tail x xs zs h)
Subsequence-tail x xs ys (take y h) = skip y h

-- The states that are behind a START command and its synchronisation, and not yet shut down.
abbrev pub is_engaged : BotState → Bool
is_engaged booting = false
is_engaged standby = false
is_engaged start_requested = false
is_engaged stopping = false
is_engaged stopped = false
is_engaged _ = true

-- What must still be requested before the machine is engaged.
abbrev still_needed : BotState → List BotState
still_needed start_requested = syncing ∷ []
still_needed booting = start_requested ∷ syncing ∷ []
still_needed standby = start_requested ∷ syncing ∷ []
still_needed stopping = start_requested ∷ syncing ∷ []
still_needed stopped = start_requested ∷ syncing ∷ []
still_needed _ = []

still_needed-transition :
    (to : BotState) (m : Machine)
    → let next = (transition to "" m).0.state in
      (still_needed m.state ≡ [])
      ⊎ (still_needed m.state ≡ still_needed next)
      ⊎ (still_needed m.state ≡ to ∷ still_needed next)
      ⊎ (start_requested ∷ still_needed m.state ≡ still_needed next)
unfolding transition
still_needed-transition to m = ground arith

engaged_needs :
    (reqs : List BotState) (m : Machine)
    → is_engaged (run reqs m).state ≡ true
    → Subsequence (still_needed m.state) reqs
unfolding run
engaged_needs [] m h = go m.state h
  where
    go : (s : BotState) → is_engaged s ≡ true → Subsequence (still_needed s) []
    go booting e = cc
    go standby e = cc
    go start_requested e = cc
    go stopping e = cc
    go stopped e = cc
    go _ e = done
engaged_needs (to ∷ reqs) m h =
    let next = (transition to "" m).0 in
    let ih = engaged_needs reqs next h in
    elim (still_needed-transition to m) [
      | inl e ↦ rw e (Subsequence-nil (to ∷ reqs))
      | inr (inl e) ↦ rw e (skip to ih)
      | inr (inr (inl e)) ↦ rw e (take to ih)
      | inr (inr (inr e)) ↦
          skip to (Subsequence-tail start_requested (still_needed m.state) reqs (rw (← e) at ih))
    ]

-- From a freshly booted machine no sequence of requests, refused ones included, opens new entries
-- unless START_REQUESTED and, after it, SYNCING were requested.
pub running_needs_start :
    (reqs : List BotState) (m : Machine)
    → m.state ≡ booting
    → can_enter_new_position (run reqs m) ≡ true
    → Subsequence (start_requested ∷ syncing ∷ []) reqs
unfolding can_enter_new_position
running_needs_start reqs m b h = rw (ap still_needed b) at (engaged_needs reqs m (ground arith))

is_closing : BotState → Bool
is_closing emergency_stop = true
is_closing stopping = true
is_closing stopped = true
is_closing _ = false

is_closing-run :
    (reqs : List BotState) (m : Machine)
    → is_closing m.state ≡ true
    → is_closing (run reqs m).state ≡ true
unfolding run is_closing
is_closing-run [] m h = h
is_closing-run (to ∷ reqs) m h =
    is_closing-run reqs (transition to "" m).0 (unfold transition in ground arith)

-- After an emergency stop no sequence of requests opens new entries again.
pub emergency_is_final :
    (reqs : List BotState) (m : Machine)
    → m.state ≡ emergency_stop
    → can_enter_new_position (run reqs m) ≡ false
unfolding can_enter_new_position is_closing
emergency_is_final reqs m e = ground (arith, is_closing-run reqs m)

-- From every state the requests STOPPING and STOPPED end in the terminal state, and from there no
-- sequence of requests leads away.
pub shutdown_reaches_stopped :
    (m : Machine) (reqs : List BotState)
    → (is_terminal (run (stopping ∷ stopped ∷ []) m) ≡ true)
      × (is_terminal m ≡ true → is_terminal (run reqs m) ≡ true)
unfolding is_terminal run transition
shutdown_reaches_stopped m reqs = (ground arith, stays reqs m)
  where
    stays :
        (reqs : List BotState) (m : Machine)
        → same_state m.state stopped ≡ true
        → same_state (run reqs m).state stopped ≡ true
    stays [] m h = h
    stays (to ∷ reqs) m h = stays reqs (transition to "" m).0 (ground arith)
