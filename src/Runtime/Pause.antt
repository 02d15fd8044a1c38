-- ===== src/Runtime/Pause.antt =====
-- The pause of new entries, from all requests for one.
use quantbot.Prelude.{◌≡◌, ◌↔◌, ℕ, ◌+◌, ◌<◌, true, ◌||◌, ltb, List, [], ◌∷◌, any, arith}
use quantbot.Runtime.{RuntimeState, pause_new_entries, new_entries_paused, pause_remaining}

module _ {D : Type 0} where
  -- Requests, each with the reading at which it is made and its duration.
  unfoldable pub run_pauses : List (ℕ × ℕ) → RuntimeState D → RuntimeState D
  run_pauses [] s = s
  run_pauses ((now, duration) ∷ ps) s = run_pauses ps (pause_new_entries now duration s)

  pause_new_entries-paused :
      (t now duration : ℕ) (s : RuntimeState D)
      → new_entries_paused t (pause_new_entries now duration s)
        ≡ new_entries_paused t s || ltb t (now + duration)
  unfolding pause_new_entries new_entries_paused
  pause_new_entries-paused t now duration s = ground arith

  remaining : (t : ℕ) (s : RuntimeState D) → 0 < pause_remaining t s ↔ new_entries_paused t s ≡ true
  unfolding new_entries_paused pause_remaining
  remaining t s = (λ h. ground arith, λ h. ground arith)

  -- Entries are paused exactly when some request for a pause has not run out, the earlier pause of
  -- the state included, so that a shorter request never ends a longer pause; and then time remains.
  pub pause_is_longest :
      (t : ℕ) (ps : List (ℕ × ℕ)) (s : RuntimeState D)
      → (new_entries_paused t (run_pauses ps s)
          ≡ new_entries_paused t s || any (λ p. ltb t (p.0 + p.1)) ps)
        × (0 < pause_remaining t (run_pauses ps s) ↔ new_entries_paused t (run_pauses ps s) ≡ true)
  unfolding run_pauses
  pause_is_longest t [] s = (ground arith, remaining t s)
  pause_is_longest t ((now, duration) ∷ ps) s =
      let ih = pause_is_longest t ps (pause_new_entries now duration s) in
      (ground (arith, ih.0, pause_new_entries-paused t now duration s), ih.1)
