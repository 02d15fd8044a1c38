-- ===== src/Messaging/Tests.antt =====
-- packages/messaging/runtime_lock.py at concrete inputs: a store of one key.
use quantbot.Prelude.{◌≡◌, refl, ℕ, Bool, true, false, Option, none, some, [], ◌∷◌}
use quantbot.Messaging.Lock.{
  Redis, IsRedis, RuntimeLock, acquires, refreshes, releases, run, owner_is_undisturbed,
}

abbrev set_one_key : ℕ → Option ℕ → Bool × Option ℕ
set_one_key token none = (true, some token)
set_one_key token (some t) = (false, some t)

abbrev count_key : Option ℕ → ℕ
count_key none = 0
count_key (some t) = 1

-- The store is the value of the one key.
abbrev one_key : Redis (Option ℕ)
one_key = record {
  get = λ key w. w;
  set_nx_px = λ key token ms w. set_one_key token w;
  del = λ key w. (count_key w, none);
  pexpire = λ key ms w. (count_key w, w);
}

set_taken_lem : (token t : ℕ) (w : Option ℕ) → w ≡ some t → set_one_key token w ≡ (false, w)
set_taken_lem token t w taken = rw taken refl

one_key-IsRedis : IsRedis (Option ℕ) one_key
one_key-IsRedis = record { set_taken = λ key token ms t w taken. set_taken_lem token t w taken }

abbrev stale : RuntimeLock
stale = record { token = 8; held = true }

-- A free key is taken, refreshed and released.
round_trip :
    run one_key 1 30000 (acquires ∷ refreshes ∷ []) (record { token = 7; held = false }) none
    ≡ (record { token = 7; held = true }, some 7)
unfolding run
round_trip = refl

owner_is_undisturbed_example :
    ((run one_key 1 30000 (refreshes ∷ releases ∷ []) stale (some 7)).1 ≡ some 7)
    × ((run one_key 1 30000 (refreshes ∷ releases ∷ []) stale (some 7)).0.held ≡ false)
owner_is_undisturbed_example =
    owner_is_undisturbed one_key 1 30000 one_key-IsRedis refreshes (releases ∷ []) stale (some 7) 7
      refl refl
