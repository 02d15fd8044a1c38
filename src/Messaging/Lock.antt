-- ===== src/Messaging/Lock.antt =====
-- packages/messaging/runtime_lock.py. Redis is a parameter over an unknown world; tokens and keys are
-- numbers. The two Lua scripts of the file run as one step, as Redis runs them.
use quantbot.Prelude.{
  ◌≡◌, ap, ◌∙◌, refl, ℕ, Bool, false, not, ◌==◌, if◌then◌else◌, Option, none, some, List, [], ◌∷◌,
  arith,
}

-- The commands that the lock uses: SET with NX and PX, and, in the scripts, GET, DEL and PEXPIRE.
pub record Redis (W : Type 0) : Type 0 where
  pub get : ℕ → W → Option ℕ
  pub set_nx_px : ℕ → ℕ → ℕ → W → Bool × W
  pub del : ℕ → W → ℕ × W
  pub pexpire : ℕ → ℕ → W → ℕ × W

-- What Redis documents of them: SET with NX does nothing to a key that is there.
pub record IsRedis (W : Type 0) (redis : Redis W) : Type 0 where
  pub set_taken :
      (key token ms t : ℕ) (w : W)
      → redis.get key w ≡ some t
      → redis.set_nx_px key token ms w ≡ (false, w)

pub record RuntimeLock : Type 0 where
  pub token : ℕ
  pub held : Bool

abbrev pub holds_token : ℕ → Option ℕ → Bool
holds_token token none = false
holds_token token (some t) = t == token

-- The calls of one instance.
pub data Call : Type 0 where
  acquires refreshes releases : Call

module _ {W : Type 0} (redis : Redis W) (key ttl_ms : ℕ) where
  unfoldable pub acquire : RuntimeLock → W → RuntimeLock × W
  acquire lock w =
      let (ok, w') = redis.set_nx_px key lock.token ttl_ms w in (record lock { held = ok }, w')

  -- `_REFRESH_LUA`
  abbrev pub refresh_script : ℕ → W → ℕ × W
  refresh_script token w =
      if holds_token token (redis.get key w) then redis.pexpire key ttl_ms w else (0, w)

  -- `_RELEASE_LUA`
  abbrev pub release_script : ℕ → W → ℕ × W
  release_script token w = if holds_token token (redis.get key w) then redis.del key w else (0, w)

  unfoldable pub refresh : RuntimeLock → W → RuntimeLock × W
  refresh lock w =
      let (n, w') = refresh_script lock.token w in
      if lock.held then (record lock { held = not (n == 0) }, w') else (lock, w)

  unfoldable pub release : RuntimeLock → W → RuntimeLock × W
  release lock w =
      let (n, w') = release_script lock.token w in
      if lock.held then (record lock { held = false }, w') else (lock, w)

  unfoldable pub call : Call → RuntimeLock → W → RuntimeLock × W
  unfolding acquire refresh release
  call acquires lock w = acquire lock w
  call refreshes lock w = refresh lock w
  call releases lock w = release lock w

  unfoldable pub run : List Call → RuntimeLock → W → RuntimeLock × W
  unfolding call
  run [] lock w = (lock, w)
  run (c ∷ cs) lock w = let (lock', w') = call c lock w in run cs lock' w'

  -- Another instance's call at a key that it does not own.
  call-other :
      (law : IsRedis W redis) (c : Call) (lock : RuntimeLock) (w : W) (mine : ℕ)
      → redis.get key w ≡ some mine
      → (mine == lock.token) ≡ false
      → ((call c lock w).1 ≡ w)
        × ((call c lock w).0.token ≡ lock.token)
        × ((call c lock w).0.held ≡ false)
  unfolding call acquire refresh release
  call-other law acquires lock w mine owned other =
      rw (law.set_taken key lock.token ttl_ms mine w owned) (refl, refl, refl)
  call-other law refreshes lock w mine owned other = ground (arith, owned, other)
  call-other law releases lock w mine owned other = ground (arith, owned, other)

  -- While the key holds one instance's token, whatever calls another instance makes with a different
  -- token leave the store as it is, and after any call that other instance does not count as holding
  -- the lock, also if it did before. The commands must behave as Redis documents them.
  pub owner_is_undisturbed :
      (law : IsRedis W redis) (c : Call) (cs : List Call) (lock : RuntimeLock) (w : W) (mine : ℕ)
      → redis.get key w ≡ some mine
      → (mine == lock.token) ≡ false
      → ((run (c ∷ cs) lock w).1 ≡ w) × ((run (c ∷ cs) lock w).0.held ≡ false)
  unfolding run
  owner_is_undisturbed law c [] lock w mine owned other =
      let once = call-other law c lock w mine owned other in (once.0, once.2)
  owner_is_undisturbed law c (c' ∷ cs) lock w mine owned other =
      let once = call-other law c lock w mine owned other in
      let (lock', w') = call c lock w in
      let ih =
        owner_is_undisturbed law c' cs lock' w' mine (ap (redis.get key) once.0 ∙ owned)
          (ap (λ t. mine == t) once.1 ∙ other) in
      (ih.0 ∙ once.0, ih.1)
