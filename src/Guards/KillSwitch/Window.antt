-- ===== src/Guards/KillSwitch/Window.antt =====
-- The pruned queues of the kill switch against the whole history of its calls.
use quantbot.Prelude.{
  ◌≡◌, refl, ℕ, ◌+◌, ◌-◌, ◌≤◌, Bool, true, leb, Option-cases, inl, inr, List, [], ◌∷◌, ◌++◌,
  count_if, length, arith,
}
use quantbot.Number.{Number}
use quantbot.Guards.KillSwitch.{
  GlobalKillSwitchSection, GlobalKillSwitch, Op, order_failure, ws_disconnect, mismatch,
  close_failure, breach, trade_result, pnl, evaluation, snapshot, five_min, ten_min, pop_old, new,
  record_order_failure, record_ws_disconnect, record_position_mismatch,
  record_emergency_close_failure, record_slippage_breach, record_trade_result, update_pnl, prune,
  first_tripped, checks, evaluate, apply, run,
}

abbrev pub recent : ℕ → ℕ → ℕ → Bool
recent now window t = leb (now - t) window

-- Readings that never go back, between a first and a last.
abbrev pub Rising : ℕ → ℕ → List ℕ → Type 0
Rising lo hi [] = lo ≤ hi
Rising lo hi (t ∷ ts) = (lo ≤ t) × Rising t hi ts

Rising-from : (lo lo' hi : ℕ) (ts : List ℕ) → lo' ≤ lo → Rising lo hi ts → Rising lo' hi ts
Rising-from lo lo' hi [] h r = omega arith
Rising-from lo lo' hi (t ∷ ts) h r = (omega (arith, r.0), r.1)

Rising-until : (lo hi hi' : ℕ) (ts : List ℕ) → hi ≤ hi' → Rising lo hi ts → Rising lo hi' ts
Rising-until lo hi hi' [] h r = omega arith
Rising-until lo hi hi' (t ∷ ts) h r = (r.0, Rising-until t hi hi' ts h r.1)

Rising-push : (lo hi t : ℕ) (ts : List ℕ) → hi ≤ t → Rising lo hi ts → Rising lo t (ts ++ (t ∷ []))
Rising-push lo hi t [] h r = (omega arith, omega arith)
Rising-push lo hi t (u ∷ ts) h r = (r.0, Rising-push u hi t ts h r.1)

Rising-pop_old :
    (now window lo hi : ℕ) (ts : List ℕ) → Rising lo hi ts → Rising lo hi (pop_old now window ts)
Rising-pop_old now window lo hi [] r = r
Rising-pop_old now window lo hi (t ∷ ts) r =
    ground (
      arith,
      Rising-from t lo hi (pop_old now window ts) r.0 (Rising-pop_old now window t hi ts r.1),
    )

count-recent :
    (now window lo hi : ℕ) (ts : List ℕ)
    → recent now window lo ≡ true
    → Rising lo hi ts
    → count_if (recent now window) ts ≡ length ts
count-recent now window lo hi [] e r = refl
count-recent now window lo hi (t ∷ ts) e r =
    let h : recent now window t ≡ true = ground (arith, r.0) in
    ground (arith, h, count-recent now window t hi ts h r.1)

-- What is left after pruning is as long as the recent entries are many.
pub length-pop_old :
    (now window lo hi : ℕ) (ts : List ℕ)
    → Rising lo hi ts
    → length (pop_old now window ts) ≡ count_if (recent now window) ts
length-pop_old now window lo hi [] r = refl
length-pop_old now window lo hi (t ∷ ts) r = ground (
  arith,
  length-pop_old now window t hi ts r.1,
  λ (e : recent now window t ≡ true). count-recent now window t hi ts e r.1,
)

-- Pruning loses nothing that a later reading counts.
count-pop_old :
    (now later window : ℕ) (ts : List ℕ)
    → now ≤ later
    → count_if (recent later window) (pop_old now window ts) ≡ count_if (recent later window) ts
count-pop_old now later window [] h = refl
count-pop_old now later window (t ∷ ts) h = ground (arith, count-pop_old now later window ts h)

count-push :
    (p : ℕ → Bool) (t : ℕ) (ts : List ℕ)
    → count_if p (ts ++ (t ∷ [])) ≡ count_if p ts + count_if p (t ∷ [])
count-push p t [] = omega arith
count-push p t (u ∷ ts) = ground (arith, count-push p t ts)

-- Calls between a first and a last reading of a clock that never goes back.
abbrev pub Ascending : {D : Type 0} → ℕ → ℕ → List (ℕ × Op D) → Type 0
Ascending lo hi [] = lo ≤ hi
Ascending lo hi ((t, op) ∷ ops) = (lo ≤ t) × Ascending t hi ops

Ascending-le : {D : Type 0} (lo hi : ℕ) (ops : List (ℕ × Op D)) → Ascending lo hi ops → lo ≤ hi
Ascending-le lo hi [] a = a
Ascending-le lo hi ((t, op) ∷ ops) a = omega (arith, a.0, Ascending-le t hi ops a.1)

-- The readings at which order failures, and disconnections, were recorded.
abbrev pub failure_times : {D : Type 0} → List (ℕ × Op D) → List ℕ
failure_times [] = []
failure_times ((t, order_failure) ∷ ops) = t ∷ failure_times ops
failure_times ((t, _) ∷ ops) = failure_times ops

abbrev pub disconnect_times : {D : Type 0} → List (ℕ × Op D) → List ℕ
disconnect_times [] = []
disconnect_times ((t, ws_disconnect) ∷ ops) = t ∷ disconnect_times ops
disconnect_times ((t, _) ∷ ops) = disconnect_times ops

count-failure_times :
    {D : Type 0} (p : ℕ → Bool) (t : ℕ) (op : Op D) (ops : List (ℕ × Op D))
    → count_if p (failure_times ((t, op) ∷ ops))
      ≡ count_if p (failure_times ((t, op) ∷ [])) + count_if p (failure_times ops)
count-failure_times p t order_failure ops = ground arith
count-failure_times p t _ ops = omega arith

count-disconnect_times :
    {D : Type 0} (p : ℕ → Bool) (t : ℕ) (op : Op D) (ops : List (ℕ × Op D))
    → count_if p (disconnect_times ((t, op) ∷ ops))
      ≡ count_if p (disconnect_times ((t, op) ∷ [])) + count_if p (disconnect_times ops)
count-disconnect_times p t ws_disconnect ops = ground arith
count-disconnect_times p t _ ops = omega arith

-- `old` became `next` at the reading `t`: it is still rising, and every later reading counts the same
-- entries of it, and those of `added`.
Kept : ℕ → ℕ → ℕ → List ℕ → List ℕ → List ℕ → Type 0
Kept window lo t added old next =
    Rising 0 lo old
    → lo ≤ t
    → Rising 0 t next
      × ((now : ℕ)
          → t ≤ now
          → count_if (recent now window) next
            ≡ count_if (recent now window) old + count_if (recent now window) added)

Kept-same : (window lo t : ℕ) (ts : List ℕ) → Kept window lo t [] ts ts
unfolding Kept
Kept-same window lo t ts r h = (Rising-until 0 lo t ts h r, λ now k. omega arith)

Kept-push : (window lo t : ℕ) (ts : List ℕ) → Kept window lo t (t ∷ []) ts (ts ++ (t ∷ []))
unfolding Kept
Kept-push window lo t ts r h =
    (Rising-push 0 lo t ts h r, λ now k. count-push (recent now window) t ts)

Kept-pop : (window lo t : ℕ) (ts : List ℕ) → Kept window lo t [] ts (pop_old t window ts)
unfolding Kept
Kept-pop window lo t ts r h = (
  Rising-pop_old t window 0 t ts (Rising-until 0 lo t ts h r),
  λ now k. omega (arith, count-pop_old t now window ts k),
)

module _ {D : Type 0} ⦃d : Number D⦄ where
  Kept-evaluate :
      (lo t : ℕ) (s : GlobalKillSwitch D)
      → Kept five_min lo t [] s.order_failures (evaluate t s).1.order_failures
        × Kept ten_min lo t [] s.ws_disconnects (evaluate t s).1.ws_disconnects
  unfolding evaluate prune
  Kept-evaluate lo t s = elim (Option-cases s.tripped_reason) [
    | inr (r, e) ↦
        rw e (Kept-same five_min lo t s.order_failures, Kept-same ten_min lo t s.ws_disconnects)
    | inl e ↦ elim (Option-cases (first_tripped (checks (prune t s)))) [
      | inl n ↦ rw (e, n) pruned
      | inr (r, n) ↦ rw (e, n) pruned
    ]
  ]
    where
      pruned :
          Kept five_min lo t [] s.order_failures (pop_old t five_min s.order_failures)
          × Kept ten_min lo t [] s.ws_disconnects (pop_old t ten_min s.ws_disconnects)
      pruned = (Kept-pop five_min lo t s.order_failures, Kept-pop ten_min lo t s.ws_disconnects)

  Kept-apply :
      (lo t : ℕ) (op : Op D) (s : GlobalKillSwitch D)
      → Kept five_min lo t
          (failure_times ((t, op) ∷ []))
          s.order_failures
          (apply t op s).order_failures
        × Kept ten_min lo t
            (disconnect_times ((t, op) ∷ []))
            s.ws_disconnects
            (apply t op s).ws_disconnects
  unfolding apply record_order_failure record_ws_disconnect record_position_mismatch
      record_emergency_close_failure record_slippage_breach record_trade_result update_pnl prune
  Kept-apply lo t order_failure s =
      (Kept-push five_min lo t s.order_failures, Kept-same ten_min lo t s.ws_disconnects)
  Kept-apply lo t ws_disconnect s =
      (Kept-same five_min lo t s.order_failures, Kept-push ten_min lo t s.ws_disconnects)
  Kept-apply lo t evaluation s = Kept-evaluate lo t s
  Kept-apply lo t snapshot s =
      (Kept-pop five_min lo t s.order_failures, Kept-pop ten_min lo t s.ws_disconnects)
  Kept-apply lo t mismatch s =
      (Kept-same five_min lo t s.order_failures, Kept-same ten_min lo t s.ws_disconnects)
  Kept-apply lo t close_failure s =
      (Kept-same five_min lo t s.order_failures, Kept-same ten_min lo t s.ws_disconnects)
  Kept-apply lo t breach s =
      (Kept-same five_min lo t s.order_failures, Kept-same ten_min lo t s.ws_disconnects)
  Kept-apply lo t (trade_result w) s =
      (Kept-same five_min lo t s.order_failures, Kept-same ten_min lo t s.ws_disconnects)
  Kept-apply lo t (pnl x y) s =
      (Kept-same five_min lo t s.order_failures, Kept-same ten_min lo t s.ws_disconnects)

  run-kept :
      (lo hi : ℕ) (ops : List (ℕ × Op D)) (s : GlobalKillSwitch D)
      → Ascending lo hi ops
      → Rising 0 lo s.order_failures
      → Rising 0 lo s.ws_disconnects
      → (Rising 0 hi (run ops s).order_failures
          × (count_if (recent hi five_min) (run ops s).order_failures
              ≡ count_if (recent hi five_min) s.order_failures
                + count_if (recent hi five_min) (failure_times ops)))
        × (Rising 0 hi (run ops s).ws_disconnects
            × (count_if (recent hi ten_min) (run ops s).ws_disconnects
                ≡ count_if (recent hi ten_min) s.ws_disconnects
                  + count_if (recent hi ten_min) (disconnect_times ops)))
  unfolding run Kept
  run-kept lo hi [] s a f w = (
    (Rising-until 0 lo hi s.order_failures a f, omega arith),
    (Rising-until 0 lo hi s.ws_disconnects a w, omega arith),
  )
  run-kept lo hi ((t, op) ∷ ops) s a f w =
      let step = Kept-apply lo t op s in
      let fs = step.0 f a.0 in
      let ws = step.1 w a.0 in
      let later = Ascending-le t hi ops a.1 in
      let ih = run-kept t hi ops (apply t op s) a.1 fs.0 ws.0 in
      let fc = fs.1 hi later in
      let wc = ws.1 hi later in
      (
        (ih.0.0, omega (arith, ih.0.1, fc, count-failure_times (recent hi five_min) t op ops)),
        (ih.1.0, omega (arith, ih.1.1, wc, count-disconnect_times (recent hi ten_min) t op ops)),
      )

  -- Over any calls on a clock that never goes back, pruned switches count right: what is left of
  -- the queues after the pruning of an evaluation is as long as the failures of the last five
  -- minutes, and the disconnections of the last ten, are many in the whole history.
  pub windows_count_history :
      (cfg : GlobalKillSwitchSection D) (now : ℕ) (ops : List (ℕ × Op D))
      → Ascending 0 now ops
      → let s = prune now (run ops (new cfg)) in
        (length s.order_failures ≡ count_if (recent now five_min) (failure_times ops))
        × (length s.ws_disconnects ≡ count_if (recent now ten_min) (disconnect_times ops))
  unfolding prune new
  windows_count_history cfg now ops a =
      let s = run ops (new cfg) in
      let kept = run-kept 0 now ops (new cfg) a (omega arith) (omega arith) in
      (
        omega (arith, length-pop_old now five_min 0 now s.order_failures kept.0.0, kept.0.1),
        omega (arith, length-pop_old now ten_min 0 now s.ws_disconnects kept.1.0, kept.1.1),
      )
