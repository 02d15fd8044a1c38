-- ===== src/Cooldown/Windows.antt =====
-- When the cooldowns are over, from the whole history of trades.
use quantbot.Prelude.{
  ◌≡◌, refl, inl, inr, ℕ, ◌-◌, ◌*◌, ◌<◌, Bool, true, false, ◌==◌, Bool-cases, Option, none, some,
  List, [], ◌∷◌, ◌++◌, count_if, All, All-append, lookup, lookup-insert, lookup-insert_other, ==→≢,
  arith,
}
use quantbot.Core.Enums.{EntryMode, same_mode}
use quantbot.Core.Models.{Symbol}
use quantbot.Cooldown.{
  CooldownSection, CooldownTracker, Trade, minute, new, or_empty, record_result, within, newest,
  symbol_blocked, in_symbol_cooldown, in_global_cooldown, mode_blocked, in_entry_mode_cooldown,
  in_cooldown, run,
}

-- Every recorded loss satisfies `P`.
record Losses (P : ℕ → Type 0) (k : CooldownTracker) : Type 0 where
  on_symbol : (s : Symbol) → All P (or_empty (lookup s k.symbol_losses))
  anywhere : All P k.global_losses
  by_mode : (m : EntryMode) (t : ℕ) → k.entry_mode_losses m ≡ some t → P t

Losses-record :
    (P : ℕ → Type 0) (now : ℕ) (symbol : Symbol) (mode : EntryMode) (is_win : Bool)
    (k : CooldownTracker)
    → (is_win ≡ false → P now)
    → Losses P k
    → Losses P (record_result now symbol mode is_win k)
unfolding record_result
Losses-record P now symbol mode true k p l = l
Losses-record P now symbol mode false k p l = record {
  on_symbol = λ s. elim (Bool-cases (s == symbol)) [
    | inl same ↦
        let at : s ≡ symbol = ground arith in
        rw
          (
            at,
            lookup-insert symbol (or_empty (lookup symbol k.symbol_losses) ++ (now ∷ []))
                k.symbol_losses,
          )
          (All-append P (or_empty (lookup symbol k.symbol_losses)) (now ∷ []) (l.on_symbol symbol)
            (p refl, tt))
    | inr other ↦
        rw (lookup-insert_other symbol s _ k.symbol_losses (==→≢ s symbol other)) (l.on_symbol s)
  ];
  anywhere = All-append P k.global_losses (now ∷ []) l.anywhere (p refl, tt);
  by_mode = λ m t h. elim (Bool-cases (same_mode m mode)) [
    | inl same ↦ let e : now ≡ t = ground arith in rw (← e) (p refl)
    | inr other ↦ l.by_mode m t (ground arith)
  ];
}

Losses-run :
    (P : ℕ → Type 0) (ts : List Trade) (k : CooldownTracker)
    → All (λ t. t.is_win ≡ false → P t.closed_at) ts
    → Losses P k
    → Losses P (run ts k)
unfolding run
Losses-run P [] k h l = l
Losses-run P (t ∷ ts) k h l =
    Losses-run P ts _ h.1 (Losses-record P t.closed_at t.symbol t.entry_mode t.is_win k h.0 l)

-- The loss is older than every configured time.
abbrev pub IsOver : CooldownSection → ℕ → ℕ → Type 0
IsOver c now t =
    (c.symbol_cooldown_after_loss_min * minute < now - t)
    × (c.symbol_cooldown_after_2_losses_min * minute < now - t)
    × (c.global_cooldown_after_3_losses_min * minute < now - t)
    × (c.entry_mode_cooldown_after_loss_min * minute < now - t)

pub run-cfg : (ts : List Trade) (k : CooldownTracker) → (run ts k).cfg ≡ k.cfg
unfolding run record_result
run-cfg [] k = refl
run-cfg (t ∷ ts) k = elim (Bool-cases t.is_win) [
  | inl won ↦
      ground (arith, run-cfg ts (record_result t.closed_at t.symbol t.entry_mode t.is_win k))
  | inr lost ↦
      ground (arith, run-cfg ts (record_result t.closed_at t.symbol t.entry_mode t.is_win k))
]

count-over :
    (minutes now : ℕ) (ts : List ℕ)
    → All (λ t. minutes * minute < now - t) ts
    → count_if (within now minutes) ts ≡ 0
count-over minutes now [] h = refl
count-over minutes now (t ∷ ts) h = ground (arith, h.0, count-over minutes now ts h.1)

newest-All : (P : ℕ → Type 0) (t : ℕ) (ts : List ℕ) → All P (t ∷ ts) → P (newest t ts)
newest-All P t [] h = h.0
newest-All P t (u ∷ ts) h = newest-All P u ts h.1

All-map : (P Q : ℕ → Type 0) (ts : List ℕ) → ((t : ℕ) → P t → Q t) → All P ts → All Q ts
All-map P Q [] f h = tt
All-map P Q (t ∷ ts) f h = (f t h.0, All-map P Q ts f h.1)

symbol-over :
    (c : CooldownSection) (now : ℕ) (ts : List ℕ)
    → All (IsOver c now) ts
    → symbol_blocked c now ts ≡ false
unfolding symbol_blocked
symbol-over c now [] h = refl
symbol-over c now (t ∷ ts) h =
    let none_recent =
      count-over c.symbol_cooldown_after_2_losses_min now (t ∷ ts)
        (All-map (IsOver c now) _ (t ∷ ts) (λ u o. o.1) h) in
    let last = newest-All (IsOver c now) t ts h in rw none_recent (ground (arith, last.0))

over :
    (now : ℕ) (symbol : Symbol) (mode : EntryMode) (k : CooldownTracker)
    → Losses (IsOver k.cfg now) k
    → in_cooldown now symbol mode k ≡ false
unfolding in_cooldown in_symbol_cooldown in_global_cooldown in_entry_mode_cooldown
over now symbol mode k l =
    let here =
      symbol-over k.cfg now (or_empty (lookup symbol k.symbol_losses)) (l.on_symbol symbol) in
    let few =
      count-over k.cfg.global_cooldown_after_3_losses_min now k.global_losses
        (All-map (IsOver k.cfg now) _ k.global_losses (λ u o. o.2) l.anywhere) in
    rw (here, few) (mode-over (k.entry_mode_losses mode) (l.by_mode mode))
  where
    mode-over :
        (last : Option ℕ)
        → ((t : ℕ) → last ≡ some t → IsOver k.cfg now t)
        → mode_blocked k.cfg now last ≡ false
    mode-over none h = refl
    mode-over (some t) h = ground (arith, h t refl)

-- When every loss of the history is older than each configured time, nothing is in cooldown: no
-- symbol, no entry mode, and not the whole bot.
pub cooldown_expires :
    (c : CooldownSection) (now : ℕ) (ts : List Trade) (symbol : Symbol) (mode : EntryMode)
    → All (λ t. t.is_win ≡ false → IsOver c now t.closed_at) ts
    → in_cooldown now symbol mode (run ts (new c)) ≡ false
unfolding new
cooldown_expires c now ts symbol mode h =
    let kept : (run ts (new c)).cfg ≡ c = run-cfg ts (new c) in
    let none_yet : Losses (IsOver c now) (new c) = record {
      on_symbol = λ s. tt;
      anywhere = tt;
      by_mode = λ m t e. cc;
    } in
    over now symbol mode (run ts (new c))
      (simp kept (Losses-run (IsOver c now) ts (new c) h none_yet))
