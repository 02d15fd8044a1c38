-- ===== src/Cooldown/Blocks.antt =====
-- How long a loss blocks, from the trades that close after it.
use quantbot.Prelude.{
  ◌≡◌, refl, inl, inr, ℕ, ◌+◌, ◌*◌, ◌≤◌, Bool, true, false, ◌==◌, Bool-cases, Option, none, some,
  List, [], ◌∷◌, ◌++◌, All, lookup, lookup-insert, lookup-insert_other, ==→≢, arith,
}
use quantbot.Core.Enums.{EntryMode, pre_breakout_scout, breakout_confirm, retest_confirm, same_mode}
use quantbot.Core.Models.{Symbol}
use quantbot.Cooldown.Windows.{run-cfg}
use quantbot.Cooldown.{
  CooldownSection, CooldownTracker, Trade, minute, or_empty, record_result, newest, symbol_blocked,
  in_symbol_cooldown, mode_blocked, in_entry_mode_cooldown, in_cooldown, run,
}

-- The newest loss is not before `t`.
abbrev Since : ℕ → List ℕ → Type 0
Since t [] = ⊥
Since t (u ∷ us) = t ≤ newest u us

abbrev SinceOn : ℕ → Option ℕ → Type 0
SinceOn t none = ⊥
SinceOn t (some u) = t ≤ u

Since-push : (t now : ℕ) (us : List ℕ) → t ≤ now → Since t (us ++ (now ∷ []))
Since-push t now [] h = h
Since-push t now (u ∷ []) h = h
Since-push t now (u ∷ v ∷ us) h = Since-push t now (v ∷ us) h

Since-record :
    (t now : ℕ) (symbol s : Symbol) (mode : EntryMode) (is_win : Bool) (k : CooldownTracker)
    → t ≤ now
    → Since t (or_empty (lookup symbol k.symbol_losses))
    → Since t (or_empty (lookup symbol (record_result now s mode is_win k).symbol_losses))
unfolding record_result
Since-record t now symbol s mode true k h l = l
Since-record t now symbol s mode false k h l = elim (Bool-cases (symbol == s)) [
  | inl same ↦
      let at : symbol ≡ s = ground arith in
      let old = or_empty (lookup s k.symbol_losses) in
      rw (at, lookup-insert s (old ++ (now ∷ [])) k.symbol_losses) (Since-push t now old h)
  | inr other ↦ rw (lookup-insert_other s symbol _ k.symbol_losses (==→≢ symbol s other)) l
]

SinceOn-record :
    (t now : ℕ) (s : Symbol) (mode m : EntryMode) (is_win : Bool) (k : CooldownTracker)
    → t ≤ now
    → SinceOn t (k.entry_mode_losses mode)
    → SinceOn t ((record_result now s m is_win k).entry_mode_losses mode)
unfolding record_result
SinceOn-record t now s mode m true k h l = l
SinceOn-record t now s mode m false k h l = elim (Bool-cases (same_mode mode m)) [
  | inl same ↦ rw same h
  | inr other ↦ rw other l
]

Since-run :
    (t : ℕ) (symbol : Symbol) (mode : EntryMode) (ts : List Trade) (k : CooldownTracker)
    → All (λ u. t ≤ u.closed_at) ts
    → Since t (or_empty (lookup symbol k.symbol_losses))
    → SinceOn t (k.entry_mode_losses mode)
    → Since t (or_empty (lookup symbol (run ts k).symbol_losses))
      × SinceOn t ((run ts k).entry_mode_losses mode)
unfolding run
Since-run t symbol mode [] k h l m = (l, m)
Since-run t symbol mode (u ∷ ts) k h l m =
    Since-run t symbol mode ts _ h.1
      (Since-record t u.closed_at symbol u.symbol u.entry_mode u.is_win k h.0 l)
      (SinceOn-record t u.closed_at u.symbol mode u.entry_mode u.is_win k h.0 m)

Since-blocked :
    (c : CooldownSection) (t now : ℕ) (us : List ℕ)
    → c.symbol_cooldown_after_loss_min ≤ c.symbol_cooldown_after_2_losses_min
    → now ≤ t + c.symbol_cooldown_after_loss_min * minute
    → Since t us
    → symbol_blocked c now us ≡ true
unfolding symbol_blocked
Since-blocked c t now [] o h l = absurd l
Since-blocked c t now (u ∷ us) o h l = ground arith

SinceOn-blocked :
    (c : CooldownSection) (t now : ℕ) (last : Option ℕ)
    → now ≤ t + c.entry_mode_cooldown_after_loss_min * minute
    → SinceOn t last
    → mode_blocked c now last ≡ true
SinceOn-blocked c t now none h l = absurd l
SinceOn-blocked c t now (some u) h l = ground arith

same_mode_refl : (m : EntryMode) → same_mode m m ≡ true
same_mode_refl pre_breakout_scout = refl
same_mode_refl breakout_confirm = refl
same_mode_refl retest_confirm = refl

lost-Since :
    (t : ℕ) (symbol : Symbol) (mode : EntryMode) (k : CooldownTracker)
    → let lost = record_result t symbol mode false k in
      Since t (or_empty (lookup symbol lost.symbol_losses))
      × SinceOn t (lost.entry_mode_losses mode)
unfolding record_result
lost-Since t symbol mode k =
    let old = or_empty (lookup symbol k.symbol_losses) in
    (
      rw (lookup-insert symbol (old ++ (t ∷ [])) k.symbol_losses)
          (Since-push t t old (omega arith)),
      rw (same_mode_refl mode) (omega arith),
    )

lost-cfg :
    (t : ℕ) (symbol : Symbol) (mode : EntryMode) (ts : List Trade) (k : CooldownTracker)
    → (run ts (record_result t symbol mode false k)).cfg ≡ k.cfg
unfolding record_result
lost-cfg t symbol mode ts k = run-cfg ts (record_result t symbol mode false k)

-- A loss blocks its symbol, in every entry mode, for the time configured for one loss, and its
-- entry mode, on every symbol, for that configured for the mode, whatever trades close in the
-- meantime; the time after two losses is taken to be no shorter than that after one.
pub loss_blocks :
    (t now : ℕ) (symbol : Symbol) (mode : EntryMode) (ts : List Trade) (k : CooldownTracker)
    → All (λ u. t ≤ u.closed_at) ts
    → k.cfg.symbol_cooldown_after_loss_min ≤ k.cfg.symbol_cooldown_after_2_losses_min
    → let after = run ts (record_result t symbol mode false k) in
      (now ≤ t + k.cfg.symbol_cooldown_after_loss_min * minute
        → (m : EntryMode) → in_cooldown now symbol m after ≡ true)
      × (now ≤ t + k.cfg.entry_mode_cooldown_after_loss_min * minute
          → (s : Symbol) → in_cooldown now s mode after ≡ true)
unfolding in_cooldown in_symbol_cooldown in_entry_mode_cooldown
loss_blocks t now symbol mode ts k h o =
    let lost = record_result t symbol mode false k in
    let kept = lost-cfg t symbol mode ts k in
    let first = lost-Since t symbol mode k in
    let since = Since-run t symbol mode ts lost h first.0 first.1 in
    (
      λ b m. rw (kept, Since-blocked k.cfg t now _ o b since.0) refl,
      λ b s. rw (kept, SinceOn-blocked k.cfg t now _ b since.1) (ground arith),
    )
