-- ===== src/Universe/Manager/Exact.antt =====
-- Which symbols are tradable after a refresh.
use quantbot.Prelude.{
  ◌≡◌, refl, ℕ, Bool, ◌&&◌, ◌||◌, ◌==◌, is_some, Option, none, some, List, [], ◌∷◌, any, Dict,
  lookup, insert, Bool-cases, inl, inr, lookup-insert, lookup-insert_other, arith,
}
use quantbot.Number.{Number}
use quantbot.Core.Models.{Symbol}
use quantbot.Universe.Manager.{
  UniverseSection, Instrument, is_eligible, keep_eligible, find_symbol, put_match, add_included,
  refresh, is_tradable,
}

has-insert :
    (s k : Symbol) (m : Instrument) (kept : Dict Instrument)
    → is_some (lookup s (insert k m kept)) ≡ (k == s) || is_some (lookup s kept)
has-insert s k m kept = ground (arith, lookup-insert k m kept, lookup-insert_other k s m kept)

has-keep_eligible :
    (test : Instrument → Bool) (s : Symbol) (kept : Dict Instrument) (ms : List Instrument)
    → is_some (lookup s (keep_eligible test kept ms))
      ≡ is_some (lookup s kept) || any (λ m. (m.symbol == s) && test m) ms
has-keep_eligible test s kept [] = ground arith
has-keep_eligible test s kept (m ∷ ms) = ground (
  arith,
  has-insert s m.symbol m kept,
  has-keep_eligible test s kept ms,
  has-keep_eligible test s (insert m.symbol m kept) ms,
)

find_symbol-any :
    (s : Symbol) (ms : List Instrument) → is_some (find_symbol s ms) ≡ any (λ m. m.symbol == s) ms
find_symbol-any s [] = refl
find_symbol-any s (m ∷ ms) = ground (arith, find_symbol-any s ms)

has-put_match :
    (s sym : Symbol) (found : Option Instrument) (kept : Dict Instrument)
    → is_some (lookup s (put_match sym found kept))
      ≡ is_some (lookup s kept) || ((sym == s) && is_some found)
has-put_match s sym none kept = ground arith
has-put_match s sym (some m) kept = ground (arith, has-insert s sym m kept)

has-add_included :
    (ms : List Instrument) (s : Symbol) (syms : List Symbol) (kept : Dict Instrument)
    → is_some (lookup s (add_included ms syms kept))
      ≡ is_some (lookup s kept) || (any (λ i. i == s) syms && is_some (find_symbol s ms))
has-add_included ms s [] kept = ground arith
has-add_included ms s (sym ∷ syms) kept = elim (Bool-cases (sym == s)) [
  | inl same ↦
      let at : sym ≡ s = ground arith in
      ground (
        arith,
        at,
        has-put_match s s (find_symbol s ms) kept,
        has-add_included ms s syms kept,
        has-add_included ms s syms (put_match s (find_symbol s ms) kept),
      )
  | inr other ↦ ground (
    arith,
    has-put_match s sym (find_symbol sym ms) kept,
    has-add_included ms s syms kept,
    has-add_included ms s syms (put_match sym (find_symbol sym ms) kept),
  )
]

module _ {D : Type 0} ⦃d : Number D⦄ where
  -- After a refresh a symbol is tradable exactly when some loaded instrument of it passes the filters,
  -- or it is on the list of inclusions and some loaded instrument has it.
  pub refresh_is_exact :
      (c : UniverseSection D) (now : ℕ) (ms : List Instrument) (s : Symbol)
      → is_tradable s (refresh c now ms)
        ≡ any (λ m. (m.symbol == s) && is_eligible c now m) ms
          || (any (λ i. i == s) c.include_symbols && any (λ m. m.symbol == s) ms)
  unfolding is_tradable refresh
  refresh_is_exact c now ms s =
      let kept = keep_eligible (is_eligible c now) [] ms in
      rw
        (
          has-add_included ms s c.include_symbols kept,
          has-keep_eligible (is_eligible c now) s [] ms,
          find_symbol-any s ms,
        )
        refl
