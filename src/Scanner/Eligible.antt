-- ===== src/Scanner/Eligible.antt =====
-- What a scan returns.
use quantbot.Prelude.{
  ◌≡◌, refl, inl, inr, ℕ, zero, suc, ◌≤◌, Bool, true, ◌&&◌, ◌==◌, Bool-cases, Option, none, some,
  List, [], ◌∷◌, any, keep_if, length, All, arith,
}
use quantbot.Core.Models.{Symbol}
use quantbot.Number.{Number}
use quantbot.Scanner.Score.{MarketTicker}
use quantbot.Scanner.Scan.{
  Inputs, Scored, atr_in_range, passes, eligible, least_turnover, most_turnover, score_with,
  score_all, ranks_above, insert_ranked, rank, first_symbols, scan_eligible, scan,
}

module _ {D : Type 0} ⦃d : Number D⦄ (i : Inputs D) where
  abbrev pub qualifies : MarketTicker D → Bool
  qualifies t = i.is_tradable t.symbol && passes i t

  -- Some ticker of the symbol is tradable and passes the filters.
  abbrev pub IsCandidate : List (MarketTicker D) → Symbol → Type 0
  IsCandidate tickers s = any (λ t. (t.symbol == s) && qualifies t) tickers ≡ true

  -- The ATR of a ticker that passes is known.
  passes-atr :
      (t : MarketTicker D)
      → passes i t ≡ true
      → atr_in_range i.cfg (i.atr_percent_by_symbol t.symbol) ≡ true
  unfolding passes
  passes-atr t h = ground arith

  module _ (P : Symbol → Type 0) where
    abbrev Sound : List (Scored D) → Type 0
    Sound = All (λ a. P a.ticker.symbol)

    insert_ranked-Sound :
        (a : Scored D) (ss : List (Scored D))
        → P a.ticker.symbol
        → Sound ss
        → Sound (insert_ranked a ss)
    insert_ranked-Sound a [] p h = (p, tt)
    insert_ranked-Sound a (b ∷ bs) p h = elim (Bool-cases (ranks_above a b)) [
      | inl above ↦ rw above (p, h)
      | inr below ↦ rw below (h.0, insert_ranked-Sound a bs p h.1)
    ]

    rank-Sound : (sorted ss : List (Scored D)) → Sound sorted → Sound ss → Sound (rank sorted ss)
    rank-Sound sorted [] h k = h
    rank-Sound sorted (a ∷ rest) h k =
        rank-Sound (insert_ranked a sorted) rest (insert_ranked-Sound a sorted k.0 h) k.1

    first_symbols-All : (n : ℕ) (ss : List (Scored D)) → Sound ss → All P (first_symbols n ss)
    first_symbols-All zero ss h = tt
    first_symbols-All (suc n) [] h = tt
    first_symbols-All (suc n) (s ∷ ss) h = (h.0, first_symbols-All n ss h.1)

    score_all-Sound :
        (least most : D) (ts : List (MarketTicker D))
        → All (λ t. P t.symbol × (passes i t ≡ true)) ts
        → (ss : List (Scored D)) × (score_all i least most ts ≡ some ss) × Sound ss
    score_all-Sound least most [] h = ([], refl, tt)
    score_all-Sound least most (t ∷ ts) h =
        let rest = score_all-Sound least most ts h.1 in
        let known = atr_known (i.atr_percent_by_symbol t.symbol) (passes-atr t h.0.1) in
        (score_with i least most t known.0 ∷ rest.0, rw (known.1, rest.1) refl, (h.0.0, rest.2))
      where
        atr_known : (o : Option D) → atr_in_range i.cfg o ≡ true → (atr : D) × (o ≡ some atr)
        atr_known none h = cc
        atr_known (some atr) h = (atr, refl)

  length-first_symbols : (n : ℕ) (ss : List (Scored D)) → length (first_symbols n ss) ≤ n
  length-first_symbols zero ss = omega arith
  length-first_symbols (suc n) [] = omega arith
  length-first_symbols (suc n) (s ∷ ss) = omega (arith, length-first_symbols n ss)

  candidate-later :
      (t : MarketTicker D) (ts : List (MarketTicker D)) (s : Symbol)
      → IsCandidate ts s
      → IsCandidate (t ∷ ts) s
  candidate-later t ts s h = ground arith

  candidate-here :
      (t : MarketTicker D) (ts : List (MarketTicker D))
      → qualifies t ≡ true
      → IsCandidate (t ∷ ts) t.symbol
  candidate-here t ts h = ground arith

  -- Entries that qualify in a part of the tickers are candidates of all of them.
  keep_if-candidates :
      (all ts : List (MarketTicker D))
      → ((s : Symbol) → IsCandidate ts s → IsCandidate all s)
      → All (λ t. IsCandidate all t.symbol × (passes i t ≡ true)) (keep_if qualifies ts)
  keep_if-candidates all [] sub = tt
  keep_if-candidates all (t ∷ ts) sub =
      let rest = keep_if-candidates all ts (λ s h. sub s (candidate-later t ts s h)) in
      elim (Bool-cases (qualifies t)) [
        | inl good ↦ rw good ((sub t.symbol (candidate-here t ts good), ground arith), rest)
        | inr bad ↦ rw bad rest
      ]

  kept :
      (tickers : List (MarketTicker D))
      → All (λ t. IsCandidate tickers t.symbol × (passes i t ≡ true)) (eligible i tickers)
  unfolding eligible
  kept tickers = keep_if-candidates tickers tickers (λ s h. h)

  -- A scan always has a result, no more than `max_candidates` symbols, and each of them has a ticker
  -- that is tradable and passes the filters on turnover, spread, ATR and depth.
  pub scan_picks_candidates :
      (tickers : List (MarketTicker D))
      → (ss : List Symbol) × (scan i tickers ≡ some ss)
        × (length ss ≤ i.cfg.max_candidates)
        × All (IsCandidate tickers) ss
  unfolding scan
  scan_picks_candidates tickers = go (eligible i tickers) (kept tickers)
    where
      go :
          (es : List (MarketTicker D))
          → All (λ t. IsCandidate tickers t.symbol × (passes i t ≡ true)) es
          → (ss : List Symbol) × (scan_eligible i es ≡ some ss)
            × (length ss ≤ i.cfg.max_candidates)
            × All (IsCandidate tickers) ss
      go [] h = ([], refl, omega arith, tt)
      go (t ∷ ts) h =
          let scored =
            score_all-Sound (IsCandidate tickers) (least_turnover t.turnover_24h ts)
              (most_turnover t.turnover_24h ts) (t ∷ ts) h in
          let order = rank [] scored.0 in
          (
            first_symbols i.cfg.max_candidates order,
            rw scored.1 refl,
            length-first_symbols i.cfg.max_candidates order,
            first_symbols-All (IsCandidate tickers) i.cfg.max_candidates order
                (rank-Sound (IsCandidate tickers) [] scored.0 tt scored.2),
          )
