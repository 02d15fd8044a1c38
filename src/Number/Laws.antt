-- ===== src/Number/Laws.antt =====
-- What the proofs rely on of the arithmetic: documented behaviour of `decimal` on finite values that
-- fit the context's precision. Results are rounded monotonically and exact results are kept, so the
-- order laws hold of the rounded operations too; no law says that a quotient is exact.
use quantbot.Prelude.{ℕ, ◌⊎◌, inl, inr, ◌≤◌, ◌<◌, arith}
use quantbot.Number.{Number, ◌⊕◌, ◌⊖◌, ◌⊗◌, ◌⊘◌, num, min_of, max_of, ◌≼◌, ◌≺◌}

pub record IsOrdered (D : Type 0) ⦃d : Number D⦄ : Type 0 where
  pub le_refl : (a : D) → a ≼ a
  pub le_trans : (a b c : D) → a ≼ b → b ≼ c → a ≼ c
  pub le_total : (a b : D) → (a ≼ b) ⊎ (b ≼ a)
  pub num_mono : (m n : ℕ) → m ≤ n → num {D = D} m ≼ num n
  pub num_lt : (m n : ℕ) → m < n → num {D = D} m ≺ num n
  pub sub_le : (a b : D) → num 0 ≼ b → a ⊖ b ≼ a
  pub le_add : (a b : D) → num 0 ≼ b → a ≼ a ⊕ b
  pub mul_nonneg : (a b : D) → num 0 ≼ a → num 0 ≼ b → num 0 ≼ a ⊗ b
  pub mul_mono : (a b c : D) → num 0 ≼ c → a ≼ b → a ⊗ c ≼ b ⊗ c
  pub div_mono : (a b c : D) → num 0 ≺ c → a ≼ b → a ⊘ c ≼ b ⊘ c
  pub div_nonneg : (a b : D) → num 0 ≼ a → num 0 ≺ b → num 0 ≼ a ⊘ b
  pub div_pos : (a b : D) → num 0 ≺ a → num 0 ≺ b → num 0 ≺ a ⊘ b
  pub truncate_le : (x : D) → num 0 ≼ x → d.truncate x ≼ x
  pub truncate_nonneg : (x : D) → num 0 ≼ x → num 0 ≼ d.truncate x

-- Rounding a price to its tick does not pass the price. This holds where quotients by a tick are
-- exact. `decimal` rounds a quotient to the digits of its context, here 28, and a price so close
-- below a multiple of the tick that its quotient is rounded up to the integer is outside of it.
pub record IsStepped (D : Type 0) ⦃d : Number D⦄ : Type 0 where
  pub floor_step_le : (x t : D) → num 0 ≺ t → d.floor (x ⊘ t) ⊗ t ≼ x
  pub le-ceiling_step : (x t : D) → num 0 ≺ t → x ≼ d.ceiling (x ⊘ t) ⊗ t

module _ {D : Type 0} ⦃d : Number D⦄ (laws : IsOrdered D) where
  open laws use {le_refl, le_trans, le_total}

  pub le_of_lt : (a b : D) → a ≺ b → a ≼ b
  le_of_lt a b h = elim (le_total a b) [ inl e ↦ e | inr e ↦ cc ]

  pub lt_of_lt_le : (a b c : D) → a ≺ b → b ≼ c → a ≺ c
  lt_of_lt_le a b c h k = ground (arith, le_trans b c a k)

  pub min_of-le_left : (a b : D) → min_of a b ≼ a
  unfolding min_of
  min_of-le_left a b = ground (arith, le_refl a, le_total a b)

  pub min_of-le_right : (a b : D) → min_of a b ≼ b
  unfolding min_of
  min_of-le_right a b = ground (arith, le_refl b, le_total a b)

  pub le-max_of_left : (a b : D) → a ≼ max_of a b
  unfolding max_of
  le-max_of_left a b = ground (arith, le_refl a, le_total a b)

  pub le-max_of_right : (a b : D) → b ≼ max_of a b
  unfolding max_of
  le-max_of_right a b = ground (arith, le_refl b, le_total a b)

  pub le-min_of : (a b c : D) → c ≼ a → c ≼ b → c ≼ min_of a b
  unfolding min_of
  le-min_of a b c h k = ground arith

  pub max_of-le : (a b c : D) → a ≼ c → b ≼ c → max_of a b ≼ c
  unfolding max_of
  max_of-le a b c h k = ground arith
