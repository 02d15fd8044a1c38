-- ===== src/Number.antt =====
-- The numbers of the program: Python's `decimal.Decimal` (prices, quantities, percentages), and the
-- floats of packages/guards. Their arithmetic is not code of the repository, so it is a parameter:
-- a record of operations, which every component takes as an instance argument. Only finite values
-- occur, so all comparisons come from one total test `le`.
pub mod Laws
pub mod Fraction
use quantbot.Prelude.{ℕ, ◌≡◌, Bool, true, false, not, ◌&&◌, if◌then◌else◌}

pub record Number (D : Type 0) : Type 0 where
  -- `Decimal("0.005")` is `dec 5 3`, and `Decimal(n)` is `dec n 0`.
  pub dec : ℕ → ℕ → D
  pub add : D → D → D
  pub sub : D → D → D
  pub mul : D → D → D
  pub div : D → D → D
  -- `to_integral_value` under ROUND_FLOOR, ROUND_CEILING, ROUND_DOWN and ROUND_HALF_UP
  pub floor : D → D
  pub ceiling : D → D
  pub truncate : D → D
  pub half_up : D → D
  pub le : D → D → Bool

module _ {D : Type 0} ⦃d : Number D⦄ where
  infixl 65 ◌⊕◌ ◌⊖◌
  infixl 70 ◌⊗◌ ◌⊘◌
  infix 50 ◌<=◌ ◌<<◌ ◌=?◌
  abbrev pub ◌⊕◌ : D → D → D
  ◌⊕◌ = d.add

  abbrev pub ◌⊖◌ : D → D → D
  ◌⊖◌ = d.sub

  abbrev pub ◌⊗◌ : D → D → D
  ◌⊗◌ = d.mul

  abbrev pub ◌⊘◌ : D → D → D
  ◌⊘◌ = d.div

  abbrev pub ◌<=◌ : D → D → Bool
  ◌<=◌ = d.le

  abbrev pub ◌<<◌ : D → D → Bool
  a << b = not (d.le b a)

  abbrev pub ◌=?◌ : D → D → Bool
  a =? b = d.le a b && d.le b a

  abbrev pub num : ℕ → D
  num n = d.dec n 0

  -- Python's `min(a, b)`, `max(a, b)` keep the first of two equal values.
  unfoldable pub min_of : D → D → D
  min_of a b = if b << a then b else a

  unfoldable pub max_of : D → D → D
  max_of a b = if a << b then b else a

  unfoldable pub abs_of : D → D
  abs_of x = if x << num 0 then num 0 ⊖ x else x

  -- `a ≤ b` as a statement
  infix 4 ◌≼◌
  abbrev pub ◌≼◌ : D → D → Type 0
  a ≼ b = d.le a b ≡ true

  infix 4 ◌≺◌
  abbrev pub ◌≺◌ : D → D → Type 0
  a ≺ b = d.le b a ≡ false
