-- ===== src/Number/Fraction/Cross.antt =====
-- Cross products: the order of the fractions, and what rounding a quotient does to it.
use quantbot.Prelude.{
  ℕ, suc, ◌+◌, ◌-◌, ◌*◌, ◌/◌, ◌≤◌, ◌<◌, ◌≡◌, inl, inr, Bool, true, leb, Bool-cases, arith,
}
use native.Mathlib.Nat.{mul-le-mul_right, le_of_mul-le-mul_right, div-add-mod', mod-lt}
use quantbot.Number.Fraction.{Fraction, frac, lower, upper, mul, div, floor, ceiling, truncate, le}

-- The order, as an order of numbers.
abbrev pub Below : Fraction → Fraction → Type 0
Below x y =
    x.plus * suc y.under + y.minus * suc x.under ≤ y.plus * suc x.under + x.minus * suc y.under

pub le→Below : (x y : Fraction) → le x y ≡ true → Below x y
le→Below x y h = ground arith

pub Below→le : (x y : Fraction) → Below x y → le x y ≡ true
Below→le x y h = ground arith

-- The cross products of a chain, with the middle denominator cancelled.
cross_trans :
    (p n d q m e r l f : ℕ)
    → 0 < e
    → p * e + m * d ≤ q * d + n * e
    → q * f + l * e ≤ r * e + m * f
    → p * f + l * d ≤ r * d + n * f
cross_trans p n d q m e r l f pos h k =
    le_of_mul-le-mul_right {k = e} (omega (arith, mul-le-mul_right f h, mul-le-mul_right d k)) pos

pub Below-trans : (x y z : Fraction) → Below x y → Below y z → Below x z
Below-trans x y z h k =
    cross_trans x.plus x.minus (suc x.under) y.plus y.minus (suc y.under) z.plus z.minus
      (suc z.under) (omega arith) h k

cross_mul :
    (p n d q m e r l f s : ℕ)
    → r ≡ l + s
    → p * e + m * d ≤ q * d + n * e
    → (p * r + n * l) * (e * f) + (q * l + m * r) * (d * f)
      ≤ (q * r + m * l) * (d * f) + (p * l + n * r) * (e * f)
cross_mul p n d q m e r l f s split k =
    rw split (omega (arith, mul-le-mul_right s (mul-le-mul_right f k)))

pub mul_mono : (x y z : Fraction) → Below (frac 0 0 0) z → Below x y → Below (mul x z) (mul y z)
mul_mono x y z h k = omega (
  arith,
  cross_mul x.plus x.minus (suc x.under) y.plus y.minus (suc y.under) z.plus z.minus (suc z.under)
      (z.plus - z.minus) (omega arith) k,
)

-- A quotient by a positive number with numerator `t + 1` and denominator `v + 1`.
abbrev pub over : Fraction → ℕ → ℕ → Fraction
over x v t = frac (x.plus * suc v) (x.minus * suc v) (x.under * t + x.under + t)

pub div_positive :
    (x z : Fraction) → z.minus < z.plus → div x z ≡ over x z.under (z.plus - z.minus - 1)
div_positive x z h = ground arith

cross_over :
    (p n d q m e v t : ℕ)
    → p * suc e + m * suc d ≤ q * suc d + n * suc e
    → p * suc v * suc (e * t + e + t) + m * suc v * suc (d * t + d + t)
      ≤ q * suc v * suc (d * t + d + t) + n * suc v * suc (e * t + e + t)
cross_over p n d q m e v t k = omega (arith, mul-le-mul_right (suc t) (mul-le-mul_right (suc v) k))

pub over_mono : (x y : Fraction) (v t : ℕ) → Below x y → Below (over x v t) (over y v t)
over_mono x y v t k = cross_over x.plus x.minus x.under y.plus y.minus y.under v t k

-- Rounding a quotient, and multiplying back, for the magnitude of the number.
lower_le : (n u : ℕ) → n / suc u * suc u ≤ n
lower_le n u = omega (arith, div-add-mod' n (suc u))

le-upper : (n u : ℕ) → n ≤ (n + u) / suc u * suc u
le-upper n u = omega (arith, div-add-mod' (n + u) (suc u), mod-lt (n + u) {m = suc u} (omega arith))

-- `q` quotients of the divisor `(r - l) / (f + 1)` against `(p - n) / (d + 1)`, from both sides, for
-- a number at or above zero and for one below.
module _ (p n d r l f t q : ℕ) (split : r ≡ l + suc t) where
  above_down :
      n * suc f ≤ p * suc f
      → q * suc (d * t + d + t) ≤ p * suc f - n * suc f
      → (q * r + 0 * l) * suc d + n * suc (0 * f + 0 + f)
        ≤ p * suc (0 * f + 0 + f) + (q * l + 0 * r) * suc d
  above_down h k = rw split (omega arith)

  above_up :
      n * suc f ≤ p * suc f
      → p * suc f - n * suc f ≤ q * suc (d * t + d + t)
      → p * suc (0 * f + 0 + f) + (q * l + 0 * r) * suc d
        ≤ (q * r + 0 * l) * suc d + n * suc (0 * f + 0 + f)
  above_up h k = rw split (omega arith)

  below_down :
      p * suc f ≤ n * suc f
      → n * suc f - p * suc f ≤ q * suc (d * t + d + t)
      → (0 * r + q * l) * suc d + n * suc (0 * f + 0 + f)
        ≤ p * suc (0 * f + 0 + f) + (0 * l + q * r) * suc d
  below_down h k = rw split (omega arith)

  below_up :
      p * suc f ≤ n * suc f
      → q * suc (d * t + d + t) ≤ n * suc f - p * suc f
      → p * suc (0 * f + 0 + f) + (0 * l + q * r) * suc d
        ≤ (0 * r + q * l) * suc d + n * suc (0 * f + 0 + f)
  below_up h k = rw split (omega arith)

module _ (x z : Fraction) (pos : z.minus < z.plus) where
  abbrev rest : ℕ
  rest = z.plus - z.minus - 1

  abbrev bottom : ℕ
  bottom = x.under * rest + x.under + rest

  abbrev gain : ℕ
  gain = x.plus * suc z.under - x.minus * suc z.under

  abbrev loss : ℕ
  loss = x.minus * suc z.under - x.plus * suc z.under

  abbrev nonneg : Bool
  nonneg = leb (x.minus * suc z.under) (x.plus * suc z.under)

  pub floor_step : Below (mul (floor (div x z)) z) x
  floor_step = rw (div_positive x z pos) (elim (Bool-cases nonneg) [
    | inl e ↦ rw e (
        above_down x.plus x.minus x.under z.plus z.minus z.under rest (lower gain bottom)
          (omega arith) (ground arith) (lower_le gain bottom))
    | inr e ↦ rw e (
        below_down x.plus x.minus x.under z.plus z.minus z.under rest (upper loss bottom)
          (omega arith) (ground arith) (le-upper loss bottom))
  ])

  pub ceiling_step : Below x (mul (ceiling (div x z)) z)
  ceiling_step = rw (div_positive x z pos) (elim (Bool-cases nonneg) [
    | inl e ↦ rw e (
        above_up x.plus x.minus x.under z.plus z.minus z.under rest (upper gain bottom)
          (omega arith) (ground arith) (le-upper gain bottom))
    | inr e ↦ rw e (
        below_up x.plus x.minus x.under z.plus z.minus z.under rest (lower loss bottom)
          (omega arith) (ground arith) (lower_le loss bottom))
  ])

pub truncate-Below : (x : Fraction) → x.minus ≤ x.plus → Below (truncate x) x
truncate-Below x h = ground (arith, lower_le (x.plus - x.minus) x.under)
