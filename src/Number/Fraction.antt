-- ===== src/Number/Fraction.antt =====
-- Exact fractions: numbers at which the laws of Number/Laws.antt hold, and on which the definitions
-- run in the tests. `(plus - minus) / (under + 1)`; the order compares cross products.
mod Cross
pub mod Ordered
use quantbot.Prelude.{ℕ, suc, ◌+◌, ◌-◌, ◌*◌, ◌/◌, ◌^◌, Bool, ltb, leb, if◌then◌else◌}
use quantbot.Number.{Number}

pub record Fraction : Type 0 where
  pub plus : ℕ
  pub minus : ℕ
  pub under : ℕ

abbrev pub frac : ℕ → ℕ → ℕ → Fraction
frac p n u = record { plus = p; minus = n; under = u }

-- The denominator of a sum or a product, less one.
abbrev joint : ℕ → ℕ → ℕ
joint u v = u * v + u + v

abbrev pub add : Fraction → Fraction → Fraction
add x y =
    frac (x.plus * suc y.under + y.plus * suc x.under)
      (x.minus * suc y.under + y.minus * suc x.under) (joint x.under y.under)

abbrev pub sub : Fraction → Fraction → Fraction
sub x y =
    frac (x.plus * suc y.under + y.minus * suc x.under)
      (x.minus * suc y.under + y.plus * suc x.under) (joint x.under y.under)

abbrev pub mul : Fraction → Fraction → Fraction
mul x y =
    frac (x.plus * y.plus + x.minus * y.minus) (x.plus * y.minus + x.minus * y.plus)
      (joint x.under y.under)

-- Division by zero, which raises in the source, gives 0 here; no modelled code divides by zero.
abbrev pub div : Fraction → Fraction → Fraction
div x y =
    if ltb y.minus y.plus
    then frac (x.plus * suc y.under) (x.minus * suc y.under) (joint x.under (y.plus - y.minus - 1))
    else if ltb y.plus y.minus
    then frac (x.minus * suc y.under) (x.plus * suc y.under) (joint x.under (y.minus - y.plus - 1))
    else frac 0 0 0

-- Rounds the magnitude by one function at and above zero, by another below.
abbrev rounded : (ℕ → ℕ → ℕ) → (ℕ → ℕ → ℕ) → Fraction → Fraction
rounded above below x =
    if leb x.minus x.plus
    then frac (above (x.plus - x.minus) x.under) 0 0
    else frac 0 (below (x.minus - x.plus) x.under) 0

abbrev pub lower : ℕ → ℕ → ℕ
lower n u = n / suc u

abbrev pub upper : ℕ → ℕ → ℕ
upper n u = (n + u) / suc u

abbrev nearest : ℕ → ℕ → ℕ
nearest n u = (2 * n + suc u) / (2 * suc u)

abbrev pub floor : Fraction → Fraction
floor = rounded lower upper

abbrev pub ceiling : Fraction → Fraction
ceiling = rounded upper lower

abbrev pub truncate : Fraction → Fraction
truncate = rounded lower lower

abbrev pub half_up : Fraction → Fraction
half_up = rounded nearest nearest

abbrev pub le : Fraction → Fraction → Bool
le x y =
    leb (x.plus * suc y.under + y.minus * suc x.under)
      (y.plus * suc x.under + x.minus * suc y.under)

abbrev pub dec : ℕ → ℕ → Fraction
dec m k = frac m 0 (10 ^ k - 1)

instance abbrev pub fraction_number : Number Fraction
fraction_number = record {
  dec = dec;
  add = add;
  sub = sub;
  mul = mul;
  div = div;
  floor = floor;
  ceiling = ceiling;
  truncate = truncate;
  half_up = half_up;
  le = le;
}
