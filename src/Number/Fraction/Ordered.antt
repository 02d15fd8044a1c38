-- ===== src/Number/Fraction/Ordered.antt =====
-- The laws of Number/Laws.antt hold of the fractions.
use quantbot.Prelude.{ℕ, suc, ◌+◌, ◌-◌, ◌*◌, ◌≤◌, ◌<◌, ◌≡◌, ◌⊎◌, inl, inr, true, false, arith}
use native.Mathlib.Nat.{mul-le-mul_right}
use quantbot.Number.Laws.{IsOrdered, IsStepped}
use quantbot.Number.Fraction.{Fraction, add, sub, mul, div, truncate, le, dec, fraction_number}
use quantbot.Number.Fraction.Cross.{
  Below, le→Below, Below→le, Below-trans, mul_mono, div_positive, over_mono, floor_step,
  ceiling_step, truncate-Below,
}

-- The laws, one by one.
Below-total : (x y : Fraction) → (Below x y) ⊎ (Below y x)
Below-total x y = omega arith

dec_mono : (m n : ℕ) → m ≤ n → Below (dec m 0) (dec n 0)
dec_mono m n h = omega arith

cross_shift :
    (p n d r l f : ℕ)
    → l ≤ r
    → (p * suc f + l * suc d) * suc d + n * suc (d * f + d + f)
      ≤ p * suc (d * f + d + f) + (n * suc f + r * suc d) * suc d
cross_shift p n d r l f h = omega (arith, mul-le-mul_right (suc d * suc d) h)

cross_grow :
    (p n d r l f : ℕ)
    → l ≤ r
    → p * suc (d * f + d + f) + (n * suc f + l * suc d) * suc d
      ≤ (p * suc f + r * suc d) * suc d + n * suc (d * f + d + f)
cross_grow p n d r l f h = omega (arith, mul-le-mul_right (suc d * suc d) h)

cross_sign : (p n r l s : ℕ) → r ≡ l + s → n ≤ p → p * l + n * r ≤ p * r + n * l
cross_sign p n r l s split h = rw split (omega (arith, mul-le-mul_right s h))

-- A fraction is at or above zero if its `minus` is at most its `plus`.
nonneg_parts : (x : Fraction) → le (dec 0 0) x ≡ true → x.minus ≤ x.plus
nonneg_parts x h = omega (arith, le→Below (dec 0 0) x h)

positive_parts : (x : Fraction) → le x (dec 0 0) ≡ false → x.minus < x.plus
positive_parts x h = ground arith

nonneg_of_parts : (x : Fraction) → x.minus ≤ x.plus → le (dec 0 0) x ≡ true
nonneg_of_parts x h = Below→le (dec 0 0) x (omega arith)

div_nonneg_parts :
    (x z : Fraction) → x.minus ≤ x.plus → z.minus < z.plus → (div x z).minus ≤ (div x z).plus
div_nonneg_parts x z h pos = rw (div_positive x z pos) (mul-le-mul_right (suc z.under) h)

positive_of_parts : (x : Fraction) → x.minus < x.plus → le x (dec 0 0) ≡ false
positive_of_parts x h = ground arith

div_pos_parts :
    (x z : Fraction) → x.minus < x.plus → z.minus < z.plus → (div x z).minus < (div x z).plus
div_pos_parts x z h pos =
    rw (div_positive x z pos) (omega (arith, mul-le-mul_right (suc z.under) h))

truncate_parts : (x : Fraction) → x.minus ≤ x.plus → (truncate x).minus ≤ (truncate x).plus
truncate_parts x h = ground arith

positive_num : (m n : ℕ) → m < n → le (dec n 0) (dec m 0) ≡ false
positive_num m n h = ground arith

pub Fraction-IsOrdered : IsOrdered Fraction
Fraction-IsOrdered = record {
  le_refl = λ x. Below→le x x (omega arith);
  le_trans = λ x y z h k. Below→le x z (Below-trans x y z (le→Below x y h) (le→Below y z k));
  le_total =
      λ x y. elim (Below-total x y) [ inl h ↦ inl (Below→le x y h) | inr h ↦ inr (Below→le y x h) ];
  num_mono = λ m n h. Below→le (dec m 0) (dec n 0) (dec_mono m n h);
  num_lt = λ m n h. positive_num m n h;
  sub_le = λ x y h.
      Below→le (sub x y) x
        (cross_shift x.plus x.minus x.under y.plus y.minus y.under (nonneg_parts y h));
  le_add = λ x y h.
      Below→le x (add x y)
        (cross_grow x.plus x.minus x.under y.plus y.minus y.under (nonneg_parts y h));
  mul_nonneg = λ x y h k. nonneg_of_parts (mul x y) (
      cross_sign x.plus x.minus y.plus y.minus (y.plus - y.minus) (omega (arith, nonneg_parts y k))
        (nonneg_parts x h));
  mul_mono = λ x y z h k.
      Below→le (mul x z) (mul y z) (mul_mono x y z (le→Below (dec 0 0) z h) (le→Below x y k));
  div_mono = λ x y z h k. Below→le (div x z) (div y z) (
      rw (div_positive x z (positive_parts z h), div_positive y z (positive_parts z h))
        (over_mono x y z.under (z.plus - z.minus - 1) (le→Below x y k)));
  div_nonneg = λ x z h k.
      nonneg_of_parts (div x z) (div_nonneg_parts x z (nonneg_parts x h) (positive_parts z k));
  div_pos = λ x z h k.
      positive_of_parts (div x z) (div_pos_parts x z (positive_parts x h) (positive_parts z k));
  truncate_le = λ x h. Below→le _ x (truncate-Below x (nonneg_parts x h));
  truncate_nonneg = λ x h. nonneg_of_parts (truncate x) (truncate_parts x (nonneg_parts x h));
}

pub Fraction-IsStepped : IsStepped Fraction
Fraction-IsStepped = record {
  floor_step_le = λ x t h. Below→le _ x (floor_step x t (positive_parts t h));
  le-ceiling_step = λ x t h. Below→le x _ (ceiling_step x t (positive_parts t h));
}
