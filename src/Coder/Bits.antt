-- ===== src/Coder/Bits.antt =====
-- The tests of the two loops of ArithmeticCoderBase::update and what they do to the bounds, as
-- arithmetic.
use soc.Common.{
  ℕ, ◌+◌, ◌-◌, ◌*◌, ◌/◌, ◌%◌, ◌^◌, ◌≤◌, ◌<◌, ◌≡◌, ap, ap₂, ◌∙◌, ◌⊎◌, min, bit_and, bit_or, bit_xor,
  true, false, arith,
}
use soc.Common.Bits.{xor_fields, xor_parity, xor_lt_pow, xor_self, xor-zero}
use soc.Common.Masks.{
  bit_and_low, bit_or_sum, bit_or_sum_right, bit_and_split, bit_and_bit, bit_and_parity, bit_and-le,
}
use soc.Coder.{ArithmeticEncoder, half_range, quarter_range, same_top, apart, double, double_inside}

-- The top bit of the difference of two 32-bit numbers.
top_bit :
    (a b : ℕ)
    → bit_and (bit_xor a b) half_range ≡ (a / 2147483648 + b / 2147483648) % 2 * 2147483648
top_bit a b =
    ap₂ (λ x y. bit_and (bit_xor x y) half_range) (split a) (split b)
    ∙ ap (λ x. bit_and x half_range)
        (xor_fields 31 (a / 2147483648) (a % 2147483648) (b / 2147483648) (b % 2147483648)
          (omega arith) (omega arith))
    ∙ bit_and_bit 31 (bit_xor (a / 2147483648) (b / 2147483648))
        (bit_xor (a % 2147483648) (b % 2147483648))
        (xor_lt_pow 31 (a % 2147483648) (b % 2147483648) (omega arith) (omega arith))
    ∙ ap (λ x. x * 2147483648) (xor_parity (a / 2147483648) (b / 2147483648))
  where
    split : (x : ℕ) → x ≡ x / 2147483648 * 2 ^ 31 + x % 2147483648
    split x = omega arith

pub record IsPair (e : ArithmeticEncoder) : Type 0 where
  pub ordered : e.low ≤ e.high
  pub small : e.high < 4294967296

pub same_top_cases :
    (e : ArithmeticEncoder)
    → IsPair e
    → ((same_top e ≡ true) × (e.high < half_range))
      ⊎ (((same_top e ≡ true) × (half_range ≤ e.low))
          ⊎ ((same_top e ≡ false) × (e.low < half_range) × (half_range ≤ e.high)))
unfolding same_top
same_top_cases e p = ground (arith, top_bit e.low e.high)

pub double_low : (e : ArithmeticEncoder) → IsPair e → (double e).low ≡ e.low * 2 % 4294967296
unfolding double
double_low e p = bit_and_low 32 (e.low * 2 % 2 ^ 64) ∙ omega (arith, p.ordered, p.small)

or_one : (a : ℕ) → bit_or (a * 2) 1 ≡ a * 2 + 1
or_one a = bit_or_sum 1 a 1 (omega arith)

pub double_high : (e : ArithmeticEncoder) → IsPair e → (double e).high ≡ e.high * 2 % 4294967296 + 1
unfolding double
double_high e p =
    ap (λ x. bit_or x 1) (bit_and_low 32 (e.high * 2 % 2 ^ 64) ∙ even)
    ∙ or_one (e.high % 2147483648)
    ∙ omega arith
  where
    even : e.high * 2 % 2 ^ 64 % 2 ^ 32 ≡ e.high % 2147483648 * 2
    even = omega (arith, p.small)

-- Bit 30 of `low & ~high`.
apart_bit :
    (a b : ℕ)
    → bit_and (bit_and a (bit_xor b (2 ^ 64 - 1))) quarter_range
      ≡ min (a / 1073741824 % 2) ((b / 1073741824 + 1) % 2) * 1073741824
apart_bit a b =
    ap₂ (λ x y. bit_and (bit_and x (bit_xor y ones)) quarter_range) (split a) (split b)
    ∙ ap (λ x. bit_and (bit_and (a1 * 2 ^ 30 + a0) x) quarter_range)
        (xor_fields 30 b1 b0 (2 ^ 34 - 1) (2 ^ 30 - 1) (omega arith) (omega arith))
    ∙ ap (λ x. bit_and x quarter_range)
        (bit_and_split 30 a1 a0 (bit_xor b1 (2 ^ 34 - 1)) (bit_xor b0 (2 ^ 30 - 1)) (omega arith)
          (xor_lt_pow 30 b0 (2 ^ 30 - 1) (omega arith) (omega arith)))
    ∙ bit_and_bit 30 (bit_and a1 (bit_xor b1 (2 ^ 34 - 1))) (bit_and a0 (bit_xor b0 (2 ^ 30 - 1)))
        (omega (arith, bit_and-le a0 (bit_xor b0 (2 ^ 30 - 1))))
    ∙ ap (λ x. x * 1073741824)
        (bit_and_parity a1 (bit_xor b1 (2 ^ 34 - 1))
          ∙ ap (λ x. min (a1 % 2) x) (xor_parity b1 (2 ^ 34 - 1) ∙ omega arith))
  where
    a1 : ℕ
    a1 = a / 1073741824

    a0 : ℕ
    a0 = a % 1073741824

    b1 : ℕ
    b1 = b / 1073741824

    b0 : ℕ
    b0 = b % 1073741824

    ones : ℕ
    ones = (2 ^ 34 - 1) * 2 ^ 30 + (2 ^ 30 - 1)

    split : (x : ℕ) → x ≡ x / 1073741824 * 2 ^ 30 + x % 1073741824
    split x = omega arith

pub apart_cases :
    (e : ArithmeticEncoder)
    → IsPair e
    → e.low < half_range
    → half_range ≤ e.high
    → ((apart e ≡ true) × ((e.low < quarter_range) ⊎ (half_range + quarter_range ≤ e.high)))
      ⊎ ((apart e ≡ false) × (quarter_range ≤ e.low) × (e.high < half_range + quarter_range))
unfolding apart
apart_cases e p l h = ground (arith, apart_bit e.low e.high)

-- With the bounds in the middle half.
pub record IsMiddle (e : ArithmeticEncoder) : Type 0 where
  pub low_quarter : quarter_range ≤ e.low
  pub low_half : e.low < half_range
  pub high_half : half_range ≤ e.high
  pub high_quarter : e.high < half_range + quarter_range

pub double_inside_low :
    (e : ArithmeticEncoder) → IsMiddle e → (double_inside e).low ≡ e.low * 2 - half_range
unfolding double_inside
double_inside_low e m =
    ap (λ x. bit_xor x half_range) split
    ∙ xor_fields 31 1 (e.low * 2 - half_range) 1 0 (omega (arith, m.low_half)) (omega arith)
    ∙ ap₂ (λ x y. x * 2 ^ 31 + y) (xor_self 1) (xor-zero (e.low * 2 - half_range))
    ∙ omega arith
  where
    split : e.low * 2 % 2 ^ 64 ≡ 1 * 2 ^ 31 + (e.low * 2 - half_range)
    split = omega (arith, m.low_quarter, m.low_half)

pub double_inside_high :
    (e : ArithmeticEncoder)
    → IsMiddle e
    → (double_inside e).high ≡ (e.high - half_range) * 2 + half_range + 1
unfolding double_inside
double_inside_high e m =
    ap (λ x. bit_or (bit_or (bit_xor x half_range * 2 % 2 ^ 64) half_range) 1) split
    ∙ ap (λ x. bit_or (bit_or (x * 2 % 2 ^ 64) half_range) 1)
        (xor_fields 31 1 (e.high - half_range) 1 0 (omega (arith, m.high_quarter)) (omega arith)
          ∙ ap₂ (λ x y. x * 2 ^ 31 + y) (xor_self 1) (xor-zero (e.high - half_range)))
    ∙ ap (λ x. bit_or (bit_or x half_range) 1) fits
    ∙ ap (λ x. bit_or x 1)
        (bit_or_sum_right 31 1 ((e.high - half_range) * 2) (omega (arith, m.high_quarter)) ∙ even)
    ∙ or_one (1073741824 + (e.high - half_range))
    ∙ omega arith
  where
    split : e.high ≡ 1 * 2 ^ 31 + (e.high - half_range)
    split = omega (arith, m.high_half)

    fits : (0 * 2 ^ 31 + (e.high - half_range)) * 2 % 2 ^ 64 ≡ (e.high - half_range) * 2
    fits = omega (arith, m.high_quarter)

    even : 1 * 2 ^ 31 + (e.high - half_range) * 2 ≡ (1073741824 + (e.high - half_range)) * 2
    even = omega arith
