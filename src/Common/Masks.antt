-- ===== src/Common/Masks.antt =====
-- `bit_and` with a mask of low bits and `bit_or` of disjoint fields, as arithmetic.
use Prim.Native.Nat.{
  ℕ, zero, suc, ◌+◌, ◌-◌, ◌*◌, ◌/◌, ◌%◌, ◌^◌, ◌≤◌, ◌<◌, min, max, bit_and, bit_or, bit_and-bitwise,
  bit_or-bitwise,
}
use mathlib.Core.Path.{◌≡◌, refl, ap, ap₂, ◌∙◌}
use soc.Common.Digits.{digits_step}
use native.Mathlib.Omega.{arith}
use native.Mathlib.Nat.{pow-suc, one-le-pow}

-- `bit_and` and `bit_or` by the lowest digits of their arguments.
pub bit_and_step : (x y : ℕ) → bit_and x y ≡ bit_and (x / 2) (y / 2) * 2 + min (x % 2) (y % 2)
bit_and_step zero y =
    let whole = bit_and-bitwise 0 y in
    let half = bit_and-bitwise 0 (y / 2) in omega (arith, whole, half)
bit_and_step (suc x) y =
    let digit = digits_step (λ d. 0) min x y in
    let whole = bit_and-bitwise (suc x) y in
    let half = bit_and-bitwise (suc x / 2) (y / 2) in omega (arith, digit, whole, half)

pub bit_or_step : (x y : ℕ) → bit_or x y ≡ bit_or (x / 2) (y / 2) * 2 + max (x % 2) (y % 2)
bit_or_step zero y =
    let whole = bit_or-bitwise 0 y in
    let half = bit_or-bitwise 0 (y / 2) in omega (arith, whole, half)
bit_or_step (suc x) y =
    let digit = digits_step (λ d. d) max x y in
    let whole = bit_or-bitwise (suc x) y in
    let half = bit_or-bitwise (suc x / 2) (y / 2) in omega (arith, digit, whole, half)

bit_and-zero_fuel : (n a : ℕ) → a ≤ n → bit_and a 0 ≡ 0
bit_and-zero_fuel zero zero h = refl
bit_and-zero_fuel zero (suc a) h = absurd (omega arith)
bit_and-zero_fuel (suc n) a h =
    omega (arith, bit_and_step a 0, bit_and-zero_fuel n (a / 2) (omega arith))

bit_or-zero_fuel : (n a : ℕ) → a ≤ n → bit_or a 0 ≡ a
bit_or-zero_fuel zero zero h = refl
bit_or-zero_fuel zero (suc a) h = absurd (omega arith)
bit_or-zero_fuel (suc n) a h =
    omega (arith, bit_or_step a 0, bit_or-zero_fuel n (a / 2) (omega arith))

bit_and_fields : (k q r : ℕ) → r < 2 ^ k → bit_and (q * 2 ^ k + r) (2 ^ k - 1) ≡ r
bit_and_fields zero q zero h = ground (arith, bit_and-zero_fuel q q (omega arith))
bit_and_fields zero q (suc r) h = absurd (omega arith)
bit_and_fields (suc k) q r h = ground (
  arith,
  bit_and_step (q * 2 ^ suc k + r) (2 ^ suc k - 1),
  ap (λ (t : ℕ). q * t) (pow-suc 2 k),
  pow-suc 2 k,
  one-le-pow k 2,
  bit_and_fields k q (r / 2),
)

-- `a & (2^k - 1)` is the remainder by `2^k`.
pub bit_and_low : (k a : ℕ) → bit_and a (2 ^ k - 1) ≡ a % 2 ^ k
bit_and_low k a = ground (arith, one-le-pow k 2, bit_and_fields k (a / 2 ^ k) (a % 2 ^ k))

-- `(q << k) | r` is a sum if `r` has `k` bits.
pub bit_or_sum : (k q r : ℕ) → r < 2 ^ k → bit_or (q * 2 ^ k) r ≡ q * 2 ^ k + r
bit_or_sum zero q zero h = ground (arith, bit_or-zero_fuel q q (omega arith))
bit_or_sum zero q (suc r) h = absurd (omega arith)
bit_or_sum (suc k) q r h = ground (
  arith,
  bit_or_step (q * 2 ^ suc k) r,
  ap (λ (t : ℕ). q * t) (pow-suc 2 k),
  pow-suc 2 k,
  bit_or_sum k q (r / 2),
)

pub bit_or_sum_right : (k q r : ℕ) → r < 2 ^ k → bit_or r (q * 2 ^ k) ≡ q * 2 ^ k + r
bit_or_sum_right zero q zero h = omega (arith, bit_or-bitwise 0 (q * 1))
bit_or_sum_right zero q (suc r) h = absurd (omega arith)
bit_or_sum_right (suc k) q r h = ground (
  arith,
  bit_or_step r (q * 2 ^ suc k),
  ap (λ (t : ℕ). q * t) (pow-suc 2 k),
  pow-suc 2 k,
  bit_or_sum_right k q (r / 2),
)

-- `bit_and` of two numbers, each cut into a high field and `k` low bits.
pub bit_and_split :
    (k q r q' r' : ℕ)
    → r < 2 ^ k
    → r' < 2 ^ k
    → bit_and (q * 2 ^ k + r) (q' * 2 ^ k + r') ≡ bit_and q q' * 2 ^ k + bit_and r r'
bit_and_split zero q zero q' zero h h' = ground (arith, bit_and-zero_fuel 0 0 (omega arith))
bit_and_split zero q zero q' (suc r') h h' = absurd (omega arith)
bit_and_split zero q (suc r) q' r' h h' = absurd (omega arith)
bit_and_split (suc k) q r q' r' h h' = ground (
  arith,
  bit_and_step (q * 2 ^ suc k + r) (q' * 2 ^ suc k + r'),
  bit_and_step r r',
  ap (λ (t : ℕ). q * t) (pow-suc 2 k),
  ap (λ (t : ℕ). q' * t) (pow-suc 2 k),
  ap (λ (t : ℕ). bit_and q q' * t) (pow-suc 2 k),
  pow-suc 2 k,
  bit_and_split k q (r / 2) q' (r' / 2),
)

pub bit_and_zero : (a : ℕ) → bit_and a 0 ≡ 0
bit_and_zero a = bit_and-zero_fuel a a (omega arith)

pub bit_and_parity : (a b : ℕ) → bit_and a b % 2 ≡ min (a % 2) (b % 2)
bit_and_parity a b = omega (arith, bit_and_step a b)

-- `a & (1 << k)`
pub bit_and_bit : (k q r : ℕ) → r < 2 ^ k → bit_and (q * 2 ^ k + r) (1 * 2 ^ k + 0) ≡ q % 2 * 2 ^ k
bit_and_bit k q r h =
    bit_and_split k q r 1 0 h (one-le-pow k 2 (omega arith))
    ∙ ap₂ (λ x y. x * 2 ^ k + y) (bit_and_step q 1 ∙ low_bit (bit_and_zero (q / 2)))
        (bit_and_zero r)
    ∙ omega arith
  where
    low_bit : bit_and (q / 2) 0 ≡ 0 → bit_and (q / 2) (1 / 2) * 2 + min (q % 2) (1 % 2) ≡ q % 2
    low_bit e = omega (arith, e)

bit_and-le_fuel : (n a b : ℕ) → a ≤ n → bit_and a b ≤ a
bit_and-le_fuel zero zero b h = omega (arith, bit_and_step 0 b, bit_and-bitwise 0 b)
bit_and-le_fuel zero (suc a) b h = absurd (omega arith)
bit_and-le_fuel (suc n) a b h =
    omega (arith, bit_and_step a b, bit_and-le_fuel n (a / 2) (b / 2) (omega arith))

pub bit_and-le : (a b : ℕ) → bit_and a b ≤ a
bit_and-le a b = bit_and-le_fuel a a b (omega arith)
