-- ===== src/Common/Bits.antt =====
-- `bit_xor` at variables: the equation of its lowest digit, and what follows from it at every
-- width. The library states the operation as a recursion on digits with fuel.
use Prim.Native.Nat.{
  ℕ, zero, suc, ◌+◌, ◌*◌, ◌/◌, ◌%◌, ◌^◌, ◌≤◌, ◌<◌, bit_xor, differ, bit_xor-bitwise,
}
use mathlib.Core.Path.{◌≡◌, refl, sym, ap, ◌∙◌}
use mathlib.Core.Bool.{Bool, true, ◌&&◌}
use soc.Common.Digits.{digits_step}
use native.Mathlib.Omega.{arith}
use native.Mathlib.Nat.{pow-suc}

-- A test on each number below a bound, from the largest down.
unfoldable pub holds_below : (ℕ → Bool) → ℕ → Bool
holds_below test zero = true
holds_below test (suc bound) = test bound && holds_below test bound

pub holds_below_sound :
    (test : ℕ → Bool) (bound : ℕ)
    → holds_below test bound ≡ true
    → (x : ℕ) → x < bound
    → test x ≡ true
unfolding holds_below
holds_below_sound test zero e x small = absurd (omega arith)
holds_below_sound test (suc bound) e x small =
    let rest : holds_below test bound ≡ true = ground arith in
    let smaller = holds_below_sound test bound rest x in ground (arith, smaller)

differ_digits : (p q : ℕ) → p < 2 → q < 2 → differ p q ≡ (p + q) % 2
differ_digits zero zero hp hq = refl
differ_digits zero (suc zero) hp hq = refl
differ_digits zero (suc (suc q)) hp hq = absurd (omega arith)
differ_digits (suc zero) zero hp hq = refl
differ_digits (suc zero) (suc zero) hp hq = refl
differ_digits (suc zero) (suc (suc q)) hp hq = absurd (omega arith)
differ_digits (suc (suc p)) q hp hq = absurd (omega arith)

pub zero-xor : (b : ℕ) → bit_xor 0 b ≡ b
zero-xor b = bit_xor-bitwise 0 b

pub xor_step : (a b : ℕ) → bit_xor a b ≡ bit_xor (a / 2) (b / 2) * 2 + (a + b) % 2
xor_step zero b = omega (arith, zero-xor b, zero-xor (b / 2))
xor_step (suc a) b = omega (
  arith,
  bit_xor-bitwise (suc a) b,
  bit_xor-bitwise (suc a / 2) (b / 2),
  digits_step (λ y. y) differ a b,
  differ_digits (suc a % 2) (b % 2) (omega arith) (omega arith),
)

-- The laws below go from `a / 2` to `a`, on a bound of the numbers.
xor-zero_fuel : (n a : ℕ) → a ≤ n → bit_xor a 0 ≡ a
xor-zero_fuel zero zero h = refl
xor-zero_fuel zero (suc a) h = absurd (omega arith)
xor-zero_fuel (suc n) a h = omega (arith, xor_step a 0, xor-zero_fuel n (a / 2) (omega arith))

pub xor-zero : (a : ℕ) → bit_xor a 0 ≡ a
xor-zero a = xor-zero_fuel a a (omega arith)

xor_comm_fuel : (n a b : ℕ) → a ≤ n → b ≤ n → bit_xor a b ≡ bit_xor b a
xor_comm_fuel zero a b h k = omega (arith, xor_step a b, xor_step b a, zero-zero a b h k)
  where
    zero-zero : (a b : ℕ) → a ≤ 0 → b ≤ 0 → bit_xor (a / 2) (b / 2) ≡ bit_xor (b / 2) (a / 2)
    zero-zero zero zero h k = refl
    zero-zero zero (suc b) h k = absurd (omega arith)
    zero-zero (suc a) b h k = absurd (omega arith)
xor_comm_fuel (suc n) a b h k =
    omega (
      arith,
      xor_step a b,
      xor_step b a,
      xor_comm_fuel n (a / 2) (b / 2) (omega arith) (omega arith),
    )

pub xor_comm : (a b : ℕ) → bit_xor a b ≡ bit_xor b a
xor_comm a b = xor_comm_fuel (a + b) a b (omega arith) (omega arith)

pub xor-half : (a b : ℕ) → bit_xor a b / 2 ≡ bit_xor (a / 2) (b / 2)
xor-half a b = omega (arith, xor_step a b)

pub xor_parity : (a b : ℕ) → bit_xor a b % 2 ≡ (a + b) % 2
xor_parity a b = omega (arith, xor_step a b)

xor_assoc_fuel :
    (n a b c : ℕ) → a ≤ n → b ≤ n → c ≤ n → bit_xor (bit_xor a b) c ≡ bit_xor a (bit_xor b c)
xor_assoc_fuel zero zero zero zero p q r = refl
xor_assoc_fuel zero zero zero (suc c) p q r = absurd (omega arith)
xor_assoc_fuel zero zero (suc b) c p q r = absurd (omega arith)
xor_assoc_fuel zero (suc a) b c p q r = absurd (omega arith)
xor_assoc_fuel (suc n) a b c p q r =
    let left : bit_xor (bit_xor a b) c
        ≡ bit_xor (bit_xor (a / 2) (b / 2)) (c / 2) * 2 + (bit_xor a b + c) % 2 =
      rw (← xor-half a b) (xor_step (bit_xor a b) c) in
    let right : bit_xor a (bit_xor b c)
        ≡ bit_xor (a / 2) (bit_xor (b / 2) (c / 2)) * 2 + (a + bit_xor b c) % 2 =
      rw (← xor-half b c) (xor_step a (bit_xor b c)) in
    omega (
      arith,
      left,
      right,
      xor_parity a b,
      xor_parity b c,
      xor_assoc_fuel n (a / 2) (b / 2) (c / 2) (omega arith) (omega arith) (omega arith),
    )

pub xor_assoc : (a b c : ℕ) → bit_xor (bit_xor a b) c ≡ bit_xor a (bit_xor b c)
xor_assoc a b c = xor_assoc_fuel (a + b + c) a b c (omega arith) (omega arith) (omega arith)

xor_self_fuel : (n a : ℕ) → a ≤ n → bit_xor a a ≡ 0
xor_self_fuel zero zero h = refl
xor_self_fuel zero (suc a) h = absurd (omega arith)
xor_self_fuel (suc n) a h = omega (arith, xor_step a a, xor_self_fuel n (a / 2) (omega arith))

pub xor_self : (a : ℕ) → bit_xor a a ≡ 0
xor_self a = xor_self_fuel a a (omega arith)

pub xor_cancel : (a b c : ℕ) → bit_xor a b ≡ bit_xor a c → b ≡ c
xor_cancel a b c h = sym (undo b) ∙ ap (bit_xor a) h ∙ undo c
  where
    undo : (d : ℕ) → bit_xor a (bit_xor a d) ≡ d
    undo d = sym (xor_assoc a a d) ∙ ap (λ t. bit_xor t d) (xor_self a) ∙ zero-xor d

mul-pow_double : (q k : ℕ) → q * 2 ^ suc k ≡ q * 2 ^ k * 2
mul-pow_double q k = omega (arith, ap (λ (t : ℕ). q * t) (pow-suc 2 k))

-- Below a power of two the result stays below it.
pub xor_lt_pow : (k a b : ℕ) → a < 2 ^ k → b < 2 ^ k → bit_xor a b < 2 ^ k
xor_lt_pow zero zero zero h g = h
xor_lt_pow zero zero (suc b) h g = absurd (omega arith)
xor_lt_pow zero (suc a) b h g = absurd (omega arith)
xor_lt_pow (suc k) a b h g = omega (
  arith,
  pow-suc 2 k,
  xor_step a b,
  xor_lt_pow k (a / 2) (b / 2) (omega (arith, pow-suc 2 k)) (omega (arith, pow-suc 2 k)),
)

-- The operation on two numbers, each cut into a high field and `k` low bits.
pub xor_fields :
    (k q r q' r' : ℕ)
    → r < 2 ^ k
    → r' < 2 ^ k
    → bit_xor (q * 2 ^ k + r) (q' * 2 ^ k + r') ≡ bit_xor q q' * 2 ^ k + bit_xor r r'
xor_fields zero q zero q' zero h h' = ground (arith, xor_self 0)
xor_fields zero q zero q' (suc r') h h' = absurd (omega arith)
xor_fields zero q (suc r) q' r' h h' = absurd (omega arith)
xor_fields (suc k) q r q' r' h h' = ground (
  arith,
  xor_step (q * 2 ^ suc k + r) (q' * 2 ^ suc k + r'),
  xor_step r r',
  mul-pow_double q k,
  mul-pow_double q' k,
  mul-pow_double (bit_xor q q') k,
  pow-suc 2 k,
  xor_fields k q (r / 2) q' (r' / 2),
)
