-- ===== src/Coder/Rescale.antt =====
-- The two loops of ArithmeticCoderBase::update: they end, and they leave the interval as it is, in
-- finer units.
use soc.Common.{ℕ, zero, suc, ◌+◌, ◌-◌, ◌*◌, ◌/◌, ◌^◌, ◌<◌, ◌≡◌, refl, ap, ◌∙◌, arith, bit_xor}
use soc.Common.Effects.{returns}
use soc.Coder.{ArithmeticEncoder, BitOutputStream, shift, double}
use soc.Coder.Bits.{IsPair, double_low, double_high}
use soc.Coder.Interval.{Interval}
use soc.Coder.Stream.{IsStream, Appends, value, bit_count, write_lem, write_times_lem, run_value}
use native.Mathlib.Nat.{pow-suc, one-le-pow}

-- The interval that the encoder stands for: the bits written, the pending underflows and the bounds.
abbrev pub interval : ArithmeticEncoder → Interval
interval e = record {
  lowest =
      4294967296 * (value e.output * 2 ^ e.num_underflow)
      + e.low
      + 2147483648 * (2 ^ e.num_underflow - 1);
  width = e.high - e.low + 1;
  scale = 4294967296 * (2 ^ bit_count e.output * 2 ^ e.num_underflow);
}

pub record IsEncoder (e : ArithmeticEncoder) : Type 0 where
  pub pair : IsPair e
  pub stream : IsStream e.output

pub pow_add : (m n : ℕ) → 2 ^ (m + n) ≡ 2 ^ m * 2 ^ n
pow_add m zero = let same : m + 0 ≡ m = omega arith in rw same (omega arith)
pow_add m (suc n) =
    let next : m + suc n ≡ suc (m + n) = omega arith in
    rw next (omega (arith, pow-suc 2 (m + n), ap (λ (t : ℕ). 2 ^ m * t) (pow-suc 2 n), pow_add m n))

-- The bits that `shift` writes: `b`, then the pending ones.
shift_value :
    (v b u : ℕ)
    → b < 2
    → (v * 2 ^ 1 + b) * 2 ^ u + run_value u (1 - b) ≡ 2 * (v * 2 ^ u) + (2 ^ u - 1) + b
unfolding run_value
shift_value v zero u h = omega (arith, one-le-pow u 2 (omega arith))
shift_value v (suc zero) u h = grind (arith, one-le-pow u 2 (omega arith))
shift_value v (suc (suc b)) u h = absurd (omega arith)

pub flip_bit : (b : ℕ) → b < 2 → bit_xor b 1 ≡ 1 - b
flip_bit zero h = refl
flip_bit (suc zero) h = refl
flip_bit (suc (suc b)) h = absurd (omega arith)

-- The interval of `e'` is that of `e` in units `k` times as fine.
pub record Rescales (k : ℕ) (e e' : ArithmeticEncoder) : Type 0 where
  pub encoder : IsEncoder e'
  pub positive : 0 < k
  pub lowest : (interval e').lowest ≡ k * (interval e).lowest
  pub width : (interval e').width ≡ k * (interval e).width
  pub scale : (interval e').scale ≡ k * (interval e).scale

-- The encoder that has written its bits.
abbrev pub flushed : ArithmeticEncoder → BitOutputStream → ArithmeticEncoder
flushed e out = record e { num_underflow = 0; output = out }

module _ (e : ArithmeticEncoder) (b : ℕ) (out1 out' : BitOutputStream) (i : IsEncoder e)
    (bit : b < 2) (low_bit : e.low / 2147483648 ≡ b) (high_bit : e.high / 2147483648 ≡ b)
    (first : Appends e.output out1 1 b)
    (pending : Appends out1 out' e.num_underflow (run_value e.num_underflow (1 - b))) where
  flushed-IsPair : IsPair (flushed e out')
  flushed-IsPair = record { ordered = i.pair.ordered; small = i.pair.small }

  flushed_low : (double (flushed e out')).low + 4294967296 * b ≡ 2 * e.low
  flushed_low =
      omega
        (arith, double_low (flushed e out') flushed-IsPair, low_bit, i.pair.ordered, i.pair.small)

  flushed_high : (double (flushed e out')).high + 4294967296 * b ≡ 2 * e.high + 1
  flushed_high =
      omega
        (arith, double_high (flushed e out') flushed-IsPair, high_bit, i.pair.ordered, i.pair.small)

  flushed_value :
      value out' ≡ 2 * (value e.output * 2 ^ e.num_underflow) + (2 ^ e.num_underflow - 1) + b
  flushed_value =
      pending.valued
      ∙ ap (λ t. t * 2 ^ e.num_underflow + run_value e.num_underflow (1 - b)) first.valued
      ∙ shift_value (value e.output) b e.num_underflow bit

  flushed_count : 2 ^ bit_count out' ≡ 2 * (2 ^ bit_count e.output * 2 ^ e.num_underflow)
  flushed_count =
      ap (λ (k : ℕ). 2 ^ k) count
      ∙ omega (
        arith,
        pow-suc 2 (bit_count e.output + e.num_underflow),
        pow_add (bit_count e.output) e.num_underflow,
      )
    where
      count : bit_count out' ≡ suc (bit_count e.output + e.num_underflow)
      count = omega (arith, first.counted, pending.counted)

  flushed-Rescales : Rescales 2 e (double (flushed e out'))
  unfolding double
  flushed-Rescales = record {
    encoder = record {
      pair = record {
        ordered = omega (arith, flushed_low, flushed_high, i.pair.ordered);
        small = omega (arith, flushed_high, high_bit);
      };
      stream = pending.stream;
    };
    positive = omega arith;
    lowest = omega (arith, flushed_low, flushed_value);
    width = omega (arith, flushed_low, flushed_high, i.pair.ordered);
    scale = omega (arith, flushed_count);
  }

-- One round of the first loop, on bounds with the same top bit.
pub shift-Rescales :
    (e : ArithmeticEncoder)
    → IsEncoder e
    → e.high / 2147483648 ≡ e.low / 2147483648
    → (out' : BitOutputStream) × (shift e ≡ returns (flushed e out'))
      × Rescales 2 e (double (flushed e out'))
unfolding shift
shift-Rescales e i same =
    let bit : e.low / 2147483648 < 2 = omega (arith, i.pair.ordered, i.pair.small) in
    let (out1, r1, a1) = write_lem (e.low / 2147483648) e.output bit i.stream in
    let (out', r', a') =
      write_times_lem e.num_underflow (1 - e.low / 2147483648) out1 (omega arith) a1.stream in
    (
      out',
      rw (r1, flip_bit (e.low / 2147483648) bit, r') refl,
      flushed-Rescales e (e.low / 2147483648) out1 out' i bit refl same a1 a',
    )
