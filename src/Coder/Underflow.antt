-- ===== src/Coder/Underflow.antt =====
-- The second loop of ArithmeticCoderBase::update ends, and leaves the encoder's interval as it is, in
-- finer units.
use soc.Common.{
  ℕ, zero, suc, ◌+◌, ◌*◌, ◌%◌, ◌^◌, ◌≤◌, ◌<◌, ◌≡◌, refl, inl, inr, some, ◌⊎◌, true, false, arith,
}
use soc.Coder.{
  ArithmeticEncoder, half_range, quarter_range, double_inside, underflow, underflow_loop, apart,
}
use soc.Coder.Bits.{IsMiddle, apart_cases, double_inside_low, double_inside_high}
use soc.Coder.Stream.{value, bit_count}
use soc.Coder.Rescale.{IsEncoder, Rescales, interval}
use native.Mathlib.Nat.{pow-suc, one-le-pow}
use soc.Coder.Loops.{Rescales-self, Rescales-trans, IsAround, Fuel, Fuel-next}

-- One round of the second loop.
underflow-Rescales :
    (e : ArithmeticEncoder)
    → IsEncoder e
    → IsMiddle e
    → suc e.num_underflow < 2 ^ 64
    → Rescales 2 e (double_inside (underflow e))
unfolding underflow double_inside
underflow-Rescales e i m u = record {
  encoder = record {
    pair = record { ordered = omega (arith, low, high); small = omega (arith, high) };
    stream = i.stream;
  };
  positive = omega arith;
  lowest = omega (arith, low, more, valued, one-le-pow e.num_underflow 2 (omega arith));
  width = omega (arith, low, high);
  scale = omega (arith, more, scaled);
}
  where
    middle : IsMiddle (underflow e)
    middle = record {
      low_quarter = m.low_quarter;
      low_half = m.low_half;
      high_half = m.high_half;
      high_quarter = m.high_quarter;
    }

    low : (double_inside (underflow e)).low + half_range ≡ e.low * 2
    low = omega (arith, double_inside_low (underflow e) middle, m.low_quarter)

    high : (double_inside (underflow e)).high + half_range ≡ e.high * 2 + 1
    high = omega (arith, double_inside_high (underflow e) middle, m.high_half)

    next : (e.num_underflow + 1) % 2 ^ 64 ≡ suc e.num_underflow
    next = omega (arith, u)

    more : 2 ^ ((e.num_underflow + 1) % 2 ^ 64) ≡ 2 * 2 ^ e.num_underflow
    more = rw next (omega (arith, pow-suc 2 e.num_underflow))

    valued :
        value e.output * 2 ^ ((e.num_underflow + 1) % 2 ^ 64)
        ≡ 2 * (value e.output * 2 ^ e.num_underflow)
    valued = rw more (omega arith)

    scaled :
        2 ^ bit_count e.output * 2 ^ ((e.num_underflow + 1) % 2 ^ 64)
        ≡ 2 * (2 ^ bit_count e.output * 2 ^ e.num_underflow)
    scaled = rw more (omega arith)

-- The second loop ends with more than a quarter of the range between the bounds.
abbrev pub UnderflowEnds : ℕ → ℕ → ArithmeticEncoder → Type 0
UnderflowEnds fuel room e =
    (e' : ArithmeticEncoder) × (k : ℕ) × (underflow_loop fuel e ≡ some e')
    × Rescales k e e'
    × IsAround e'
    × (quarter_range + 1 < (interval e').width)
    × (e'.num_underflow ≤ e.num_underflow + room)

underflow_stops :
    (fuel room : ℕ) (e : ArithmeticEncoder)
    → IsEncoder e
    → IsAround e
    → apart e ≡ true
    → (e.low < quarter_range) ⊎ (half_range + quarter_range ≤ e.high)
    → UnderflowEnds (suc fuel) room e
unfolding underflow_loop
underflow_stops fuel room e i around test wide = (
  e,
  1,
  rw test refl,
  Rescales-self e i,
  around,
  ground (arith, around.low_half, around.high_half, i.pair.ordered),
  omega arith,
)

IsMiddle-underflow : (e : ArithmeticEncoder) → IsMiddle e → IsMiddle (underflow e)
unfolding underflow
IsMiddle-underflow e m = record {
  low_quarter = m.low_quarter;
  low_half = m.low_half;
  high_half = m.high_half;
  high_quarter = m.high_quarter;
}

IsAround-double_inside :
    (e : ArithmeticEncoder) → IsMiddle e → IsAround (double_inside (underflow e))
unfolding underflow
IsAround-double_inside e m = record {
  low_half = omega (arith, double_inside_low (underflow e) (IsMiddle-underflow e m), m.low_half);
  high_half = omega (arith, double_inside_high (underflow e) (IsMiddle-underflow e m), m.high_half);
}

underflow_again :
    (fuel : ℕ) (e : ArithmeticEncoder)
    → IsEncoder e
    → IsMiddle e
    → Fuel (suc fuel) e
    → e.num_underflow + suc fuel < 2 ^ 64
    → ((e1 : ArithmeticEncoder)
        → IsEncoder e1
        → IsAround e1
        → Fuel fuel e1
        → e1.num_underflow + fuel < 2 ^ 64
        → UnderflowEnds (suc fuel) fuel e1)
    → apart e ≡ false
    → UnderflowEnds (suc (suc fuel)) (suc fuel) e
unfolding underflow_loop
underflow_again fuel e i m f u ih test =
    let step = underflow-Rescales e i m (omega (arith, u)) in
    let (e', k, r, rest, around, wide, few) =
      ih (double_inside (underflow e)) step.encoder (IsAround-double_inside e m)
        (Fuel-next fuel e _ step f) (omega (arith, underflow_count e u)) in
    (
      e',
      k * 2,
      rw (test, r) refl,
      Rescales-trans step rest,
      around,
      wide,
      omega (arith, few, underflow_count e u),
    )
  where
    underflow_count :
        (e : ArithmeticEncoder)
        → e.num_underflow + suc fuel < 2 ^ 64
        → (e.num_underflow + 1) % 2 ^ 64 ≡ e.num_underflow + 1
    underflow_count e u = omega (arith, u)

pub underflow_loop_lem :
    (fuel : ℕ) (e : ArithmeticEncoder)
    → IsEncoder e
    → IsAround e
    → Fuel fuel e
    → e.num_underflow + fuel < 2 ^ 64
    → UnderflowEnds (suc fuel) fuel e
unfolding underflow_loop
underflow_loop_lem zero e i around f u =
    elim (apart_cases e i.pair around.low_half around.high_half) [
      | inl (test, wide) ↦ underflow_stops 0 0 e i around test wide
      | inr (test, l, h) ↦
          absurd (omega (arith, f, around.low_half, around.high_half, i.pair.ordered))
    ]
underflow_loop_lem (suc fuel) e i around f u =
    elim (apart_cases e i.pair around.low_half around.high_half) [
      | inl (test, wide) ↦ underflow_stops (suc fuel) (suc fuel) e i around test wide
      | inr (test, l, h) ↦
          underflow_again fuel e i
            (record {
              low_quarter = l;
              low_half = around.low_half;
              high_half = around.high_half;
              high_quarter = h;
            })
            f u (underflow_loop_lem fuel) test
    ]
