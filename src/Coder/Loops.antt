-- ===== src/Coder/Loops.antt =====
-- The first loop of ArithmeticCoderBase::update ends, and leaves the encoder's interval as it is, in
-- finer units; and what its proof shares with the second.
use soc.Common.{
  ℕ, zero, suc, ◌*◌, ◌/◌, ◌^◌, ◌≤◌, ◌<◌, ◌≡◌, refl, sym, ap, ◌∙◌, inl, inr, some, true, false,
  arith,
}
use soc.Common.Effects.{returns}
use soc.Coder.{ArithmeticEncoder, half_range, double, shift_loop, same_top}
use soc.Coder.Bits.{same_top_cases}
use soc.Coder.Rescale.{IsEncoder, Rescales, interval, shift-Rescales, flushed}
use native.Mathlib.Nat.{pow-suc, mul_assoc}

pub Rescales-self : (e : ArithmeticEncoder) → IsEncoder e → Rescales 1 e e
Rescales-self e i = record {
  encoder = i;
  positive = omega arith;
  lowest = omega arith;
  width = omega arith;
  scale = omega arith;
}

pub Rescales-trans :
    {k l : ℕ} {e e1 e2 : ArithmeticEncoder}
    → Rescales k e e1
    → Rescales l e1 e2
    → Rescales (l * k) e e2
Rescales-trans {k} {l} {e} {e1} {e2} r s = record {
  encoder = s.encoder;
  positive = grind (arith, r.positive, s.positive);
  lowest = s.lowest ∙ ap (λ t. l * t) r.lowest ∙ sym (mul_assoc l k (interval e).lowest);
  width = s.width ∙ ap (λ t. l * t) r.width ∙ sym (mul_assoc l k (interval e).width);
  scale = s.scale ∙ ap (λ t. l * t) r.scale ∙ sym (mul_assoc l k (interval e).scale);
}

width_double : (w n : ℕ) → w * 2 ^ suc n ≡ 2 * w * 2 ^ n
width_double w n = omega (arith, ap (λ (t : ℕ). w * t) (pow-suc 2 n))

-- The bounds on either side of the middle.
pub record IsAround (e : ArithmeticEncoder) : Type 0 where
  pub low_half : e.low < half_range
  pub high_half : half_range ≤ e.high

-- Doublings left until the interval is wider than half the range.
abbrev pub Fuel : ℕ → ArithmeticEncoder → Type 0
Fuel fuel e = half_range < (interval e).width * 2 ^ fuel

-- The first loop ends with the bounds on either side of the middle.
abbrev pub ShiftEnds : ℕ → ArithmeticEncoder → Type 0
ShiftEnds fuel e =
    (e' : ArithmeticEncoder) × (k : ℕ) × (shift_loop fuel e ≡ returns (some e'))
    × Rescales k e e'
    × IsAround e'
    × (e'.num_underflow ≤ e.num_underflow)

pub Fuel-next :
    (fuel : ℕ) (e e1 : ArithmeticEncoder) → Rescales 2 e e1 → Fuel (suc fuel) e → Fuel fuel e1
Fuel-next fuel e e1 r f = rw r.width (rw (← width_double (interval e).width fuel) f)

shift_stops :
    (fuel : ℕ) (e : ArithmeticEncoder)
    → IsEncoder e
    → same_top e ≡ false
    → e.low < half_range
    → half_range ≤ e.high
    → ShiftEnds (suc fuel) e
unfolding shift_loop
shift_stops fuel e i other l h =
    (e, 1, rw other refl, Rescales-self e i, record { low_half = l; high_half = h }, omega arith)

shift_again :
    (fuel : ℕ) (e : ArithmeticEncoder)
    → IsEncoder e
    → Fuel (suc fuel) e
    → ((e1 : ArithmeticEncoder) → IsEncoder e1 → Fuel fuel e1 → ShiftEnds (suc fuel) e1)
    → same_top e ≡ true
    → e.high / 2147483648 ≡ e.low / 2147483648
    → ShiftEnds (suc (suc fuel)) e
unfolding shift_loop double
shift_again fuel e i f ih test same =
    let (out', r1, step) = shift-Rescales e i same in
    let (e', k, r2, rest, around, few) =
      ih (double (flushed e out')) step.encoder (Fuel-next fuel e _ step f) in
    (e', k * 2, rw (test, r1, r2) refl, Rescales-trans step rest, around, omega (arith, few))

pub shift_loop_lem :
    (fuel : ℕ) (e : ArithmeticEncoder) → IsEncoder e → Fuel fuel e → ShiftEnds (suc fuel) e
shift_loop_lem zero e i f = elim (same_top_cases e i.pair) [
  | inl (same, below) ↦ absurd (omega (arith, f, i.pair.ordered))
  | inr (inl (same, above)) ↦ absurd (omega (arith, f, i.pair.small))
  | inr (inr (other, l, h)) ↦ shift_stops 0 e i other l h
]
shift_loop_lem (suc fuel) e i f = elim (same_top_cases e i.pair) [
  | inl (same, below) ↦
      shift_again fuel e i f (shift_loop_lem fuel) same (omega (arith, i.pair.ordered))
  | inr (inl (same, above)) ↦
      shift_again fuel e i f (shift_loop_lem fuel) same
        (omega (arith, i.pair.ordered, i.pair.small))
  | inr (inr (other, l, h)) ↦ shift_stops (suc fuel) e i other l h
]
