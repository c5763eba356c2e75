-- ===== src/Coder/Update.antt =====
-- ArithmeticCoderBase::update as a whole: it ends, and it takes the symbol's share of the interval.
use soc.Common.{
  ℕ, suc, ◌+◌, ◌-◌, ◌*◌, ◌/◌, ◌%◌, ◌^◌, ◌≤◌, ◌<◌, ◌≡◌, refl, ap, ◌∙◌, some, arith, ◌==◌, false,
}
use soc.Common.Effects.{returns}
use soc.Coder.{
  ArithmeticEncoder, Symbol, quarter_range, narrow, range_of, update, shift_loop, underflow_loop,
}
use soc.Coder.Interval.{Interval, parts, share, finer}
use soc.Coder.Rescale.{IsEncoder, Rescales, interval}
use soc.Coder.Loops.{IsAround, Fuel, Rescales-trans, shift_loop_lem}
use soc.Coder.Underflow.{underflow_loop_lem}
use native.Mathlib.Nat.{
  le-div_iff_mul-le, div-lt_iff_lt-mul, div-mul-le_self, mul-le-mul_right, mul-le-mul,
}

-- A symbol with a share, of at most `minimumRange` parts.
pub record IsSymbol (s : Symbol) : Type 0 where
  pub some_share : s.sym_low < s.sym_high
  pub inside : s.sym_high ≤ s.total
  pub few : s.total ≤ 1073741826

-- The encoder between two symbols.
pub record IsReady (e : ArithmeticEncoder) : Type 0 where
  pub encoder : IsEncoder e
  pub around : IsAround e
  pub wide : quarter_range + 1 < (interval e).width

pub div-lt-div : (a b r t : ℕ) → 0 < t → t ≤ r → a < b → a * r / t < b * r / t
div-lt-div a b r t pos few less =
    (le-div_iff_mul-le pos).1
      (omega (arith, div-mul-le_self (a * r) t, mul-le-mul_right r less, few))

pub div-le-width : (b r t : ℕ) → 0 < t → b ≤ t → b * r / t ≤ r
div-le-width b r t pos few =
    let below : b * r / t < suc r =
      (div-lt_iff_lt-mul pos).1 (omega (arith, mul-le-mul_right r few, pos)) in
    omega (arith, below)

module _ (e : ArithmeticEncoder) (s : Symbol) (r : IsReady e) (v : IsSymbol s) where
  range_width : range_of e ≡ (interval e).width
  unfolding range_of
  range_width = omega (arith, r.encoder.pair.ordered, r.encoder.pair.small)

  -- The products of the source fit into 64 bits.
  part_fits : (x : ℕ) → x ≤ 1073741826 → x * range_of e % 2 ^ 64 / s.total ≡ parts x s (interval e)
  part_fits x small =
      ap (λ (w : ℕ). x * w % 2 ^ 64 / s.total) range_width ∙ ap (λ (m : ℕ). m / s.total) whole
    where
      whole : x * (interval e).width % 2 ^ 64 ≡ x * (interval e).width
      whole = omega (
        arith,
        mul-le-mul {n₁ = x} {m₁ = (interval e).width} {n₂ = 1073741826} {m₂ = 4294967296} small
            (omega (arith, r.encoder.pair.small)),
      )

  parts_ordered : parts s.sym_low s (interval e) < parts s.sym_high s (interval e)
  parts_ordered =
      div-lt-div s.sym_low s.sym_high (interval e).width s.total
        (omega (arith, v.some_share, v.inside)) (omega (arith, v.few, r.wide)) v.some_share

  parts_bounded : parts s.sym_high s (interval e) ≤ (interval e).width
  parts_bounded =
      div-le-width s.sym_high (interval e).width s.total (omega (arith, v.some_share, v.inside))
        v.inside

  narrow_low : (narrow s.total s.sym_low s.sym_high e).low ≡ e.low + parts s.sym_low s (interval e)
  unfolding narrow
  narrow_low =
      ap (λ x. (e.low + x) % 2 ^ 64)
        (part_fits s.sym_low (omega (arith, v.some_share, v.inside, v.few)))
      ∙ omega (arith, parts_ordered, parts_bounded, r.encoder.pair.ordered, r.encoder.pair.small)

  narrow_high :
      (narrow s.total s.sym_low s.sym_high e).high + 1 ≡ e.low + parts s.sym_high s (interval e)
  unfolding narrow
  narrow_high =
      ap (λ x. (e.low + x + 2 ^ 64 - 1) % 2 ^ 64 + 1)
        (part_fits s.sym_high (omega (arith, v.inside, v.few)))
      ∙ omega (arith, parts_ordered, parts_bounded, r.encoder.pair.ordered, r.encoder.pair.small)

  narrowed : ArithmeticEncoder
  narrowed = narrow s.total s.sym_low s.sym_high e

  narrowed-IsEncoder : IsEncoder narrowed
  unfolding narrowed narrow
  narrowed-IsEncoder = record {
    pair = record {
      ordered = omega (arith, narrow_low, narrow_high, parts_ordered);
      small = omega (
        arith, narrow_low, narrow_high, parts_bounded, r.encoder.pair.ordered, r.encoder.pair.small,
      );
    };
    stream = r.encoder.stream;
  }

  narrowed_lowest : (interval narrowed).lowest ≡ (share s (interval e)).lowest
  unfolding narrowed narrow
  narrowed_lowest = omega (arith, narrow_low)

  narrowed_width : (interval narrowed).width ≡ (share s (interval e)).width
  unfolding narrowed
  narrowed_width = omega (arith, narrow_low, narrow_high, parts_ordered)

  narrowed_pos : 0 < (interval narrowed).width
  narrowed_pos = omega arith

module _ (e : ArithmeticEncoder) (s : Symbol) (r : IsReady e) (v : IsSymbol s) where
  narrowed_scale : (interval (narrowed e s r v)).scale ≡ (interval e).scale
  unfolding narrowed narrow
  narrowed_scale = refl

  narrowed_underflow : (narrowed e s r v).num_underflow ≡ e.num_underflow
  unfolding narrowed narrow
  narrowed_underflow = refl

shift_narrowed :
    (fuel : ℕ) (e : ArithmeticEncoder) (s : Symbol) (r : IsReady e) (v : IsSymbol s)
    → shift_loop fuel (narrow s.total s.sym_low s.sym_high e) ≡ shift_loop fuel (narrowed e s r v)
unfolding narrowed
shift_narrowed fuel e s r v = refl

interval_eq : (i j : Interval) → i.lowest ≡ j.lowest → i.width ≡ j.width → i.scale ≡ j.scale → i ≡ j
interval_eq i j l w s = ground arith

-- What one symbol does to an encoder.
pub record Coded (s : Symbol) (e e' : ArithmeticEncoder) : Type 0 where
  pub ready : IsReady e'
  pub factor : ℕ
  pub positive : 0 < factor
  pub taken : interval e' ≡ finer factor (share s (interval e))
  pub few : e'.num_underflow ≤ e.num_underflow + 32

Fuel-32 : (e : ArithmeticEncoder) → 0 < (interval e).width → Fuel 32 e
Fuel-32 e w = omega (arith, w)

update_step :
    (fuel : ℕ) (s : Symbol) (e e1 e' : ArithmeticEncoder)
    → 0 < s.total
    → shift_loop fuel (narrow s.total s.sym_low s.sym_high e) ≡ returns (some e1)
    → underflow_loop fuel e1 ≡ some e'
    → update fuel s e ≡ returns (some e')
unfolding update
update_step fuel s e e1 e' pos r r' =
    let test : (s.total == 0) ≡ false = ground arith in rw (test, r, r') refl

finer_taken :
    (k : ℕ) (e e1 e' : ArithmeticEncoder) (s : Symbol)
    → (interval e1).lowest ≡ (share s (interval e)).lowest
    → (interval e1).width ≡ (share s (interval e)).width
    → (interval e1).scale ≡ (interval e).scale
    → Rescales k e1 e'
    → interval e' ≡ finer k (share s (interval e))
finer_taken k e e1 e' s lowest width scale r =
    interval_eq _ _ (r.lowest ∙ ap (λ t. k * t) lowest) (r.width ∙ ap (λ t. k * t) width)
      (r.scale ∙ ap (λ t. k * t) scale)

-- A symbol takes its share of the encoder's interval.
pub update_lem :
    (e : ArithmeticEncoder) (s : Symbol)
    → IsReady e
    → IsSymbol s
    → e.num_underflow + 32 < 2 ^ 64
    → (e' : ArithmeticEncoder) × (update 33 s e ≡ returns (some e')) × Coded s e e'
update_lem e s r v room =
    let (e1, k, r1, first, around, few) =
      shift_loop_lem 32 (narrowed e s r v) (narrowed-IsEncoder e s r v)
        (Fuel-32 (narrowed e s r v) (narrowed_pos e s r v)) in
    let (e', l, r2, second, around', wide, few') =
      underflow_loop_lem 32 e1 first.encoder around (Fuel-32 e1 (omega arith))
        (omega (arith, few, room, narrowed_underflow e s r v)) in
    (
      e',
      update_step 33 s e e1 e' (omega (arith, v.some_share, v.inside))
          (shift_narrowed 33 e s r v ∙ r1) r2,
      record {
        ready = record { encoder = second.encoder; around = around'; wide = wide };
        factor = l * k;
        positive = (Rescales-trans first second).positive;
        taken =
            finer_taken (l * k) e (narrowed e s r v) e' s (narrowed_lowest e s r v)
              (narrowed_width e s r v) (narrowed_scale e s r v) (Rescales-trans first second);
        few = omega (arith, few', few, narrowed_underflow e s r v);
      },
    )
