-- ===== src/Coder/Decode.antt =====
-- What the bytes of an encoded message say: read as a fraction, they lie in the share of every symbol.
use soc.Common.{
  ℕ, suc, ◌+◌, ◌-◌, ◌*◌, ◌^◌, ◌≤◌, ◌<◌, ◌≡◌, refl, ap, subst, ◌∙◌, List, [], ◌∷◌, length, All, some,
  arith,
}
use soc.Common.Effects.{returns}
use soc.Coder.{ArithmeticEncoder, BitOutputStream, Symbol, update, write_symbols, half_range}
use soc.Coder.Stream.{Appends, value, bit_count}
use soc.Coder.Interval.{Interval, Inside, Decodes, parts, share, finer}
use soc.Coder.Rescale.{interval, pow_add}
use soc.Coder.Update.{IsSymbol, IsReady, update_lem, div-lt-div, div-le-width}
use native.Mathlib.Nat.{
  pow-suc, one-le-pow, mul-le-mul_right, le_of_mul-le-mul_left, lt_of_mul-lt-mul_left, mul_assoc,
  mul_left_comm, mul-lt-mul_of_pos_right,
}

-- Finer units do not change an interval.
Inside-coarser : (c d k : ℕ) (i : Interval) → 0 < k → Inside c d (finer k i) → Inside c d i
Inside-coarser c d k i pos h = record {
  above =
      le_of_mul-le-mul_left {m = i.lowest * d} {n = c * i.scale} {k = k}
        (rw (← mul_assoc k i.lowest d) (rw (mul_left_comm k c i.scale) h.above)) pos;
  below =
      lt_of_mul-lt-mul_left k {m = c * i.scale} {n = (i.lowest + i.width) * d}
        (rw (mul_left_comm k c i.scale) (omega (arith, h.below, whole)));
}
  where
    whole : (k * i.lowest + k * i.width) * d ≡ k * ((i.lowest + i.width) * d)
    whole = grind arith

-- A share lies in its interval.
Inside-share :
    (c d : ℕ) (i : Interval) (s : Symbol)
    → IsSymbol s
    → s.total ≤ i.width
    → Inside c d (share s i)
    → Inside c d i
Inside-share c d i s v wide h =
    let pos : 0 < s.total = omega (arith, v.some_share, v.inside) in
    let bounded = div-le-width s.sym_high i.width s.total pos v.inside in
    let ordered = div-lt-div s.sym_low s.sym_high i.width s.total pos wide v.some_share in
    record {
      above = omega (
        arith,
        h.above,
        mul-le-mul_right {m = i.lowest} {n = i.lowest + parts s.sym_low s i} d (omega arith),
      );
      below = omega (
        arith,
        h.below,
        mul-le-mul_right
            {m = i.lowest + parts s.sym_low s i + (parts s.sym_high s i - parts s.sym_low s i)}
            {n = i.lowest + i.width} d (omega (arith, bounded, ordered)),
      );
    }

pub write_symbols_step :
    (fuel : ℕ) (s : Symbol) (symbols : List Symbol) (e e1 e' : ArithmeticEncoder)
    → update fuel s e ≡ returns (some e1)
    → write_symbols fuel symbols e1 ≡ returns (some e')
    → write_symbols fuel (s ∷ symbols) e ≡ returns (some e')
unfolding write_symbols
write_symbols_step fuel s symbols e e1 e' r r' = rw (r, r') refl

pub write_symbols_end :
    (fuel : ℕ) (e : ArithmeticEncoder) → write_symbols fuel [] e ≡ returns (some e)
unfolding write_symbols
write_symbols_end fuel e = refl

-- 32 underflows at most for each symbol are counted in 64 bits.
abbrev pub Counted : List Symbol → ArithmeticEncoder → Type 0
Counted symbols e = e.num_underflow + 32 * length symbols < 2 ^ 64

pub write_symbols_lem :
    (symbols : List Symbol) (e : ArithmeticEncoder)
    → IsReady e
    → All IsSymbol symbols
    → Counted symbols e
    → (e' : ArithmeticEncoder) × (write_symbols 33 symbols e ≡ returns (some e'))
      × IsReady e'
      × (e'.num_underflow ≤ e.num_underflow + 32 * length symbols)
      × ((c d : ℕ)
          → Inside c d (interval e')
          → Inside c d (interval e) × Decodes c d (interval e) symbols)
write_symbols_lem [] e r v n =
    (e, write_symbols_end 33 e, r, omega arith, λ c d h. (h, Decodes.end h))
write_symbols_lem (s ∷ symbols) e r v n =
    let (e1, r1, coded) = update_lem e s r v.0 (omega (arith, n)) in
    let (e', r2, ready, few, back) =
      write_symbols_lem symbols e1 coded.ready v.1 (omega (arith, n, coded.few)) in
    (
      e',
      write_symbols_step 33 s symbols e e1 e' r1 r2,
      ready,
      omega (arith, few, coded.few),
      λ c d h.
          let (inside, rest) = back c d h in
          let taken : Inside c d (share s (interval e)) =
            Inside-coarser c d coded.factor (share s (interval e)) coded.positive
              (subst (Inside c d) coded.taken inside) in
          (
            Inside-share c d (interval e) s v.0 (omega (arith, v.0.few, r.wide)) taken,
            Decodes.next taken coded.factor coded.taken coded.ready.wide rest,
          ),
    )

-- `1` and `m` zeros after the bits of an encoder whose bounds lie on either side of the middle.
finish_above :
    (l v n p m : ℕ)
    → l < half_range
    → 0 < p
    → (4294967296 * (v * p) + l + 2147483648 * (p - 1)) * (2 * n * m)
      ≤ (v * 2 + 1) * m * (4294967296 * (n * p))
finish_above l v n p m low pos = grind (arith, mul-le-mul_right (n * m) fits)
  where
    fits : 2 * (4294967296 * (v * p) + l + 2147483648 * (p - 1)) ≤ (v * 2 + 1) * (4294967296 * p)
    fits = grind (arith, low, pos)

finish_below :
    (l h v n p m : ℕ)
    → l ≤ h
    → half_range ≤ h
    → 0 < p
    → 0 < n * m
    → (v * 2 + 1) * m * (4294967296 * (n * p))
      < (4294967296 * (v * p) + l + 2147483648 * (p - 1) + (h - l + 1)) * (2 * n * m)
finish_below l h v n p m ordered high pos some_bits =
    grind (arith, mul-lt-mul_of_pos_right fits some_bits)
  where
    fits :
        (v * 2 + 1) * (4294967296 * p)
        < 2 * (4294967296 * (v * p) + l + 2147483648 * (p - 1) + (h - l + 1))
    fits = grind (arith, ordered, high, pos)

module _ (e : ArithmeticEncoder) (r : IsReady e) (out1 out' : BitOutputStream) (k : ℕ)
    (one_bit : Appends e.output out1 1 1) (zeros : Appends out1 out' k 0) where
  finished_value : value out' ≡ (value e.output * 2 + 1) * 2 ^ k
  finished_value = zeros.valued ∙ ap (λ t. t * 2 ^ k + 0) one_bit.valued ∙ omega arith

  finished_count : 2 ^ bit_count out' ≡ 2 * 2 ^ bit_count e.output * 2 ^ k
  finished_count =
      ap (λ (n : ℕ). 2 ^ n) count
      ∙ pow_add (suc (bit_count e.output)) k
      ∙ ap (λ (t : ℕ). t * 2 ^ k) (pow-suc 2 (bit_count e.output) ∙ omega arith)
    where
      count : bit_count out' ≡ suc (bit_count e.output) + k
      count = omega (arith, one_bit.counted, zeros.counted)

  pow_pos : (n : ℕ) → 0 < 2 ^ n
  pow_pos n = one-le-pow n 2 (omega arith)

  pub Inside-finished : Inside (value out') (2 ^ bit_count out') (interval e)
  Inside-finished = record {
    above =
        rw (finished_value, finished_count)
          (finish_above e.low (value e.output) (2 ^ bit_count e.output) (2 ^ e.num_underflow)
            (2 ^ k) r.around.low_half (pow_pos e.num_underflow));
    below =
        rw (finished_value, finished_count)
          (finish_below e.low e.high (value e.output) (2 ^ bit_count e.output) (2 ^ e.num_underflow)
            (2 ^ k) r.encoder.pair.ordered r.around.high_half (pow_pos e.num_underflow)
            (rw (← pow_add (bit_count e.output) k) (pow_pos (bit_count e.output + k))));
  }
