-- ===== src/Coder/Codings/Space.antt =====
-- How long the code gets: at most 32 bits for a symbol, so the memory that `codings` allocates holds
-- it.
use soc.Common.{
  ℕ, suc, zero, ◌+◌, ◌-◌, ◌*◌, ◌^◌, ◌≤◌, ◌<◌, ◌≡◌, refl, ap, sym, subst, ◌∙◌, List, [], ◌∷◌, length,
  All, Bool-cases, inl, inr, leb, ◌==◌, some, arith,
}
use soc.Common.Effects.{returns, >?>-some, some_of_returns}
use soc.Coder.{
  ArithmeticEncoder, BitOutputStream, Symbol, new_encoder, finish, finish_stream, write_symbols,
  encode_symbols,
}
use soc.Coder.Stream.{IsStream, bit_count, write_lem}
use soc.Coder.Interval.{Interval, parts}
use soc.Coder.Rescale.{interval, pow_add}
use soc.Coder.Update.{IsSymbol, IsReady, Coded, update_lem}
use soc.Coder.Decode.{Counted}
use soc.Coder.Message.{new_encoder-IsReady}
use native.Mathlib.Nat.{one-le-pow, pow-le-pow_right, mul-le-mul_left, mul-le-mul_right}

-- The bits written and pending.
abbrev pub bits_of : ArithmeticEncoder → ℕ
bits_of e = bit_count e.output + e.num_underflow

scale_of : (e : ArithmeticEncoder) → (interval e).scale ≡ 2 ^ (32 + bits_of e)
scale_of e = sym (
    pow_add 32 (bits_of e)
    ∙ ap (λ (n : ℕ). 4294967296 * n) (pow_add (bit_count e.output) e.num_underflow))

factor-le : (s : Symbol) (e e' : ArithmeticEncoder) (c : Coded s e e') → c.factor ≤ 4294967296
factor-le s e e' c =
    let w : ℕ = parts s.sym_high s (interval e) - parts s.sym_low s (interval e) in
    let width : e'.high - e'.low + 1 ≡ c.factor * w = ap Interval.width c.taken in
    let bounded : e'.high - e'.low + 1 ≤ 4294967296 =
      omega (arith, c.ready.encoder.pair.ordered, c.ready.encoder.pair.small) in
    elim (Bool-cases (w == 0)) [
      | inl none_left ↦
          let empty : w ≡ 0 = ground arith in
          let nothing : c.factor * w ≡ c.factor * 0 = ap (λ (n : ℕ). c.factor * n) empty in
          absurd (omega (arith, width, nothing))
      | inr some_left ↦
          let one : 1 ≤ w = ground arith in
          omega (arith, mul-le-mul_left {m = 1} {n = w} c.factor one, width, bounded)
    ]

scale-lt : (k a : ℕ) → k ≤ 4294967296 → k * 2 ^ a < 2 ^ (a + 33)
scale-lt k a h = rw (pow_add a 33) (
    omega
      (arith, mul-le-mul_right {m = k} {n = 4294967296} (2 ^ a) h, one-le-pow a 2 (omega arith)))

-- A symbol takes at most 32 bits.
bits_of_update :
    (s : Symbol) (e e' : ArithmeticEncoder) → Coded s e e' → bits_of e' ≤ bits_of e + 32
bits_of_update s e e' c = elim (Bool-cases (leb (bits_of e + 33) (bits_of e'))) [
  | inl longer ↦
      let long : 32 + bits_of e + 33 ≤ 32 + bits_of e' = ground arith in
      let grown : 2 ^ (32 + bits_of e') ≡ c.factor * 2 ^ (32 + bits_of e) =
        sym (scale_of e') ∙ ap Interval.scale c.taken ∙ ap (λ (n : ℕ). c.factor * n) (scale_of e) in
      absurd (
        omega (
          arith,
          grown,
          scale-lt c.factor (32 + bits_of e) (factor-le s e e' c),
          pow-le-pow_right {n = 2} (omega arith) long,
        ))
  | inr short ↦ ground arith
]

write_symbols_bits :
    (symbols : List Symbol) (e e' : ArithmeticEncoder)
    → IsReady e
    → All IsSymbol symbols
    → Counted symbols e
    → write_symbols 33 symbols e ≡ returns (some e')
    → IsReady e' × (bits_of e' ≤ bits_of e + 32 * length symbols)
unfolding write_symbols
write_symbols_bits [] e e' r v n run =
    let same = some_of_returns e e' run in (subst IsReady same r, rw same (omega arith))
write_symbols_bits (s ∷ symbols) e e' r v n run =
    let (e1, r1, coded) = update_lem e s r v.0 (omega (arith, n)) in
    let (ready, few) =
      write_symbols_bits symbols e1 e' coded.ready v.1 (omega (arith, n, coded.few))
        (rw r1 at run) in
    (ready, omega (arith, few, bits_of_update s e e1 coded))

-- The last byte is filled up.
finish_stream_bytes :
    (fuel : ℕ) (out out' : BitOutputStream)
    → IsStream out
    → finish_stream fuel out ≡ returns (some out')
    → 8 * length out'.bytes ≤ bit_count out + 7
unfolding finish_stream bit_count
finish_stream_bytes zero out out' s run = absurd (ground arith)
finish_stream_bytes (suc fuel) out out' s run = elim (Bool-cases (out.num_bits_filled == 0)) [
  | inl done ↦ let same = some_of_returns out out' (rw done at run) in rw (← same) (ground arith)
  | inr more ↦
      let (out1, e1, a1) = write_lem 0 out (omega arith) s in
      let some_bits : 0 < out.num_bits_filled = ground arith in
      let counted : 8 * length out1.bytes + out1.num_bits_filled
          ≡ 8 * length out.bytes + out.num_bits_filled + 1 =
        a1.counted in
      let rest = finish_stream_bytes fuel out1 out' a1.stream (rw (more, e1) at run) in
      omega (arith, rest, counted, some_bits, s.filled)
]

new_encoder-bits : bits_of new_encoder ≡ 0
unfolding bit_count
new_encoder-bits = refl

-- A message of n symbols has at most 4 n + 1 bytes.
pub length-encode_symbols :
    (symbols : List Symbol) (out : BitOutputStream)
    → All IsSymbol symbols
    → length symbols < 2 ^ 57
    → encode_symbols 33 symbols ≡ returns (some out)
    → length out.bytes ≤ 4 * length symbols + 1
unfolding encode_symbols finish
length-encode_symbols symbols out v small run =
    let (e, r, rest) = >?>-some (write_symbols 33 symbols new_encoder) _ out run in
    let (ready, few) =
      write_symbols_bits symbols new_encoder e new_encoder-IsReady v (omega (arith, small)) r in
    let (out1, r1, one_bit) = write_lem 1 e.output (omega arith) ready.encoder.stream in
    let whole = finish_stream_bytes 33 out1 out one_bit.stream (rw r1 at rest) in
    omega (arith, few, whole, one_bit.counted, new_encoder-bits)
