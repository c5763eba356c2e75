-- ===== src/Coder/Message.antt =====
-- A whole message of the encoder: how its bytes decode.
use soc.Common.{ℕ, ◌*◌, ◌^◌, ◌<◌, ◌≡◌, refl, ap, subst, List, length, All, some, arith}
use soc.Common.Effects.{returns}
use soc.Coder.{
  ArithmeticEncoder, BitOutputStream, Symbol, new_encoder, write_symbols, finish, finish_stream,
  write, encode_symbols,
}
use soc.Coder.Stream.{value, bit_count, bytes_value, IsStream, write_lem, finish_stream_lem}
use soc.Coder.Interval.{Interval, Inside, Decodes}
use soc.Coder.Rescale.{interval}
use soc.Coder.Update.{IsSymbol, IsReady}
use soc.Coder.Decode.{write_symbols_lem, Inside-finished}

-- The interval from 0 to 1, in 2^32 units.
abbrev pub unit_interval : Interval
unit_interval = record { lowest = 0; width = 4294967296; scale = 4294967296 }

pub new_encoder-IsReady : IsReady new_encoder
new_encoder-IsReady = record {
  encoder = record {
    pair = record { ordered = omega arith; small = omega arith };
    stream = record { filled = omega arith; small = omega arith };
  };
  around = record { low_half = omega arith; high_half = omega arith };
  wide = omega arith;
}

new_encoder-interval : interval new_encoder ≡ unit_interval
unfolding value bit_count
new_encoder-interval = refl

pub encode_symbols_step :
    (fuel : ℕ) (symbols : List Symbol) (e : ArithmeticEncoder) (out1 out : BitOutputStream)
    → write_symbols fuel symbols new_encoder ≡ returns (some e)
    → finish e ≡ returns out1
    → finish_stream fuel out1 ≡ returns (some out)
    → encode_symbols fuel symbols ≡ returns (some out)
unfolding encode_symbols
encode_symbols_step fuel symbols e out1 out r r1 r2 = rw (r, r1, r2) refl

finish_lem :
    (e : ArithmeticEncoder) (out : BitOutputStream)
    → write 1 e.output ≡ returns out
    → finish e ≡ returns out
unfolding finish
finish_lem e out r = r

whole_value :
    (out : BitOutputStream)
    → IsStream out
    → out.num_bits_filled ≡ 0
    → value out ≡ bytes_value 0 out.bytes
unfolding value
whole_value out s whole =
    let one_unit : 2 ^ out.num_bits_filled ≡ 1 = ap (λ (n : ℕ). 2 ^ n) whole in
    rw one_unit (omega (arith, s.small, one_unit))

whole_count :
    (out : BitOutputStream) → out.num_bits_filled ≡ 0 → bit_count out ≡ 8 * length out.bytes
unfolding bit_count
whole_count out whole = omega (arith, whole)

-- The bytes as a fraction between 0 and 1.
abbrev pub CodeInside : BitOutputStream → Interval → Type 0
CodeInside out i = Inside (bytes_value 0 out.bytes) (2 ^ (8 * length out.bytes)) i

-- The end of a message.
pub finish_message :
    (e : ArithmeticEncoder)
    → IsReady e
    → (out1 : BitOutputStream) × (out : BitOutputStream) × (finish e ≡ returns out1)
      × (finish_stream 33 out1 ≡ returns (some out))
      × (out.num_bits_filled ≡ 0)
      × CodeInside out (interval e)
finish_message e ready =
    let (out1, r1, one_bit) = write_lem 1 e.output (omega arith) ready.encoder.stream in
    let (out, k, r2, zeros, whole) =
      finish_stream_lem 32 out1 one_bit.stream (λ some_left. omega arith) in
    (
      out1,
      out,
      finish_lem e out1 r1,
      r2,
      whole,
      subst (λ n. Inside (bytes_value 0 out.bytes) (2 ^ n) (interval e)) (whole_count out whole)
          (subst (λ c. Inside c (2 ^ bit_count out) (interval e))
            (whole_value out zeros.stream whole)
            (Inside-finished e ready out1 out k one_bit zeros)),
    )

-- Any message of fewer than 2^58 symbols, each with a share of at most 2^30 + 2 parts, is encoded
-- without a fault, an exception or a loop that does not end, into whole bytes; read as a binary
-- fraction between 0 and 1 they lie in the share of every symbol in turn.
pub encode_symbols-Decodes :
    (symbols : List Symbol)
    → All IsSymbol symbols
    → length symbols < 2 ^ 58
    → (out : BitOutputStream) × (encode_symbols 33 symbols ≡ returns (some out))
      × (out.num_bits_filled ≡ 0)
      × Decodes (bytes_value 0 out.bytes) (2 ^ (8 * length out.bytes)) unit_interval symbols
encode_symbols-Decodes symbols v small =
    let (e, r, ready, few, back) =
      write_symbols_lem symbols new_encoder new_encoder-IsReady v (omega (arith, small)) in
    let (out1, out, r1, r2, whole, inside) = finish_message e ready in
    (
      out,
      encode_symbols_step 33 symbols e out1 out r r1 r2,
      whole,
      subst (λ i. Decodes (bytes_value 0 out.bytes) (2 ^ (8 * length out.bytes)) i symbols)
          new_encoder-interval (back _ _ inside).1,
    )
