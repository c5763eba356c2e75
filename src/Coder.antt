-- ===== src/Coder.antt =====
-- The entropy coder of project-spec/meta-user/recipes-apps/autostart/src/arithmetic_coding.cpp:
-- BitOutputStream, ArithmeticCoderBase::update and ArithmeticEncoder, with the 32 state bits that
-- coding.cpp gives the encoder. An exception that nothing catches ends the process.
pub mod Bits
pub mod Stream
pub mod Interval
pub mod Rescale
pub mod Loops
pub mod Underflow
pub mod Update
pub mod Decode
pub mod Message
pub mod Distinct
pub mod Table
pub mod Codings
mod Tests
use soc.Common.{
  ℕ, zero, suc, ◌+◌, ◌-◌, ◌*◌, ◌/◌, ◌%◌, ◌^◌, bit_and, bit_or, bit_xor, List, [], ◌∷◌, ◌++◌, Option,
  none, some, Bool, leb, ◌==◌, if◌then◌else◌,
}
use soc.Common.Effects.{Call, returns, exits, faults, ◌>>=◌, ◌>?>◌}

-- `bytes` is data_addr[0] to data_addr[size - 1].
pub record BitOutputStream : Type 0 where
  pub current_byte : ℕ
  pub num_bits_filled : ℕ
  pub bytes : List ℕ

-- `currentByte << 1 | b`
abbrev pub push_bit : BitOutputStream → ℕ → ℕ
push_bit out b = bit_or (out.current_byte * 2) b

-- BitOutputStream::write. That currentByte loses 256 or not before the cast is the same byte.
unfoldable pub write : ℕ → BitOutputStream → Call BitOutputStream
write b out =
    if leb 2 b
    then exits
    else if out.num_bits_filled + 1 == 8
    then returns (record {
      current_byte = 0;
      num_bits_filled = 0;
      bytes = out.bytes ++ push_bit out b % 256 ∷ [];
    })
    else returns
        (record out { current_byte = push_bit out b; num_bits_filled = out.num_bits_filled + 1 })

-- BitOutputStream::finish
unfoldable pub finish_stream : ℕ → BitOutputStream → Call (Option BitOutputStream)
unfolding write
finish_stream zero out = returns none
finish_stream (suc fuel) out =
    let rest = write 0 out >>= λ out'. finish_stream fuel out' in
    if out.num_bits_filled == 0 then returns (some out) else rest

-- `low`, `high` and `numUnderflow` are 64 bits wide.
pub record ArithmeticEncoder : Type 0 where
  pub low : ℕ
  pub high : ℕ
  pub num_underflow : ℕ
  pub output : BitOutputStream

abbrev pub half_range : ℕ
half_range = 2147483648

abbrev pub quarter_range : ℕ
quarter_range = 1073741824

abbrev pub state_mask : ℕ
state_mask = 4294967295

-- The loop over numUnderflow in ArithmeticEncoder::shift.
unfoldable pub write_times : ℕ → ℕ → BitOutputStream → Call BitOutputStream
unfolding write
write_times zero b out = returns out
write_times (suc n) b out = write b out >>= λ out'. write_times n b out'

unfoldable pub shift : ArithmeticEncoder → Call ArithmeticEncoder
unfolding write write_times
shift e =
    let bit = e.low / 2 ^ 31 in
    write bit e.output >>= λ out. write_times e.num_underflow (bit_xor bit 1) out >>= λ out'.
    returns (record e { num_underflow = 0; output = out' })

unfoldable pub underflow : ArithmeticEncoder → ArithmeticEncoder
underflow e = record e { num_underflow = (e.num_underflow + 1) % 2 ^ 64 }

-- `((low ^ high) & halfRange) == 0`
unfoldable pub same_top : ArithmeticEncoder → Bool
same_top e = bit_and (bit_xor e.low e.high) half_range == 0

-- `(low & ~high & quarterRange) != 0`, negated
unfoldable pub apart : ArithmeticEncoder → Bool
apart e = bit_and (bit_and e.low (bit_xor e.high (2 ^ 64 - 1))) quarter_range == 0

-- What the first loop does to the bounds once the bits are out.
unfoldable pub double : ArithmeticEncoder → ArithmeticEncoder
double e = record e {
  low = bit_and (e.low * 2 % 2 ^ 64) state_mask;
  high = bit_or (bit_and (e.high * 2 % 2 ^ 64) state_mask) 1;
}

-- What the second loop does to the bounds.
unfoldable pub double_inside : ArithmeticEncoder → ArithmeticEncoder
double_inside e = record e {
  low = bit_xor (e.low * 2 % 2 ^ 64) half_range;
  high = bit_or (bit_or (bit_xor e.high half_range * 2 % 2 ^ 64) half_range) 1;
}

unfoldable pub shift_loop : ℕ → ArithmeticEncoder → Call (Option ArithmeticEncoder)
unfolding same_top shift double
shift_loop zero e = returns none
shift_loop (suc fuel) e =
    let rest = shift e >>= λ e'. shift_loop fuel (double e') in
    if same_top e then rest else returns (some e)

unfoldable pub underflow_loop : ℕ → ArithmeticEncoder → Option ArithmeticEncoder
unfolding apart underflow double_inside
underflow_loop zero e = none
underflow_loop (suc fuel) e =
    let rest = underflow_loop fuel (double_inside (underflow e)) in if apart e then some e else rest

-- `range`
unfoldable pub range_of : ArithmeticEncoder → ℕ
range_of e = (e.high + 2 ^ 64 - e.low + 1) % 2 ^ 64

-- The bounds of a symbol's share: newLow and newHigh.
unfoldable pub narrow : ℕ → ℕ → ℕ → ArithmeticEncoder → ArithmeticEncoder
unfolding range_of
narrow total sym_low sym_high e = record e {
  low = (e.low + sym_low * range_of e % 2 ^ 64 / total) % 2 ^ 64;
  high = (e.low + sym_high * range_of e % 2 ^ 64 / total + 2 ^ 64 - 1) % 2 ^ 64;
}

-- A symbol as the caller hands it over: three `uint32_t`.
pub record Symbol : Type 0 where
  pub total : ℕ
  pub sym_low : ℕ
  pub sym_high : ℕ

-- ArithmeticEncoder::write, which is ArithmeticCoderBase::update. A division by 0 is undefined.
unfoldable pub update : ℕ → Symbol → ArithmeticEncoder → Call (Option ArithmeticEncoder)
unfolding narrow shift_loop underflow_loop
update fuel s e =
    if s.total == 0
    then faults
    else shift_loop fuel (narrow s.total s.sym_low s.sym_high e) >?> λ e'.
        returns (underflow_loop fuel e')

-- The calls of enc.write in `codings`.
unfoldable pub write_symbols : ℕ → List Symbol → ArithmeticEncoder → Call (Option ArithmeticEncoder)
unfolding update
write_symbols fuel [] e = returns (some e)
write_symbols fuel (s ∷ symbols) e = update fuel s e >?> λ e'. write_symbols fuel symbols e'

-- The encoder at the start, and ArithmeticEncoder::finish.
abbrev pub new_encoder : ArithmeticEncoder
new_encoder = record {
  low = 0;
  high = state_mask;
  num_underflow = 0;
  output = record { current_byte = 0; num_bits_filled = 0; bytes = [] };
}

unfoldable pub finish : ArithmeticEncoder → Call BitOutputStream
unfolding write
finish e = write 1 e.output

-- The part of `codings` that codes: every symbol, enc.finish() and bout.finish().
unfoldable pub encode_symbols : ℕ → List Symbol → Call (Option BitOutputStream)
unfolding write_symbols finish finish_stream
encode_symbols fuel symbols =
    write_symbols fuel symbols new_encoder >?> λ e. finish e >>= λ out. finish_stream fuel out
