-- ===== src/Coder/Codings/Result.antt =====
-- `codings` as a whole: it returns, within its memory, and the code decodes.
use soc.Common.{
  ℕ, ◌+◌, ◌*◌, ◌%◌, ◌^◌, ◌≤◌, ◌<◌, ◌≡◌, refl, List, ◌++◌, length, All, Bool, true, false, some, ltb,
  arith,
}
use soc.Common.Effects.{>?>-some, >>=-returns, returns}
use soc.Coder.{Symbol, BitOutputStream, write_symbols, encode_symbols, new_encoder, finish}
use soc.Coder.Stream.{bytes_value}
use soc.Coder.Interval.{Decodes}
use soc.Coder.Message.{unit_interval, encode_symbols-Decodes}
use soc.Coder.Table.{Tables}
use soc.Coder.Table.Shares.{IsTables}
use soc.Coder.Codings.{Channel, CodingResult, codings, fill_bins, code_channels, accumulate}
use soc.Coder.Codings.Symbols.{all_symbols, header_of, IsChannel}
use soc.Coder.Codings.Channels.{
  data_size, accumulate_lem, WithHeader, code_channels_lem, all_symbols-IsSymbol,
  length-all_symbols, length-le_data_size,
}
use soc.Coder.Codings.Space.{length-encode_symbols}

-- The header before the code.
abbrev pub result_of : List Channel → List ℕ → CodingResult
result_of channels code = record {
  data_bytes = header_of channels ++ code;
  data_length = length code + 156;
}

fill_bins_lem :
    (t : Tables) (scale size : ℕ) (channels : List Channel) (symbols : List Symbol)
    (out : BitOutputStream)
    → code_channels 33 t scale size channels new_encoder
      ≡ WithHeader (header_of channels) (write_symbols 33 symbols new_encoder)
    → encode_symbols 33 symbols ≡ returns (some out)
    → 156 + length out.bytes ≤ size
    → fill_bins 33 t scale size channels ≡ returns (some (result_of channels out.bytes))
unfolding fill_bins encode_symbols
fill_bins_lem t scale size channels symbols out coded encoded fits =
    let (e, r, rest) = >?>-some (write_symbols 33 symbols new_encoder) _ out encoded in
    let (out1, r1, r2) = >>=-returns (finish e) _ (some out) rest in
    let stored : ltb size (156 + length out.bytes) ≡ false = ground arith in
    rw (coded, r, r1, r2, stored) refl

codings_run :
    (allocates : ℕ → Bool) (t : Tables) (scale size : ℕ) (channels : List Channel)
    (result : CodingResult)
    → accumulate 0 channels * 8 % 2 ^ 64 ≡ size
    → allocates size ≡ true
    → fill_bins 33 t scale size channels ≡ returns (some result)
    → codings 33 allocates t scale channels ≡ returns (some result)
unfolding codings
codings_run allocates t scale size channels result sized memory filled =
    rw (sized, memory, filled) refl

-- Good tables, a scale of 1 to 16384, 39 good channels of fewer than 2^31 values in all, and memory
-- for them.
pub record IsInput (allocates : ℕ → Bool) (t : Tables) (scale : ℕ) (channels : List Channel)
    : Type 0 where
  pub tables : IsTables t
  pub some_scale : 0 < scale
  pub small_scale : scale ≤ 16384
  pub sub_cnt : length channels ≡ 39
  pub good : All IsChannel channels
  pub few : data_size channels < 2 ^ 31
  pub memory : allocates (8 * data_size channels) ≡ true

-- The result is made of the extremes and of the code of the symbols.
pub codings_lem :
    (allocates : ℕ → Bool) (t : Tables) (scale : ℕ) (channels : List Channel)
    (out : BitOutputStream)
    → IsInput allocates t scale channels
    → encode_symbols 33 (all_symbols t scale channels) ≡ returns (some out)
    → (codings 33 allocates t scale channels ≡ returns (some (result_of channels out.bytes)))
      × (156 + length out.bytes ≤ 8 * data_size channels)
codings_lem allocates t scale channels out i encoded = (
  codings_run allocates t scale (8 * data_size channels) channels (result_of channels out.bytes)
      (rw (accumulate_lem channels i.few) (omega (arith, i.few))) i.memory
      (fill_bins_lem t scale (8 * data_size channels) channels (all_symbols t scale channels) out
        (code_channels_lem t scale i.tables i.some_scale i.small_scale channels
          (8 * data_size channels) new_encoder (omega (arith, length-le_data_size channels i.good))
          i.good)
        encoded fits),
  fits,
)
  where
    fits : 156 + length out.bytes ≤ 8 * data_size channels
    fits =
        let lengths =
          length-all_symbols t scale i.tables i.some_scale i.small_scale channels i.good in
        omega (
          arith,
          lengths,
          i.sub_cnt,
          length-le_data_size channels i.good,
          length-encode_symbols (all_symbols t scale channels) out
              (all_symbols-IsSymbol t scale i.tables i.some_scale i.small_scale channels i.good)
              (omega (arith, lengths, i.few)) encoded,
        )

-- On good input, `codings` returns: no division by zero, no access out of an array, of the tables or
-- of the memory that it allocates. Its result is the least and the greatest value of each channel
-- and a code; read as a binary fraction, the code lies in turn in the share of every value of the
-- channels that have more than one.
pub codings-Decodes :
    (allocates : ℕ → Bool) (t : Tables) (scale : ℕ) (channels : List Channel)
    → IsInput allocates t scale channels
    → (code : List ℕ) × (codings 33 allocates t scale channels
        ≡ returns (some (result_of channels code)))
      × (156 + length code ≤ 8 * data_size channels)
      × Decodes
          (bytes_value 0 code)
          (2 ^ (8 * length code))
          unit_interval
          (all_symbols t scale channels)
codings-Decodes allocates t scale channels i =
    let (out, encoded, whole, decodes) =
      encode_symbols-Decodes (all_symbols t scale channels)
        (all_symbols-IsSymbol t scale i.tables i.some_scale i.small_scale channels i.good)
        (omega (
          arith,
          i.few,
          length-all_symbols t scale i.tables i.some_scale i.small_scale channels i.good,
        )) in
    let (run, fits) = codings_lem allocates t scale channels out i encoded in
    (out.bytes, run, fits, decodes)
