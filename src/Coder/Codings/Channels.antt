-- ===== src/Coder/Codings/Channels.antt =====
-- The loop of `codings` over the channels.
use soc.Common.{
  ℕ, ◌+◌, ◌-◌, ◌*◌, ◌%◌, ◌^◌, ◌≤◌, ◌<◌, ◌≡◌, refl, ◌∙◌, List, [], ◌∷◌, ◌++◌, length, length-append,
  All, All-append, false, Option, some, none, ltb, arith,
}
use soc.Common.Effects.{Call, returns, exits, faults, ◌>?>◌}
use soc.Coder.{Symbol, ArithmeticEncoder, write_symbols}
use soc.Coder.Distinct.{write_symbols-append}
use soc.Coder.Decode.{write_symbols_end}
use soc.Coder.Update.{IsSymbol}
use soc.Coder.Table.{Tables}
use soc.Coder.Table.Shares.{IsTables}
use soc.Coder.Codings.{Channel, extremes, code_channel, code_channels, accumulate, sign_extend}
use soc.Coder.Codings.Symbols.{least, greatest, channel_symbols, all_symbols, header_of, IsChannel}
use soc.Coder.Codings.Run.{code_channel_lem, channel_symbols-IsSymbol, length-channel_symbols}

-- The number of values of the channels.
abbrev pub data_size : List Channel → ℕ
data_size [] = 0
data_size (c ∷ channels) = length c.datum + data_size channels

accumulate_from :
    (sum : ℕ) (channels : List Channel)
    → sum + data_size channels < 2 ^ 31
    → accumulate sum channels ≡ sum + data_size channels
unfolding accumulate
accumulate_from sum [] h = omega arith
accumulate_from sum (c ∷ channels) h =
    let fits : sign_extend ((sum + length c.datum) % 2 ^ 64) ≡ sum + length c.datum =
      ground arith in
    rw fits (accumulate_from (sum + length c.datum) channels (omega arith) ∙ omega arith)

pub accumulate_lem :
    (channels : List Channel)
    → data_size channels < 2 ^ 31
    → accumulate 0 channels ≡ data_size channels
accumulate_lem channels h = accumulate_from 0 channels (omega arith) ∙ omega arith

-- What the loop leaves: the header before, and the encoder.
abbrev pub WithHeader :
    List ℕ → Call (Option ArithmeticEncoder) → Call (Option (List ℕ × ArithmeticEncoder))
WithHeader header m = m >?> λ e. returns (some (header, e))

code_channels_end :
    (t : Tables) (scale room : ℕ) (e : ArithmeticEncoder)
    → code_channels 33 t scale room [] e ≡ returns (some ([], e))
unfolding code_channels
code_channels_end t scale room e = refl

code_channels_step :
    (t : Tables) (scale room : ℕ) (c : Channel) (channels : List Channel) (e : ArithmeticEncoder)
    (now : List Symbol) (later : List Symbol) (header : List ℕ)
    → 4 ≤ room
    → code_channel 33 t scale c.gmm c.datum e
      ≡ WithHeader (extremes (least c.datum) (greatest c.datum)) (write_symbols 33 now e)
    → ((e1 : ArithmeticEncoder)
        → code_channels 33 t scale (room - 4) channels e1
          ≡ WithHeader header (write_symbols 33 later e1))
    → code_channels 33 t scale room (c ∷ channels) e
      ≡ WithHeader
          (extremes (least c.datum) (greatest c.datum) ++ header)
          (write_symbols 33 (now ++ later) e)
unfolding code_channels
code_channels_step t scale room c channels e now later header space r h =
    let enough : ltb room 4 ≡ false = ground arith in
    rw (enough, r, write_symbols-append 33 now later e) (same (write_symbols 33 now e))
  where
    last :
        (m : Call (Option ArithmeticEncoder))
        → (WithHeader header m >?> λ rest.
            returns (some (extremes (least c.datum) (greatest c.datum) ++ rest.0, rest.1)))
          ≡ WithHeader (extremes (least c.datum) (greatest c.datum) ++ header) m
    last (returns none) = refl
    last (returns (some e1)) = refl
    last exits = refl
    last faults = refl

    same :
        (m : Call (Option ArithmeticEncoder))
        → (WithHeader (extremes (least c.datum) (greatest c.datum)) m >?> λ coded.
            code_channels 33 t scale (room - 4) channels coded.1 >?> λ rest.
            returns (some (coded.0 ++ rest.0, rest.1)))
          ≡ WithHeader
              (extremes (least c.datum) (greatest c.datum) ++ header)
              (m >?> λ e1. write_symbols 33 later e1)
    same (returns none) = refl
    same (returns (some e1)) = rw (h e1) (last (write_symbols 33 later e1))
    same exits = refl
    same faults = refl

module _ (t : Tables) (scale : ℕ) (it : IsTables t) (more : 0 < scale) (small : scale ≤ 16384) where
  pub code_channels_lem :
      (channels : List Channel) (room : ℕ) (e : ArithmeticEncoder)
      → 4 * length channels ≤ room
      → All IsChannel channels
      → code_channels 33 t scale room channels e
        ≡ WithHeader (header_of channels) (write_symbols 33 (all_symbols t scale channels) e)
  code_channels_lem [] room e space good =
      rw (code_channels_end t scale room e, write_symbols_end 33 e) refl
  code_channels_lem (c ∷ channels) room e space good =
      code_channels_step t scale room c channels e (channel_symbols t scale c.gmm c.datum)
        (all_symbols t scale channels) (header_of channels) (omega arith)
        (code_channel_lem t scale it more small c.gmm c.datum e good.0.some_data good.0.few_data
          good.0.in_16_bits good.0.enough_entries good.0.entries)
        (λ e1. code_channels_lem channels (room - 4) e1 (omega arith) good.1)

  pub all_symbols-IsSymbol :
      (channels : List Channel)
      → All IsChannel channels
      → All IsSymbol (all_symbols t scale channels)
  all_symbols-IsSymbol [] good = tt
  all_symbols-IsSymbol (c ∷ channels) good =
      All-append IsSymbol (channel_symbols t scale c.gmm c.datum) (all_symbols t scale channels)
        (channel_symbols-IsSymbol t scale it more small c.gmm c.datum good.0.in_16_bits
          good.0.entries)
        (all_symbols-IsSymbol channels good.1)

  pub length-all_symbols :
      (channels : List Channel)
      → All IsChannel channels
      → (length (all_symbols t scale channels) ≤ data_size channels)
        × (length (all_symbols t scale channels) + 2 * length channels ≤ 2 * data_size channels)
  length-all_symbols [] good = (omega arith, omega arith)
  length-all_symbols (c ∷ channels) good =
      let here =
        length-channel_symbols t scale it more small c.gmm c.datum good.0.in_16_bits
          good.0.some_data in
      let there = length-all_symbols channels good.1 in
      let whole =
        length-append (channel_symbols t scale c.gmm c.datum) (all_symbols t scale channels) in
      (omega (arith, here, there, whole), omega (arith, here, there, whole))

pub length-header_of : (channels : List Channel) → length (header_of channels) ≡ 4 * length channels
length-header_of [] = refl
length-header_of (c ∷ channels) = omega (arith, length-header_of channels)

pub length-le_data_size :
    (channels : List Channel) → All IsChannel channels → length channels ≤ data_size channels
length-le_data_size [] good = omega arith
length-le_data_size (c ∷ channels) good =
    omega (arith, good.0.some_data, length-le_data_size channels good.1)
