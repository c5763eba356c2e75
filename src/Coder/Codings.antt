-- ===== src/Coder/Codings.antt =====
-- `codings` of project-spec/meta-user/recipes-apps/autostart/src/coding.cpp: the entropy coding of a
-- picture's 39 channels into one block of memory. `channels` holds the entries of the arrays gmms,
-- data and lens, `allocates` says if malloc finds memory. A negative `gmm_scale` is not modelled.
pub mod Symbols
pub mod Run
pub mod Channels
pub mod Space
pub mod Result
pub mod Differ
pub mod Distinct
pub mod Example
mod Tests
use soc.Common.{
  ℕ, suc, ◌+◌, ◌-◌, ◌*◌, ◌/◌, ◌%◌, ◌^◌, List, [], ◌∷◌, ◌++◌, length, take, Option, none, some, Bool,
  ltb, leb, if◌then◌else◌,
}
use soc.Common.Effects.{Call, returns, faults, ◌>>=◌, ◌>?>◌, ℤ, pos, negsuc}
use soc.Common.Int.{leb_ℤ, max_element, min_element}
use soc.Protocol.Words.{store16}
use soc.Protocol.Gmm.{GmmT}
use soc.Coder.{ArithmeticEncoder, BitOutputStream, update, new_encoder, finish, finish_stream}
use soc.Coder.Table.{Component, Tables, enc_symbol}

-- The value of the bits of an `int16_t`.
abbrev pub int16 : ℕ → ℤ
int16 n = if ltb (n % 65536) 32768 then pos (n % 65536) else negsuc (65535 - n % 65536)

-- The bits of an `int16_t`.
abbrev pub bits16 : ℤ → ℕ
bits16 (pos n) = n % 65536
bits16 (negsuc n) = 65535 - n % 65536

-- The three densities of an entry: m_probs, m_means and m_stds.
abbrev pub mixture_first : GmmT → Component
mixture_first g = record { prob = int16 g.prob1; mean = int16 g.mean1; std = int16 g.std1 }

abbrev pub mixture_rest : GmmT → List Component
mixture_rest g =
    record { prob = int16 g.prob2; mean = int16 g.mean2; std = int16 g.std2 }
    ∷ record { prob = int16 g.prob3; mean = int16 g.mean3; std = int16 g.std3 }
    ∷ []

-- gmms[i], data[i] and lens[i], the length of the latter.
pub record Channel : Type 0 where
  pub gmm : List GmmT
  pub datum : List ℤ

-- The loop over the data of a channel.
unfoldable pub code_data :
    ℕ
    → Tables
    → ℕ
    → ℤ
    → ℤ
    → List GmmT
    → List ℤ
    → ArithmeticEncoder
    → Call (Option ArithmeticEncoder)
unfolding update enc_symbol
code_data fuel tables gmm_scale xmin xmax gmm [] enc = returns (some enc)
code_data fuel tables gmm_scale xmin xmax [] (x ∷ datum) enc = faults
code_data fuel tables gmm_scale xmin xmax (g ∷ gmm) (x ∷ datum) enc =
    enc_symbol tables gmm_scale xmin xmax (mixture_first g ∷ mixture_rest g) x >>= λ symbol.
    update fuel symbol enc >?> λ enc'. code_data fuel tables gmm_scale xmin xmax gmm datum enc'

-- The extremes of a channel, as they stand in the header.
abbrev pub extremes : ℤ → ℤ → List ℕ
extremes xmin xmax = store16 (bits16 xmin) (store16 (bits16 xmax) [])

-- A channel between its extremes.
unfoldable pub code_extremes :
    ℕ
    → Tables
    → ℕ
    → List GmmT
    → List ℤ
    → ArithmeticEncoder
    → ℤ
    → ℤ
    → Call (Option (List ℕ × ArithmeticEncoder))
unfolding code_data
code_extremes fuel tables gmm_scale gmm datum enc xmin xmax =
    if leb_ℤ xmax xmin
    then returns (some (extremes xmin xmax, enc))
    else code_data fuel tables gmm_scale xmin xmax gmm datum enc >?> λ enc'.
        returns (some (extremes xmin xmax, enc'))

-- The body of the loop over the channels; `len` is an `int`. An empty channel has no first element.
unfoldable pub code_channel :
    ℕ
    → Tables
    → ℕ
    → List GmmT
    → List ℤ
    → ArithmeticEncoder
    → Call (Option (List ℕ × ArithmeticEncoder))
code_channel fuel tables gmm_scale gmm [] enc = faults
code_channel fuel tables gmm_scale gmm (x ∷ datum) enc =
    let len = suc (length datum) % 2 ^ 32 in
    let others = take (len - 1) datum in
    if leb (2 ^ 31) len
    then faults
    else code_extremes fuel tables gmm_scale gmm (take len (x ∷ datum)) enc (min_element x others)
        (max_element x others)

-- The loop over the channels, with the size of the memory from the channel's place in the header on.
unfoldable pub code_channels :
    ℕ
    → Tables
    → ℕ
    → ℕ
    → List Channel
    → ArithmeticEncoder
    → Call (Option (List ℕ × ArithmeticEncoder))
unfolding code_channel
code_channels fuel tables gmm_scale room [] enc = returns (some ([], enc))
code_channels fuel tables gmm_scale room (c ∷ channels) enc =
    if ltb room 4
    then faults
    else code_channel fuel tables gmm_scale c.gmm c.datum enc >?> λ coded.
        code_channels fuel tables gmm_scale (room - 4) channels coded.1 >?> λ rest.
        returns (some (coded.0 ++ rest.0, rest.1))

-- An `int` as a `size_t`.
abbrev pub sign_extend : ℕ → ℕ
sign_extend n = if ltb (n % 2 ^ 32) (2 ^ 31) then n % 2 ^ 32 else n % 2 ^ 32 + 2 ^ 64 - 2 ^ 32

-- `accumulate(lens, lens + SUB_CNT, 0)` as a `size_t`: the sum is an `int`.
unfoldable pub accumulate : ℕ → List Channel → ℕ
accumulate sum [] = sum
accumulate sum (c ∷ channels) = accumulate (sign_extend ((sum + length c.datum) % 2 ^ 64)) channels

pub record CodingResult : Type 0 where
  pub data_bytes : List ℕ
  pub data_length : ℕ

-- What follows malloc, in `size` bytes. `bout` writes from byte 156 on; its writes all lie in the
-- memory if the last one does.
unfoldable pub fill_bins : ℕ → Tables → ℕ → ℕ → List Channel → Call (Option CodingResult)
fill_bins fuel tables gmm_scale size channels =
    code_channels fuel tables gmm_scale size channels new_encoder >?> λ coded.
    finish coded.1 >>= λ bout. finish_stream fuel bout >?> λ bout'.
    if ltb size (156 + length bout'.bytes)
    then faults
    else returns (
        some
          (record { data_bytes = coded.0 ++ bout'.bytes; data_length = length bout'.bytes + 156 }))

unfoldable pub codings : ℕ → (ℕ → Bool) → Tables → ℕ → List Channel → Call (Option CodingResult)
codings fuel allocates tables gmm_scale channels =
    let size = accumulate 0 channels * 8 % 2 ^ 64 in
    let bins = fill_bins fuel tables gmm_scale size channels in
    if allocates size then bins else faults
