-- ===== src/Slave/Network.antt =====
-- What process_data_frames of project-spec/meta-user/recipes-apps/autostart/src/main.c does between the
-- data of a picture and its bit stream: the accelerator encodes the three channels through the driver,
-- and the entropy coder their coefficients. What the accelerator leaves in memory is an argument.
pub mod Whole
mod Tests
use soc.Common.{
  ℕ, zero, suc, ◌+◌, ◌*◌, ◌/◌, ◌%◌, ◌^◌, List, [], ◌∷◌, length, take, Option, none, some, Bool,
  true, ◌==◌, if◌then◌else◌,
}
use soc.Common.Effects.{Call, returns, exits, faults, ◌>>=◌, ◌>?>◌, ℤ}
use soc.Protocol.Gmm.{GmmT}
use soc.Driver.Registers.{NetworkAccReg}
use soc.Driver.Memory.{AxitangxiAllocation}
use soc.Driver.Access.{Pointer, pl_io, is_minus_one}
use soc.Driver.Device.{Request}
use soc.Driver.Device.Session.{ReadAnswers, pl_run, pl_get}
use soc.Coder.Table.{Tables}
use soc.Coder.Codings.{CodingResult}
use soc.Slave.Process.{Yuv}
use soc.Slave.Encode.{Coefficients, encode_coefficients}

-- What happens with one channel: the memory from ps_mmap, whether pl_write's request and munmap
-- succeed, what the requests of pl_run and pl_get and the two reads find, the `int16_t` that the two
-- buffers then hold (the entropy coefficients by their bits), and the memory for `gmm`.
pub record ChannelRun : Type 0 where
  pub mapped : Pointer
  pub write_done : Bool
  pub unmapped : Bool
  pub config : Request
  pub start : Request
  pub get : Request
  pub trans_read : ReadAnswers
  pub entropy_read : ReadAnswers
  pub trans_word : ℕ → ℤ
  pub entropy_word : ℕ → ℕ
  pub gmm : Option (ℕ → GmmT)

-- PICTURE_BASE_ADDR
abbrev pub picture_base_addr : ℕ
picture_base_addr = 0x20000000

-- The samples of a channel are stored through what ps_mmap returned, which nothing checks.
unfoldable pub fill_channel : Pointer → List ℕ → Call (List ℕ)
fill_channel (Pointer.memory addr) bytes = returns bytes
fill_channel Pointer.null bytes = if length bytes == 0 then returns bytes else faults
fill_channel Pointer.map_failed bytes = if length bytes == 0 then returns bytes else faults

-- The elements of an array.
unfoldable pub array_of {ℓ} : {A : Type ℓ} → (ℕ → A) → ℕ → ℕ → List A
array_of word i zero = []
array_of word i (suc n) = word i ∷ array_of word (suc i) n

module _ (fuel : ℕ) (addr_list : List AxitangxiAllocation) where
  -- The body of the loop over the channels: `reg`, and trans[k] and entropy[k].
  unfoldable pub encode_channel :
      ChannelRun → List ℕ → NetworkAccReg → Call (Option (NetworkAccReg × Coefficients))
  encode_channel r bytes reg =
      let size : ℕ = 2 * length bytes in
      let to_run : NetworkAccReg = record reg {
        picture_addr = picture_base_addr;
        picture_size = size % 2 ^ 32;
      } in
      if is_minus_one
        (pl_io r.write_done r.mapped r.mapped picture_base_addr (size % 2 ^ 32)).result
      then exits
      else if r.unmapped
      then (pl_run fuel addr_list r.config r.start to_run >?> λ writes.
          pl_get fuel addr_list r.get r.trans_read r.entropy_read to_run Pointer.null Pointer.null
          >?> λ got. returns (
              some (
                got.reg,
                record {
                  trans = array_of r.trans_word 0 (got.reg.trans_size / 2);
                  entropy = array_of r.entropy_word 0 (got.reg.entropy_size / 2);
                  gmm = r.gmm;
                },
              )))
      else exits

  -- From the three channels of a picture to the bit stream.
  unfoldable pub encode_picture :
      (ℕ → Bool)
      → Tables
      → ChannelRun
      → ChannelRun
      → ChannelRun
      → NetworkAccReg
      → Yuv
      → Call (Option CodingResult)
  encode_picture allocates tables ry ru rv reg yuv = do
    y ← fill_channel ry.mapped yuv.y
    u ← fill_channel ru.mapped yuv.u
    v ← fill_channel rv.mapped yuv.v
    encode_channel ry y reg >?> λ (reg_y, trans_y).
        encode_channel ru u reg_y >?> λ (reg_u, trans_u).
        encode_channel rv v reg_u >?> λ (reg_v, trans_v).
        encode_coefficients fuel allocates tables trans_y trans_u trans_v

-- `memcpy(p, enc_data, len)` copies `enc_res.length` bytes. Too little fuel counts as a fault.
abbrev pub stream_bytes : Option CodingResult → Call (List ℕ)
stream_bytes none = faults
stream_bytes (some result) = returns (take result.data_length result.data_bytes)

-- What process_data_frames does between the data and the bit stream.
unfoldable pub encode_yuv :
    ℕ
    → List AxitangxiAllocation
    → (ℕ → Bool)
    → Tables
    → ChannelRun
    → ChannelRun
    → ChannelRun
    → NetworkAccReg
    → Yuv
    → Call (List ℕ)
encode_yuv fuel addr_list allocates tables ry ru rv reg yuv =
    encode_picture fuel addr_list allocates tables ry ru rv reg yuv >>= λ result.
    stream_bytes result
