-- ===== src/Slave/Network/Whole.antt =====
-- The data path of a picture with a driver that answers every request.
use soc.Common.{
  ℕ, ◌*◌, ◌/◌, ◌%◌, ◌^◌, ◌≡◌, refl, sym, List, ◌++◌, length, subst, Option, none, some, Bool, true,
  false,
}
use soc.Common.Effects.{returns, Ends, on_return, on_fault, Ends-bind, Ends-then}
use soc.Driver.Registers.{NetworkAccReg, acc_config, acc_start}
use soc.Driver.Memory.{AxitangxiAllocation}
use soc.Driver.Access.{Pointer, pl_io, is_minus_one}
use soc.Driver.Device.{Request, get_results}
use soc.Driver.Device.Session.{read_results, pl_run, pl_get}
use soc.Protocol.Data.{DataFrame}
use soc.Protocol.Slices.{data_frame_to_data_len, data_frames_to_data}
use soc.Coder.Table.{Tables}
use soc.Coder.Codings.{CodingResult}
use soc.Slave.Process.{Allocations, Yuv, channels, copy_to, store_stream, process_data_frames}
use soc.Slave.Encode.{Coefficients, encode_coefficients}
use soc.Slave.Encode.Zero.{OnSome}
use soc.Slave.Encode.Flat.{IsFresh, IsPlain, encode_coefficients-IsPlain}
use soc.Slave.Network.{
  ChannelRun, picture_base_addr, fill_channel, array_of, encode_channel, encode_picture,
  stream_bytes, encode_yuv,
}

-- The driver answers every request, and the buffers are mapped.
pub record IsAnswered (r : ChannelRun) : Type 0 where
  pub place : ℕ
  pub mapped : r.mapped ≡ Pointer.memory place
  pub written : r.write_done ≡ true
  pub unmapped : r.unmapped ≡ true
  pub copied_out : r.get.copied_out ≡ true
  pub trans_place : ℕ
  pub trans_mapped : r.trans_read.mapped ≡ Pointer.memory trans_place
  pub trans_done : r.trans_read.done ≡ true
  pub entropy_place : ℕ
  pub entropy_mapped : r.entropy_read.mapped ≡ Pointer.memory entropy_place
  pub entropy_done : r.entropy_read.done ≡ true

-- What the accelerator gives for a channel.
abbrev pub coefficients_of : ChannelRun → Coefficients
coefficients_of r = record {
  trans = array_of r.trans_word 0 (r.get.results.trans_size / 2);
  entropy = array_of r.entropy_word 0 (r.get.results.entropy_size / 2);
  gmm = r.gmm;
}

abbrev pub regs_of : ChannelRun → NetworkAccReg
regs_of r = record r.get.iargs {
  trans_addr = r.get.results.trans_addr;
  trans_size = r.get.results.trans_size;
  entropy_addr = r.get.results.entropy_addr;
  entropy_size = r.get.results.entropy_size;
}

pl_run_done :
    (fuel : ℕ) (addr_list : List AxitangxiAllocation) (config start : Request) (reg : NetworkAccReg)
    → pl_run fuel addr_list config start reg ≡ returns (some (acc_config reg ++ acc_start))
unfolding pl_run
pl_run_done fuel addr_list config start reg = refl

pl_get_done :
    (fuel : ℕ) (addr_list : List AxitangxiAllocation) (r : ChannelRun) (reg : NetworkAccReg)
    (i : IsAnswered r)
    → pl_get fuel addr_list r.get r.trans_read r.entropy_read reg Pointer.null Pointer.null
      ≡ returns (
          some (record {
            reg = regs_of r;
            trans_addr = Pointer.memory i.trans_place;
            entropy_addr = Pointer.memory i.entropy_place;
          }))
unfolding pl_get get_results read_results
pl_get_done fuel addr_list r reg i =
    rw (i.copied_out, i.trans_mapped, i.trans_done, i.entropy_mapped, i.entropy_done) refl

write_works :
    (r : ChannelRun) (size : ℕ)
    → IsAnswered r
    → is_minus_one (pl_io r.write_done r.mapped r.mapped picture_base_addr size).result ≡ false
unfolding pl_io
write_works r size i = rw (i.mapped, i.written) refl

encode_channel_lem :
    (fuel : ℕ) (addr_list : List AxitangxiAllocation) (r : ChannelRun) (bytes : List ℕ)
    (reg : NetworkAccReg)
    → IsAnswered r
    → encode_channel fuel addr_list r bytes reg ≡ returns (some (regs_of r, coefficients_of r))
unfolding encode_channel
encode_channel_lem fuel addr_list r bytes reg i =
    rw
      (
        write_works r (2 * length bytes % 2 ^ 32) i,
        i.unmapped,
        pl_run_done fuel addr_list r.config r.start (record reg {
          picture_addr = picture_base_addr;
          picture_size = 2 * length bytes % 2 ^ 32;
        }),
        pl_get_done fuel addr_list r
            (record reg {
              picture_addr = picture_base_addr;
              picture_size = 2 * length bytes % 2 ^ 32;
            })
            i,
      )
      refl

fill_channel-memory :
    (r : ChannelRun) (bytes : List ℕ) → IsAnswered r → fill_channel r.mapped bytes ≡ returns bytes
unfolding fill_channel
fill_channel-memory r bytes i = rw i.mapped refl

-- With a driver that answers, a picture is encoded as its coefficients are.
encode_picture_lem :
    (fuel : ℕ) (addr_list : List AxitangxiAllocation) (allocates : ℕ → Bool) (t : Tables)
    (ry ru rv : ChannelRun) (reg : NetworkAccReg) (yuv : Yuv)
    → IsAnswered ry
    → IsAnswered ru
    → IsAnswered rv
    → encode_picture fuel addr_list allocates t ry ru rv reg yuv
      ≡ encode_coefficients fuel allocates t
          (coefficients_of ry)
          (coefficients_of ru)
          (coefficients_of rv)
unfolding encode_picture
encode_picture_lem fuel addr_list allocates t ry ru rv reg yuv iy iu iv =
    rw
      (
        fill_channel-memory ry yuv.y iy,
        fill_channel-memory ru yuv.u iu,
        fill_channel-memory rv yuv.v iv,
        encode_channel_lem fuel addr_list ry yuv.y reg iy,
        encode_channel_lem fuel addr_list ru yuv.u (regs_of ry) iu,
        encode_channel_lem fuel addr_list rv yuv.v (regs_of ru) iv,
      )
      refl

encode_yuv-IsPlain :
    (fuel : ℕ) (addr_list : List AxitangxiAllocation) (allocates : ℕ → Bool) (t : Tables)
    (ry ru rv : ChannelRun) (reg : NetworkAccReg) (yuv : Yuv)
    → IsAnswered ry
    → IsAnswered ru
    → IsAnswered rv
    → IsFresh (coefficients_of ry)
    → IsFresh (coefficients_of ru)
    → IsFresh (coefficients_of rv)
    → Ends
        (λ bytes. IsPlain (coefficients_of ry) (coefficients_of ru) (coefficients_of rv))
        (encode_yuv fuel addr_list allocates t ry ru rv reg yuv)
unfolding encode_yuv
encode_yuv-IsPlain fuel addr_list allocates t ry ru rv reg yuv iy iu iv fy fu fv =
    Ends-then (encode_picture fuel addr_list allocates t ry ru rv reg yuv) _
      (subst (Ends (OnSome plain))
        (sym (encode_picture_lem fuel addr_list allocates t ry ru rv reg yuv iy iu iv))
        (encode_coefficients-IsPlain fuel allocates t (coefficients_of ry) (coefficients_of ru)
          (coefficients_of rv) fy fu fv))
      streamed
  where
    plain : CodingResult → Type 0
    plain r = IsPlain (coefficients_of ry) (coefficients_of ru) (coefficients_of rv)

    streamed :
        (o : Option CodingResult)
        → OnSome
            (λ (r : CodingResult).
              IsPlain (coefficients_of ry) (coefficients_of ru) (coefficients_of rv))
            o
        → Ends
            (λ bytes. IsPlain (coefficients_of ry) (coefficients_of ru) (coefficients_of rv))
            (stream_bytes o)
    streamed none p = on_fault
    streamed (some r) p = on_return _ p

-- For any frames, if the driver answers every request and the memory of the entries of each channel is
-- fresh, all zeros: process_data_frames returns only if in each of the 39 parts all coefficients that
-- the accelerator gave are the same.
pub process_data_frames-IsPlain :
    (fuel : ℕ) (addr_list : List AxitangxiAllocation) (allocates : ℕ → Bool) (t : Tables)
    (ry ru rv : ChannelRun) (reg : NetworkAccReg) (memory : Allocations) (frames : List DataFrame)
    (n_frame : ℕ) (p_addr : Option (List ℕ))
    → IsAnswered ry
    → IsAnswered ru
    → IsAnswered rv
    → IsFresh (coefficients_of ry)
    → IsFresh (coefficients_of ru)
    → IsFresh (coefficients_of rv)
    → Ends
        (λ result. IsPlain (coefficients_of ry) (coefficients_of ru) (coefficients_of rv))
        (process_data_frames
          (encode_yuv fuel addr_list allocates t ry ru rv reg)
          memory
          frames
          n_frame
          p_addr)
unfolding process_data_frames
process_data_frames-IsPlain fuel addr_list allocates t ry ru rv reg memory frames n_frame p_addr iy
      iu iv fy fu fv =
    Ends-bind (data_frame_to_data_len frames n_frame) _ λ yuv_len.
      Ends-bind (data_frames_to_data frames n_frame) _ λ addr.
        Ends-bind (copy_to memory.input addr) _ λ written.
          Ends-then (encode_yuv fuel addr_list allocates t ry ru rv reg (channels addr yuv_len)) _
            (encode_yuv-IsPlain fuel addr_list allocates t ry ru rv reg (channels addr yuv_len) iy
              iu iv fy fu fv)
            λ enc_data plain.
              Ends-bind (store_stream memory.stream p_addr enc_data) _ λ stored. on_return _ plain
