-- ===== src/Slave/Process.antt =====
-- process_data_frames and process_data_frames_dry_run of main.c. What the accelerator and the
-- entropy coder make of the three channels is the parameter `encode`.
use soc.Common.{
  ℕ, ◌*◌, ◌/◌, List, ◌++◌, take, drop, length, Option, none, some, Bool, true, false, leb, ◌==◌,
  if◌then◌else◌,
}
use soc.Common.Effects.{Call, returns, exits, faults, ◌>>=◌}
use soc.Protocol.Data.{DataFrame}
use soc.Protocol.Slices.{data_frame_to_data_len, data_frames_to_data}

-- Whether malloc returns memory for the data of the frames, and for the bit stream.
pub record Allocations : Type 0 where
  pub input : Bool
  pub stream : Bool

-- `bytes` written to memory that malloc returned unchecked.
unfoldable pub copy_to : Bool → List ℕ → Call (Option (List ℕ))
copy_to true bytes = returns (some bytes)
copy_to false bytes = if length bytes == 0 then returns none else faults

-- The three channels of planar YUV 4:1:1 data: `u_len * 4`, `u_len` and `u_len` bytes.
pub record Yuv : Type 0 where
  pub y : List ℕ
  pub u : List ℕ
  pub v : List ℕ

unfoldable pub channels : List ℕ → ℕ → Yuv
channels addr yuv_len = record {
  y = take (yuv_len / 6 * 4) addr;
  u = take (yuv_len / 6) (drop (yuv_len / 6 * 4) addr);
  v = take (yuv_len / 6) (drop (yuv_len / 6) (drop (yuv_len / 6 * 4) addr));
}

-- `memcpy(p, enc_data, len)`, after `*p_addr` is allocated if it is NULL.
unfoldable pub store_stream : Bool → Option (List ℕ) → List ℕ → Call (Option (List ℕ))
store_stream true none enc_data = returns (some enc_data)
store_stream false none enc_data = exits
store_stream allocated (some old) enc_data =
    if leb (length enc_data) (length old)
    then returns (some (enc_data ++ drop (length enc_data) old))
    else faults

module _ (encode : Yuv → Call (List ℕ)) where
  -- The result, and the new `*p_addr`.
  unfoldable pub process_data_frames :
      Allocations → List DataFrame → ℕ → Option (List ℕ) → Call (ℕ × Option (List ℕ))
  unfolding copy_to channels store_stream
  process_data_frames memory frames n_frame p_addr = do
    yuv_len ← data_frame_to_data_len frames n_frame
    addr ← data_frames_to_data frames n_frame
    written ← copy_to memory.input addr
    enc_data ← encode (channels addr yuv_len)
    stored ← store_stream memory.stream p_addr enc_data
    returns (length enc_data, stored)

  -- The loop of the dry run is that of data_frames_to_data.
  unfoldable pub process_data_frames_dry_run :
      Bool → Allocations → List DataFrame → ℕ → Option (List ℕ) → Call (ℕ × Option (List ℕ))
  unfolding process_data_frames copy_to
  process_data_frames_dry_run true memory frames n_frame p_addr = do
    len ← data_frame_to_data_len frames n_frame
    copied ← data_frames_to_data frames n_frame
    stored ← copy_to memory.stream copied
    returns (len, stored)
  process_data_frames_dry_run false memory frames n_frame p_addr =
      process_data_frames memory frames n_frame p_addr
