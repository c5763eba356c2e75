-- ===== src/Slave/State.antt =====
-- The globals of main.c, and get_status.
use soc.Common.{ℕ, List, Option, none, replicate, get_or, ltb, leb, ◌==◌, ◌&&◌, not, if◌then◌else◌}
use soc.Protocol.Data.{DataFrame}
use soc.Protocol.Control.{Frame}

-- `data8_t`: the bytes at `addr`, and `len`.
pub record BitStream : Type 0 where
  pub addr : Option (List ℕ)
  pub len : ℕ

-- `data_frame_info_t`
pub record DataFrameInfo : Type 0 where
  pub addr : Option (List DataFrame)
  pub len : ℕ
  pub total_len : ℕ

-- `bit_streams` and `data_frame_infos`, the `output_frame` of main, and the global `n_total_frame` of
-- transmission_protocol.c.
pub record Slave : Type 0 where
  pub bit_streams : List BitStream
  pub data_frame_infos : List DataFrameInfo
  pub output_frame : Frame
  pub n_total_frame : ℕ

abbrev pub pictures_number_max : ℕ
pictures_number_max = 8

abbrev pub no_stream : BitStream
no_stream = record { addr = none; len = 0 }

abbrev pub no_info : DataFrameInfo
no_info = record { addr = none; len = 0; total_len = 0 }

abbrev pub tp_address_master : ℕ
tp_address_master = 0

abbrev pub tp_address_slave : ℕ
tp_address_slave = 1

-- The state that main starts its loop with.
abbrev pub initial : Slave
initial = record {
  bit_streams = replicate pictures_number_max no_stream;
  data_frame_infos = replicate pictures_number_max no_info;
  output_frame = record {
    address = tp_address_slave;
    frame_type = 0;
    n_file = 0;
    n_frame = 0;
    status = 0;
    check_sum = 0;
  };
  n_total_frame = 0;
}

abbrev pub tp_status_unreceived : ℕ
tp_status_unreceived = 0xaaaa

abbrev pub tp_status_processing : ℕ
tp_status_processing = 0xaa55

abbrev pub tp_status_processed : ℕ
tp_status_processed = 0x5555

-- Elements of the two arrays, for an index below the bound, which those who use them check.
abbrev pub stream : Slave → ℕ → BitStream
stream s n_file = get_or s.bit_streams n_file no_stream

abbrev pub info : Slave → ℕ → DataFrameInfo
info s n_file = get_or s.data_frame_infos n_file no_info

unfoldable pub get_status : Slave → ℕ → ℕ
get_status s n_file =
    if leb pictures_number_max n_file
    then tp_status_unreceived
    else if ltb 0 (stream s n_file).len
    then tp_status_processed
    else if (info s n_file).len == (info s n_file).total_len && not ((info s n_file).total_len == 0)
    then tp_status_processing
    else tp_status_unreceived
