-- ===== src/Slave/Tests.antt =====
-- The theorems about the slave, applied to a picture of three bytes.
use soc.Common.{
  ℕ, ◌≡◌, refl, List, [], ◌∷◌, ◌++◌, map, concat, length, set, get_or, some, true, All, inl, arith,
}
use soc.Common.Effects.{Call, returns, faults}
use soc.Protocol.Receive.{ready}
use soc.Protocol.Control.{Frame, write_frame}
use soc.Protocol.Data.{
  DataFrame, zero_data_frame, write_data_frame, data_frame_head, data_frame_bytes,
  network_data_frame,
}
use soc.Protocol.Receive.Reading.{Nonempty}
use soc.Protocol.Receive.Transfer.{wire, Sendable}
use soc.Protocol.Samples.{
  three_bytes, three_bytes-IsByte, picture_frame, picture_frame-Sendable, picture_frame-Carries,
  query_frame, old_memory,
}
use soc.Protocol.Slices.{frames_needed}
use soc.Protocol.Slices.Carries.{Carries}
use soc.Slave.State.{Slave, stream, info, initial}
use soc.Slave.Process.{Yuv}
use soc.Slave.Commands.{Answers, handle}
use soc.Slave.Isolation.{handle_isolated}
use soc.Slave.Upload.{Delivers, uploaded, send_reply, prepare_addr-fresh, upload}
use soc.Slave.Download.{recv_reply, download}

-- The accelerator is not used in these runs.
abbrev no_encoder : Yuv → Call (List ℕ)
no_encoder yuv = faults

-- System calls that go well, with the picture's frame on the line.
abbrev all_well : Answers
all_well = record {
  reply_ready = true;
  reply_written = some 12;
  calloc = true;
  data_ready = ready;
  reads = λ k. get_or (wire picture_frame ∷ []) k [];
  memory = record { input = true; stream = true };
  frames = some (old_memory ∷ []);
  fd_reads = [];
  frame_ready = λ k. true;
  frame_written = λ k. some 534;
}

abbrev send_command : Frame
send_command = record query_frame { frame_type = 3; n_frame = 1 }

abbrev recv_command : Frame
recv_command = record query_frame { frame_type = 7 }

whole_piece : All Nonempty (wire picture_frame ∷ [])
unfolding write_data_frame data_frame_bytes data_frame_head network_data_frame
whole_piece = omega arith

all_delivered : Delivers all_well (wire picture_frame ∷ [])
all_delivered = record {
  reply_ready = refl;
  reply_written = refl;
  data_ready = refl;
  reads = refl;
  memory = refl;
}

-- The slave after the picture.
abbrev after_upload : Slave
after_upload =
    uploaded send_command (picture_frame ∷ []) three_bytes
      (record initial { output_frame = send_reply send_command initial })

served :
    handle no_encoder true all_well send_command initial
    ≡ returns ((write_frame (send_reply send_command initial) (some 12)).0, after_upload)
served =
    (upload no_encoder all_well send_command (picture_frame ∷ []) (zero_data_frame ∷ []) three_bytes
      (wire picture_frame) [] initial refl (omega arith) refl refl
      (prepare_addr-fresh all_well send_command initial (omega arith) refl refl)
      (picture_frame-Sendable, tt) (inl refl, tt) whole_piece refl picture_frame-Carries
      (omega arith) all_delivered).0

-- A slave that has the three bytes as the bit stream of picture 2.
abbrev loaded : Slave
loaded = record initial {
  bit_streams = set initial.bit_streams 2 (record { addr = some three_bytes; len = 3 });
}

one_needed : 1 ≡ frames_needed 3
unfolding frames_needed
one_needed = refl

download_example :
    (fs : List DataFrame) × (c : ℕ) × (handle no_encoder true all_well recv_command loaded
      ≡ returns (
        (write_frame (recv_reply recv_command (frames_needed 3) loaded) (some 12)).0
            ++ concat (map wire fs),
        record loaded {
          output_frame = recv_reply recv_command (frames_needed 3) loaded;
          n_total_frame = c;
        },
      ))
    × All Sendable fs
    × Carries fs three_bytes
    × (length fs ≡ frames_needed 3)
download_example =
    download no_encoder true all_well recv_command (old_memory ∷ []) three_bytes loaded refl
      (omega arith) refl (omega arith) (omega arith) three_bytes-IsByte (omega arith) one_needed
      (omega arith)
      (record {
        reply_ready = refl;
        reply_written = refl;
        frames = refl;
        frame_ready = λ k. refl;
        frame_written = λ k. refl;
      })

-- The picture 8 does not exist.
abbrev send_unknown : Frame
send_unknown = record send_command { n_file = 8 }

handle_isolated_example :
    (stream after_upload 5 ≡ stream initial 5) × (info after_upload 5 ≡ info initial 5)
handle_isolated_example =
    handle_isolated no_encoder true all_well send_command initial after_upload _ 5 served
      (omega arith)
