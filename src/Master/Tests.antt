-- ===== src/Master/Tests.antt =====
-- The theorems about the master, applied to a query for picture 2.
use soc.Common.{ℕ, ◌≡◌, refl, List, [], ◌∷◌, ◌++◌, none, some, true, false, ltb, if◌then◌else◌, All}
use soc.Common.Effects.{Call, returns, faults}
use soc.Crc.{crc16, swap_bytes, register, update}
use soc.Crc.Table.{lt}
use soc.Protocol.Receive.{timed_out}
use soc.Protocol.Words.{htobe16, htobe32}
use soc.Protocol.Control.{
  Frame, write_frame, send_frame, after_write, receive_frame, accept_frame, frame_at, host_frame,
}
use soc.Protocol.Samples.{query_frame, query_frame-IsFrame}
use soc.Master.{Attempt, unanswered, query_request, send_and_receive_frame, query_status}
use soc.Master.Exchange.{TimesOut}
use soc.Master.Query.{arrived, query_status-handle}
use soc.Slave.State.{info, get_status, initial}
use soc.Slave.Process.{Yuv}
use soc.Slave.Commands.{Answers, wait_frame, handle, start}
use soc.Slave.Served.{Reachable-IsSlave, query_reply}

abbrev no_encoder : Yuv → Call (List ℕ)
no_encoder yuv = faults

abbrev all_well : Answers
all_well = record {
  reply_ready = true;
  reply_written = some 12;
  calloc = true;
  data_ready = timed_out;
  reads = λ k. [];
  memory = record { input = true; stream = true };
  frames = none;
  fd_reads = [];
  frame_ready = λ k. true;
  frame_written = λ k. some 534;
}

query_status-handle_example :
    (wait_frame ((true, some (write_frame (query_request query_frame) (some 12)).0) ∷ [])
      ≡ returns (some (arrived (query_request query_frame), [])))
    × ((sent : List ℕ) × (g : Frame) × (handle no_encoder true all_well
            (arrived (query_request query_frame))
            initial
          ≡ returns (
            sent,
            record initial {
              output_frame = query_reply (arrived (query_request query_frame)) initial;
            },
          ))
        × ((lost later : List Attempt)
            → All TimesOut lost
            → query_status
                (lost
                  ++ (record {
                    write_ready = true;
                    written = some 12;
                    read_ready = true;
                    read = some sent;
                  }
                      ∷ later))
                query_frame
              ≡ returns (some (g, later)))
        × (g.status ≡ get_status initial 2)
        × (g.n_frame ≡ (if ltb 2 8 then (info initial 2).len else 0)))
query_status-handle_example =
    query_status-handle no_encoder true all_well query_frame initial [] query_frame-IsFrame refl
      (Reachable-IsSlave no_encoder true initial start) refl refl

-- The slave's answer to a query for picture 0: unreceived, no frames.
abbrev answer_bytes : List ℕ
answer_bytes = 1 ∷ 1 ∷ 0 ∷ 0 ∷ 0 ∷ 0 ∷ 0 ∷ 0 ∷ 0xaa ∷ 0xaa ∷ 0x83 ∷ 0x4a ∷ []

abbrev request_0 : Frame
request_0 = record query_frame { n_file = 0 }

abbrev answer_0 : Frame
answer_0 = record {
  address = 1;
  frame_type = 1;
  n_file = 0;
  n_frame = 0;
  status = 0xaaaa;
  check_sum = 0x4a83;
}

-- A round without an answer, one with a damaged answer, and one with the answer.
abbrev rounds : List Attempt
rounds =
    record { write_ready = true; written = some 12; read_ready = false; read = none }
    ∷ record {
      write_ready = true;
      written = some 12;
      read_ready = true;
      read = some (2 ∷ 1 ∷ 0 ∷ 0 ∷ 0 ∷ 0 ∷ 0 ∷ 0 ∷ 0xaa ∷ 0xaa ∷ 0x83 ∷ 0x4a ∷ []);
    }
    ∷ record { write_ready = true; written = some 12; read_ready = true; read = some answer_bytes }
    ∷ []

answered_third : send_and_receive_frame rounds request_0 ≡ returns (some (answer_0, []))
unfolding send_and_receive_frame unanswered send_frame write_frame after_write receive_frame
    accept_frame frame_at host_frame crc16 swap_bytes register update lt htobe32 htobe16
answered_third = refl
