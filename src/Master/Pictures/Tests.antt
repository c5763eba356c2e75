-- ===== src/Master/Pictures/Tests.antt =====
-- The theorems about whole pictures, applied to a picture of three bytes.
use soc.Common.{
  ℕ, ◌<◌, ◌≡◌, refl, sym, List, [], ◌∷◌, ◌++◌, concat, set, get_or, none, some, true, All, arith,
}
use soc.Common.Effects.{Call, returns, faults, ℤ}
use soc.Protocol.Receive.{timed_out}
use soc.Protocol.Data.{DataFrame}
use soc.Protocol.Receive.Reading.{Nonempty}
use soc.Protocol.Samples.{
  query_frame, query_frame-IsFrame, picture_frame, three_bytes, three_bytes-IsByte, old_memory,
}
use soc.Protocol.Slices.{frames_needed}
use soc.Master.{Attempt, query_request}
use soc.Master.Exchange.{TimesOut}
use soc.Master.Query.{arrived, heard}
use soc.Master.Pictures.{RecvRound, recv_file, DumpAnswers, dump_data_frames}
use soc.Master.Pictures.Sending.{Replies}
use soc.Master.Pictures.Announced.{HasStream, recv_command}
use soc.Master.Pictures.Download.{data_round, recv_file-download}
use soc.Master.Pictures.Overflow.{recv_file_overflow}
use soc.Slave.State.{Slave, initial}
use soc.Slave.Process.{Yuv}
use soc.Slave.Commands.{Answers, handle, start}
use soc.Slave.Invariant.{IsSlave}
use soc.Slave.Served.{Reachable-IsSlave}
use soc.Slave.Download.{Writes}

abbrev no_encoder : Yuv → Call (List ℕ)
no_encoder yuv = faults

abbrev all_well : Answers
all_well = record {
  reply_ready = true;
  reply_written = some 12;
  calloc = true;
  data_ready = timed_out;
  reads = λ k. [];
  memory = record { input = true; stream = true };
  frames = none;
  fd_reads = [];
  frame_ready = λ k. true;
  frame_written = λ k. some 534;
}

can_reply : Replies all_well
can_reply = record { ready = refl; written = refl }

-- A slave with the three bytes as the bit stream of picture 2, which has counted `n` frames of it.
abbrev loaded : ℕ → Slave
loaded n = record initial {
  bit_streams = set initial.bit_streams 2 (record { addr = some three_bytes; len = 3 });
  data_frame_infos =
      set initial.data_frame_infos 2
        (record { addr = some (picture_frame ∷ []); len = n; total_len = 1 });
}

loaded-IsSlave : (n : ℕ) → n < 65536 → IsSlave (loaded n)
loaded-IsSlave n h = record {
  bit_streams = refl;
  data_frame_infos = refl;
  infos = omega (arith, h);
  output_frame = (Reachable-IsSlave no_encoder true initial start).output_frame;
  address = refl;
  n_total_frame = omega arith;
}

abbrev memory_there : Answers
memory_there = record all_well { frames = some (old_memory ∷ []) }

loaded-HasStream : (n : ℕ) → HasStream (loaded n) 2 three_bytes
loaded-HasStream n = record {
  small = omega arith;
  stored = refl;
  some_bytes = omega arith;
  fits = omega arith;
  bytes_fit = three_bytes-IsByte;
}

one_needed : frames_needed 3 ≡ 1
unfolding frames_needed
one_needed = refl

memory_there-Writes : Writes memory_there (old_memory ∷ [])
memory_there-Writes = record {
  reply_ready = refl;
  reply_written = refl;
  frames = refl;
  frame_ready = λ k. refl;
  frame_written = λ k. refl;
}

recv_file-download_example :
    (q r sent : List ℕ) × (s1 s2 : Slave) × (handle no_encoder true all_well
        (arrived (query_request query_frame))
        (loaded 1)
      ≡ returns (q, s1))
    × (handle no_encoder true memory_there (recv_command query_frame) s1 ≡ returns (r ++ sent, s2))
    × ((lost lost' later later' : List Attempt) (queries : List (List Attempt))
          (recv_rounds : List RecvRound) (p : List ℕ) (ps : List (List ℕ))
        → All TimesOut lost
        → All TimesOut lost'
        → All Nonempty (p ∷ ps)
        → concat (p ∷ ps) ≡ sent
        → (n : ℕ) × (frames : List DataFrame) × (recv_file
              ((lost ++ (heard q ∷ later)) ∷ queries)
              true
              (data_round lost' r later' (λ k. get_or (p ∷ ps) k []) ∷ recv_rounds)
              query_frame
            ≡ returns (some (n, frames)))
          × ((env : DumpAnswers)
              → env.made ≡ true
              → env.opened ≡ true
              → (size : ℤ) × (dump_data_frames env frames n ≡ returns (three_bytes, size))))
recv_file-download_example =
    recv_file-download no_encoder true all_well memory_there query_frame (old_memory ∷ [])
      three_bytes (loaded 1) query_frame-IsFrame refl (loaded-IsSlave 1 (omega arith))
      (loaded-HasStream 1) (omega (arith, one_needed)) (sym one_needed) (omega arith) can_reply
      memory_there-Writes

recv_file_overflow_example :
    (q r sent : List ℕ) × (s1 s2 : Slave) × (handle no_encoder true all_well
        (arrived (query_request query_frame))
        (loaded 0)
      ≡ returns (q, s1))
    × (handle no_encoder true memory_there (recv_command query_frame) s1 ≡ returns (r ++ sent, s2))
    × ((lost lost' later later' : List Attempt) (queries : List (List Attempt))
          (recv_rounds : List RecvRound) (reads : ℕ → List ℕ)
        → All TimesOut lost
        → All TimesOut lost'
        → recv_file
            ((lost ++ (heard q ∷ later)) ∷ queries)
            true
            (data_round lost' r later' reads ∷ recv_rounds)
            query_frame
          ≡ faults)
recv_file_overflow_example =
    recv_file_overflow no_encoder true all_well memory_there query_frame (old_memory ∷ [])
      three_bytes (loaded 0) query_frame-IsFrame refl (loaded-IsSlave 0 (omega arith))
      (loaded-HasStream 0) (omega (arith, one_needed)) (sym one_needed) (omega arith) can_reply
      memory_there-Writes
