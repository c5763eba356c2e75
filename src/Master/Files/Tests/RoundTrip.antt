-- ===== src/Master/Files/Tests/RoundTrip.antt =====
-- The second of two files of one block, sent and received.
use soc.Common.{
  ℕ, ◌≡◌, refl, List, [], ◌∷◌, ◌++◌, concat, get_elem?, get_or, All, some, true, false, arith,
}
use soc.Common.Effects.{returns, ℤ}
use soc.Protocol.Control.{Frame, IsFrame, zero_frame}
use soc.Protocol.Data.{DataFrame}
use soc.Protocol.Receive.Reading.{Nonempty}
use soc.Protocol.Samples.{old_memory}
use soc.Slave.State.{Slave, initial}
use soc.Slave.Commands.{Answers, handle, start}
use soc.Slave.Served.{Reachable-IsSlave}
use soc.Slave.Download.{Writes}
use soc.Master.{Attempt, query_request}
use soc.Master.Exchange.{TimesOut}
use soc.Master.Query.{arrived, heard}
use soc.Master.Pictures.{RecvRound, recv_file, DumpAnswers, dump_data_frames}
use soc.Master.Pictures.Announced.{recv_command}
use soc.Master.Pictures.Download.{data_round}
use soc.Master.Files.{FileTransfer, SentFiles, send_files}
use soc.Master.Files.Runs.{bytes_of}
use soc.Master.Files.Upload.{Wired}
use soc.Master.Files.RoundTrip.{send_files-recv_file}
use soc.Master.Files.Tests.{
  no_encoder, all_well, run_of, run_of-GoesWell, initial-HasNone, two_runs,
}

-- The master's request for picture 1.
abbrev second : Frame
second = record zero_frame { n_file = 1 }

second-IsFrame : IsFrame second
second-IsFrame = record {
  address = omega arith;
  frame_type = omega arith;
  n_file = omega arith;
  n_frame = omega arith;
  status = omega arith;
  check_sum = omega arith;
}

abbrev memory_there : Answers
memory_there = record all_well { frames = some (old_memory ∷ []) }

memory_there-Writes : Writes memory_there (old_memory ∷ [])
memory_there-Writes = record {
  reply_ready = refl;
  reply_written = refl;
  frames = refl;
  frame_ready = λ k. refl;
  frame_written = λ k. refl;
}

send_files-recv_file_example :
    (files : List FileTransfer) × (v' : Slave) × (s' : SentFiles) × Wired no_encoder 0 zero_frame
      two_runs files initial v'
    × (send_files false false
          (b'.' ∷ [])
          0
          files
          (record { output_frame = zero_frame; n_files = 5 ∷ 9 ∷ []; wire = []; n_total_frame = 0 })
        ≡ returns (some s'))
    × (get_elem? s'.n_files 1 ≡ some 1)
    × ((q g sent : List ℕ) × (v1 v2 : Slave) × (handle no_encoder true all_well
            (arrived (query_request second))
            v'
          ≡ returns (q, v1))
        × (handle no_encoder true memory_there (recv_command second) v1 ≡ returns (g ++ sent, v2))
        × ((lost lost' later later' : List Attempt) (queries : List (List Attempt))
              (rounds : List RecvRound) (p : List ℕ) (ps : List (List ℕ))
            → All TimesOut lost
            → All TimesOut lost'
            → All Nonempty (p ∷ ps)
            → concat (p ∷ ps) ≡ sent
            → (n : ℕ) × (frames : List DataFrame) × (recv_file
                  ((lost ++ (heard q ∷ later)) ∷ queries)
                  true
                  (data_round lost' g later' (λ k. get_or (p ∷ ps) k []) ∷ rounds)
                  second
                ≡ returns (some (n, frames)))
              × ((env : DumpAnswers)
                  → env.made ≡ true
                  → env.opened ≡ true
                  → (size : ℤ) × (dump_data_frames env frames n
                      ≡ returns (bytes_of (run_of 1 1), size)))))
send_files-recv_file_example =
    send_files-recv_file no_encoder (b'.' ∷ []) two_runs (5 ∷ 9 ∷ []) initial (run_of 1 1) second
      all_well memory_there (old_memory ∷ []) (omega arith) refl
      (run_of-GoesWell 0 0, (run_of-GoesWell 1 1, tt))
      (Reachable-IsSlave no_encoder true initial start) initial-HasNone refl second-IsFrame refl
      refl (omega arith) (record { ready = refl; written = refl }) memory_there-Writes
