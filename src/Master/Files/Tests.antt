-- ===== src/Master/Files/Tests.antt =====
-- The theorems about the master's loops, applied to two files of one block.
mod RoundTrip
use soc.Common.{
  ℕ, zero, suc, leb, lt→leb, ◌≡◌, refl, List, [], ◌∷◌, get_or, replicate, none, some, true, false,
  arith,
}
use soc.Common.Effects.{Call, returns, faults}
use soc.Protocol.Receive.{ready}
use soc.Protocol.Control.{zero_frame}
use soc.Protocol.Data.{
  DataFrame, tp_header, write_data_frame, data_frame_bytes, data_frame_head, network_data_frame,
}
use soc.Protocol.Receive.Transfer.{wire}
use soc.Protocol.Samples.{old_memory}
use soc.Protocol.Slices.Carries.{numbered}
use soc.Protocol.Slices.{
  frames_needed, alloc_data_frames, fill_data_frames, fd_to_data_frames, read_frames,
  init_data_frames, init_from, clear_first,
}
use soc.Protocol.Files.{cut_frames, close_file, get_data_frames}
use soc.Protocol.Files.Blocks.{replicate-lt}
use soc.Slave.State.{Slave, initial, stream, info, no_stream, no_info, get_status}
use soc.Slave.Process.{Yuv}
use soc.Slave.Commands.{Answers, start}
use soc.Slave.Served.{Reachable-IsSlave}
use soc.Master.Files.{FileTransfer, SentFiles, send_files}
use soc.Master.Files.Runs.{PictureRun, GoesWell, made}
use soc.Master.Files.Numbers.{HasNumbers, send_files-numbers}
use soc.Master.Files.Upload.{Wired, AllUploaded, arriving, HasNone, send_files-upload}

abbrev no_encoder : Yuv → Call (List ℕ)
no_encoder yuv = faults

abbrev block : List ℕ
block = replicate 512 7

-- The frame of a file of one block, with the number of the picture.
abbrev block_frame : ℕ → DataFrame
block_frame k = record {
  header = tp_header;
  n_total_frame = 77;
  flag = 0x8e;
  n_file = k;
  n_frame = 0;
  total_data_len = 512;
  data_len = 512;
  payload = block;
  check_sum = 5;
}

abbrev piece_of : ℕ → ℕ → List ℕ
piece_of k c = wire (record (block_frame k) { n_total_frame = c })

abbrev all_well : Answers
all_well = record {
  reply_ready = true;
  reply_written = some 12;
  calloc = true;
  data_ready = ready;
  reads = λ k. [];
  memory = record { input = true; stream = true };
  frames = none;
  fd_reads = [];
  frame_ready = λ k. true;
  frame_written = λ k. some 534;
}

abbrev one_block : FileTransfer
one_block = record {
  file = record { opened = true; size = some 512; reads = some block ∷ []; closed = true };
  raw = none;
  memory = some (old_memory ∷ []);
  before = record { result = 0; n_file = 0; n_frame = 0; frames = none };
  dat_path_found = true;
  dat_opened = true;
  dat_written = λ k. some 534;
  dat_closed = true;
  first = [];
  sending = [];
  queries = [];
  calloc = true;
  receiving = [];
  bin_path_found = true;
  saved = record { made = true; opened = true; written = λ k. some 512; closed = true };
}

abbrev run_of : ℕ → ℕ → PictureRun
run_of k c = record {
  transfer = one_block;
  block = block;
  blocks = [];
  query_env = all_well;
  send_env = record all_well { reads = λ i. get_or (piece_of k c ∷ []) i [] };
  last_env = all_well;
  piece = piece_of k c;
  pieces = [];
  lost = [];
  later = [];
  lost' = [];
  later' = [];
  lost'' = [];
  later'' = [];
  rounds = [];
}

made_block :
    (k : ℕ)
    → get_data_frames one_block.file false none
        (some (old_memory ∷ []))
        (record one_block.before { n_file = k })
      ≡ returns (made true k 1 (block_frame k ∷ []))
unfolding get_data_frames cut_frames close_file alloc_data_frames fill_data_frames fd_to_data_frames
    read_frames init_data_frames init_from clear_first frames_needed
made_block k = refl

run_of-GoesWell : (k c : ℕ) → GoesWell k c (run_of k c)
unfolding write_data_frame data_frame_bytes data_frame_head network_data_frame numbered
run_of-GoesWell k c = record {
  file = record {
    whole = (refl, tt);
    bytes = (replicate-lt 7 512 (omega arith), tt);
    few = omega arith;
    opened = refl;
    size = refl;
    reads = refl;
    memory = old_memory ∷ [];
    found = refl;
    space = refl;
    fits = omega arith;
    payloads = (refl, tt);
  };
  queried = record { ready = refl; written = refl };
  calloc = refl;
  delivered = record {
    reply_ready = refl;
    reply_written = refl;
    data_ready = refl;
    reads = refl;
    memory = refl;
  };
  nonempty = omega arith;
  last = record { ready = refl; written = refl };
  lost = tt;
  lost' = tt;
  lost'' = tt;
  frames = block_frame k ∷ [];
  got = made_block k;
  arrives = refl;
}

get_or-replicate : {A : Type 0} (n j : ℕ) (d : A) → get_or (replicate n d) j d ≡ d
get_or-replicate zero j d = refl
get_or-replicate (suc n) zero d = refl
get_or-replicate (suc n) (suc j) d = get_or-replicate n j d

initial-HasNone : HasNone 0 initial
unfolding get_status
initial-HasNone j above small =
    let no_bytes : stream initial j ≡ no_stream = get_or-replicate 8 j no_stream in
    let no_frames : info initial j ≡ no_info = get_or-replicate 8 j no_info in
    let below : leb 8 j ≡ false = lt→leb _ _ small in
    (rw (below, no_bytes, no_frames) refl, rw no_frames refl)

abbrev two_runs : List PictureRun
two_runs = run_of 0 0 ∷ run_of 1 1 ∷ []

send_files-upload_example :
    (files : List FileTransfer) × (v' : Slave) × (s' : SentFiles) × Wired no_encoder 0 zero_frame
      two_runs files initial v'
    × (send_files false false
          (b'.' ∷ [])
          0
          files
          (record { output_frame = zero_frame; n_files = 0 ∷ 0 ∷ []; wire = []; n_total_frame = 0 })
        ≡ returns (some s'))
    × (s'.wire ≡ arriving two_runs)
    × AllUploaded 0 two_runs v' s'.n_files
send_files-upload_example =
    send_files-upload no_encoder (b'.' ∷ []) two_runs (0 ∷ 0 ∷ []) initial (omega arith) refl
      (run_of-GoesWell 0 0, (run_of-GoesWell 1 1, tt))
      (Reachable-IsSlave no_encoder true initial start) initial-HasNone

-- What the first loop comes to for the two files, with what stood in `n_files` before.
two_sent :
    (files : List FileTransfer) × (v' : Slave) × (s' : SentFiles) × Wired no_encoder 0 zero_frame
      two_runs files initial v'
    × (send_files false false
          (b'.' ∷ [])
          0
          files
          (record { output_frame = zero_frame; n_files = 5 ∷ 9 ∷ []; wire = []; n_total_frame = 0 })
        ≡ returns (some s'))
    × (s'.wire ≡ arriving two_runs)
    × AllUploaded 0 two_runs v' s'.n_files
two_sent =
    send_files-upload no_encoder (b'.' ∷ []) two_runs (5 ∷ 9 ∷ []) initial (omega arith) refl
      (run_of-GoesWell 0 0, (run_of-GoesWell 1 1, tt))
      (Reachable-IsSlave no_encoder true initial start) initial-HasNone

send_files-numbers_example : HasNumbers 0 two_sent.0 (5 ∷ 9 ∷ []) two_sent.2.n_files
send_files-numbers_example =
    send_files-numbers false (b'.' ∷ []) two_sent.0
      (record { output_frame = zero_frame; n_files = 5 ∷ 9 ∷ []; wire = []; n_total_frame = 0 })
      two_sent.2 two_sent.4
