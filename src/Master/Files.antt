-- ===== src/Master/Files.antt =====
-- main of project-spec/meta-user/recipes-apps/autostart/src/master.c: its loop over the picture files
-- that it sends, and its loop over the bit streams that it receives and saves. `n_files` has no entry
-- where malloc returned NULL.
pub mod Paths
pub mod Numbers
pub mod Runs
pub mod Exchange
pub mod Upload
pub mod RoundTrip
mod Tests
use soc.Common.{
  ℕ, zero, suc, ◌+◌, ◌-◌, ◌^◌, List, [], ◌∷◌, ◌++◌, length, get_elem?, set, Option, none, some,
  Bool, true, false, ltb, ◌==◌, if◌then◌else◌,
}
use soc.Common.Effects.{Call, returns, exits, faults, ◌>>=◌, ◌>?>◌}
use soc.Protocol.Control.{Frame, zero_frame}
use soc.Protocol.Data.{DataFrame, write_data_frame}
use soc.Protocol.Files.{PictureFile, GotFrames, get_data_frames}
use soc.Utils.{sprintf}
use soc.Slave.Files.{decimal}
use soc.Master.{Attempt, query_request}
use soc.Master.Pictures.{
  SendRound, RecvRound, DumpAnswers, recv_request, send_file, recv_file, dump_data_frames,
}

-- What happens with one file. In the first loop: the file, the memory for its frames as bytes or as
-- frames, what the variables hold before, the dump of its frames, and the rounds of the exchange. In
-- the second: the queries, the array, the rounds, and how the bit stream is saved.
pub record FileTransfer : Type 0 where
  pub file : PictureFile
  pub raw : Option (List ℕ)
  pub memory : Option (List DataFrame)
  pub before : GotFrames
  pub dat_path_found : Bool
  pub dat_opened : Bool
  pub dat_written : ℕ → Option ℕ
  pub dat_closed : Bool
  pub first : List Attempt
  pub sending : List SendRound
  pub queries : List (List Attempt)
  pub calloc : Bool
  pub receiving : List RecvRound
  pub bin_path_found : Bool
  pub saved : DumpAnswers

-- `%d` of a 32-bit number
abbrev pub number_text : ℕ → List ℕ
number_text n = if ltb n (2 ^ 31) then decimal 10 n else b'-' ∷ decimal 10 (2 ^ 32 - n)

-- `%s/%d` and an extension of four characters; sizeof("XX.bin") counts the 0 at the end.
unfoldable pub output_path : Bool → List ℕ → ℕ → List ℕ → Call (List ℕ)
output_path found out_dir n extension =
    if found
    then sprintf (length out_dir + 7 - 1) (out_dir ++ (b'/' ∷ number_text n ++ extension))
    else faults

abbrev pub dat_extension : List ℕ
dat_extension = b'.' ∷ b'd' ∷ b'a' ∷ b't' ∷ []

abbrev pub bin_extension : List ℕ
bin_extension = b'.' ∷ b'b' ∷ b'i' ∷ b'n' ∷ []

-- The loop over the frames that are dumped, `n` of them from the i-th on.
unfoldable pub dump_sent : ℕ → ℕ → List DataFrame → (ℕ → Option ℕ) → Call (List ℕ)
dump_sent zero i frames written = returns []
dump_sent (suc n) i [] written = faults
dump_sent (suc n) i (f ∷ frames) written =
    let rest = dump_sent n (i + 1) frames written in
    (write_data_frame f (written i)).1 >>= λ size.
    rest >>= λ wire. returns ((write_data_frame f (written i)).0 ++ wire)

-- What the option dump writes to the file `k`.dat.
unfoldable pub dump_file : List ℕ → ℕ → FileTransfer → ℕ → List DataFrame → Call (List ℕ)
dump_file out_dir k t n_frame frames =
    output_path t.dat_path_found out_dir k dat_extension >>= λ path.
    if t.dat_opened
    then (dump_sent n_frame 0 frames t.dat_written >>= λ wire.
        if t.dat_closed then returns wire else exits)
    else exits

-- `n_files[k] = n_file`
unfoldable pub store_number : List ℕ → ℕ → ℕ → Call (List ℕ)
store_number n_files k n_file =
    if ltb k (length n_files) then returns (set n_files k n_file) else faults

-- What the first loop leaves: the frame of the requests, the numbers, the bytes of the data frames that
-- were sent, and `n_total_frame`.
pub record SentFiles : Type 0 where
  pub output_frame : Frame
  pub n_files : List ℕ
  pub wire : List ℕ
  pub n_total_frame : ℕ

-- The request for what get_data_frames has made of a file.
abbrev pub file_request : Frame → GotFrames → Frame
file_request output_frame got = record output_frame {
  frame_type = 3;
  n_file = got.n_file;
  n_frame = got.n_frame;
}

module _ (binary dump : Bool) (out_dir : List ℕ) where
  -- The body of the loop once the frames are there.
  unfoldable pub send_made :
      ℕ → FileTransfer → GotFrames → List DataFrame → SentFiles → Call (Option SentFiles)
  send_made k t got frames s = store_number s.n_files k got.n_file >>= λ n_files.
      (if dump then dump_file out_dir k t got.n_frame frames else returns []) >>= λ dumped.
      send_file binary t.first t.sending (file_request s.output_frame got) frames s.n_total_frame
      >?> λ p. returns (
          some (record {
            output_frame = query_request (file_request s.output_frame got);
            n_files = n_files;
            wire = s.wire ++ p.wire;
            n_total_frame = p.n_total_frame;
          }))

  -- A file that cannot be opened is skipped, with the number and the frames of its request set.
  unfoldable pub send_one : ℕ → FileTransfer → SentFiles → Call (Option SentFiles)
  send_one k t s =
      get_data_frames t.file binary t.raw t.memory (record t.before { n_file = k }) >>= λ got.
      if got.result == 1
      then returns (some (record s { output_frame = file_request s.output_frame got }))
      else if got.result == 3
      then exits
      else elim got.frames [ none ↦ faults | some frames ↦ send_made k t got frames s ]

  -- From file `k` on.
  unfoldable pub send_files : ℕ → List FileTransfer → SentFiles → Call (Option SentFiles)
  send_files k [] s = returns (some s)
  send_files k (t ∷ files) s = send_one k t s >?> λ s'. send_files (k + 1) files s'

-- A bit stream that was received: the number of its picture, and the bytes that were saved.
pub record Received : Type 0 where
  pub n_file : ℕ
  pub bytes : List ℕ

-- The body of the second loop for `n_files[k]`. A dump that fails is only logged.
unfoldable pub receive_one : List ℕ → ℕ → FileTransfer → Frame → Call (Option Received)
receive_one out_dir n_file t output_frame =
    recv_file t.queries t.calloc t.receiving (record output_frame { n_file = n_file }) >?> λ got.
    output_path t.bin_path_found out_dir n_file bin_extension >>= λ path.
    dump_data_frames t.saved got.1 got.0 >>= λ saved.
    returns (some (record { n_file = n_file; bytes = saved.0 }))

-- From file `k` on.
unfoldable pub receive_files :
    List ℕ → List ℕ → ℕ → List FileTransfer → Frame → Call (Option (List Received))
receive_files out_dir n_files k [] output_frame = returns (some [])
receive_files out_dir n_files k (t ∷ files) output_frame = elim (get_elem? n_files k) [
  | none ↦ faults
  | some n_file ↦ receive_one out_dir n_file t output_frame >?> λ received.
      receive_files out_dir n_files (k + 1) files
        (recv_request (query_request (record output_frame { n_file = n_file })))
      >?> λ rest. returns (some (received ∷ rest))
]

-- Both loops, after tcflush; `n_files` is the memory that malloc returns. The address of the master is 0.
unfoldable pub transfer_files :
    Bool → Bool → Bool → List ℕ → List ℕ → List FileTransfer → Call (Option (List Received))
unfolding send_files receive_files
transfer_files flushed binary dump out_dir n_files files =
    if flushed
    then (send_files binary dump out_dir 0 files
          (record { output_frame = zero_frame; n_files = n_files; wire = []; n_total_frame = 0 })
        >?> λ s. receive_files out_dir s.n_files 0 files s.output_frame)
    else exits
