-- ===== src/Master/Files/Runs.antt =====
-- What the theorems about the loop over picture files ask of a file and of its exchange, and one round of
-- the loop.
use soc.Common.{
  ℕ, ◌*◌, ◌<◌, ◌≡◌, refl, List, ◌∷◌, ◌++◌, map, concat, length, set, ltb, All, some, Bool, true,
  false, if◌then◌else◌, arith,
}
use soc.Common.Effects.{returns}
use soc.Protocol.Control.{Frame, IsFrame}
use soc.Protocol.Data.{DataFrame}
use soc.Protocol.Receive.Reading.{Nonempty}
use soc.Protocol.Receive.Transfer.{wire}
use soc.Protocol.Slices.Alloc.{IsMemory, Payloads}
use soc.Protocol.Slices.Carries.{numbered}
use soc.Protocol.Files.{GotFrames, get_data_frames}
use soc.Protocol.Files.Blocks.{Blocks}
use soc.Slave.Commands.{Answers}
use soc.Slave.Upload.{Delivers}
use soc.Master.{Attempt, query_request}
use soc.Master.Exchange.{TimesOut}
use soc.Master.Query.{heard}
use soc.Master.Pictures.{SendRound, SentPicture, send_file}
use soc.Master.Pictures.Sending.{Replies, heard_round}
use soc.Master.Files.{FileTransfer, SentFiles, store_number, send_made, send_one}

-- What get_data_frames makes of a file that is read whole, closed or not.
abbrev pub made : Bool → ℕ → ℕ → List DataFrame → GotFrames
made closed k n frames = record {
  result = if closed then 0 else 2;
  n_file = k;
  n_frame = n;
  frames = some frames;
}

abbrev pub picture_request : Frame → ℕ → ℕ → Frame
picture_request output_frame k n = record output_frame { frame_type = 3; n_file = k; n_frame = n }

pub send_one_step :
    (binary closed : Bool) (out_dir : List ℕ) (k n : ℕ) (t : FileTransfer) (frames : List DataFrame)
    (s : SentFiles) (p : SentPicture)
    → k < length s.n_files
    → get_data_frames t.file binary t.raw t.memory (record t.before { n_file = k })
      ≡ returns (made closed k n frames)
    → send_file binary t.first t.sending (picture_request s.output_frame k n) frames s.n_total_frame
      ≡ returns (some p)
    → send_one binary false out_dir k t s
      ≡ returns (
          some (record {
            output_frame = query_request (picture_request s.output_frame k n);
            n_files = set s.n_files k k;
            wire = s.wire ++ p.wire;
            n_total_frame = p.n_total_frame;
          }))
unfolding send_one send_made store_number
send_one_step binary true out_dir k n t frames s p room got sent =
    let inside : ltb k (length s.n_files) ≡ true = ground arith in rw (got, inside, sent) refl
send_one_step binary false out_dir k n t frames s p room got sent =
    let inside : ltb k (length s.n_files) ≡ true = ground arith in rw (got, inside, sent) refl

pub picture_request-IsFrame :
    (out : Frame) (k n : ℕ) → IsFrame out → k < 8 → n < 65536 → IsFrame (picture_request out k n)
picture_request-IsFrame out k n h small few = record {
  address = h.address;
  frame_type = omega arith;
  n_file = omega arith;
  n_frame = omega arith;
  status = h.status;
  check_sum = h.check_sum;
}

-- A file of whole blocks of 512 bytes, one block a read, and memory for its frames.
pub record IsPictureFile (t : FileTransfer) (blocks : List (List ℕ)) : Type 0 where
  pub whole : Blocks blocks
  pub bytes : All (λ b. All (λ x. x < 256) b) blocks
  pub few : length blocks < 65536
  pub opened : t.file.opened ≡ true
  pub size : t.file.size ≡ some (512 * length blocks)
  pub reads : t.file.reads ≡ map some blocks
  pub memory : List DataFrame
  pub found : t.memory ≡ some memory
  pub space : length memory ≡ length blocks
  pub fits : IsMemory memory
  pub payloads : Payloads memory

-- A file to send: the file, its bytes, what the slave's system calls answer to the three commands, the
-- pieces in which the frames arrive, and the rounds in which the master hears the three answers,
-- after some that time out.
pub record PictureRun : Type 0 where
  pub transfer : FileTransfer
  pub block : List ℕ
  pub blocks : List (List ℕ)
  pub query_env : Answers
  pub send_env : Answers
  pub last_env : Answers
  pub piece : List ℕ
  pub pieces : List (List ℕ)
  pub lost : List Attempt
  pub later : List Attempt
  pub lost' : List Attempt
  pub later' : List Attempt
  pub lost'' : List Attempt
  pub later'' : List Attempt
  pub rounds : List SendRound

abbrev pub bytes_of : PictureRun → List ℕ
bytes_of r = concat (r.block ∷ r.blocks)

abbrev pub count_of : PictureRun → ℕ
count_of r = length (r.block ∷ r.blocks)

-- All goes well with the file as file `k`, from counter `c` on.
pub record GoesWell (k c : ℕ) (r : PictureRun) : Type 0 where
  pub file : IsPictureFile r.transfer (r.block ∷ r.blocks)
  pub queried : Replies r.query_env
  pub calloc : r.send_env.calloc ≡ true
  pub delivered : Delivers r.send_env (r.piece ∷ r.pieces)
  pub nonempty : All Nonempty (r.piece ∷ r.pieces)
  pub last : Replies r.last_env
  pub lost : All TimesOut r.lost
  pub lost' : All TimesOut r.lost'
  pub lost'' : All TimesOut r.lost''
  pub frames : List DataFrame
  pub got :
      get_data_frames r.transfer.file false r.transfer.raw r.transfer.memory
        (record r.transfer.before { n_file = k })
      ≡ returns (made r.transfer.file.closed k (count_of r) frames)
  pub arrives : concat (r.piece ∷ r.pieces) ≡ concat (map wire (numbered c frames))

-- What the master reads if the slave's answers are `q`, `g` and `l`.
abbrev pub answered : PictureRun → List ℕ → List ℕ → List ℕ → FileTransfer
answered r q g l = record r.transfer {
  first = r.lost ++ (heard q ∷ r.later);
  sending = heard_round r.lost' g r.later' r.lost'' l r.later'' ∷ r.rounds;
}
