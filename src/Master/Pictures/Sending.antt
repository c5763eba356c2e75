-- ===== src/Master/Pictures/Sending.antt =====
-- The parts of an upload: the array on the wire, one round of sending, and the frames of the two sides.
use soc.Common.{
  ℕ, suc, ◌+◌, ◌%◌, ◌<◌, ◌≡◌, refl, ap, ◌∙◌, List, [], ◌∷◌, ◌++◌, map, concat, length, replicate,
  get_or-set_self, some, true, false, inl, ◌==◌, arith,
}
use soc.Common.Effects.{returns}
use soc.Protocol.Control.{Frame, IsFrame}
use soc.Protocol.Data.{DataFrame, zero_data_frame}
use soc.Protocol.Receive.Transfer.{wire, Pending}
use soc.Protocol.Receive.Frames.{delivered}
use soc.Protocol.Slices.Carries.{numbered}
use soc.Slave.State.{Slave, DataFrameInfo, stream, info, get_status, no_stream, no_info}
use soc.Slave.Commands.{Answers, info_after}
use soc.Slave.Invariant.{IsSlave, reply-IsFrame, query_frames-lt, get_status-lt}
use soc.Slave.Served.{query_reply}
use soc.Slave.Upload.{uploaded, send_reply}
use soc.Slave.Download.{send_data_frame-written}
use soc.Master.{Attempt, send_and_receive_frame, query_request, query_status}
use soc.Master.Query.{arrived, arrived-IsFrame, heard}
use soc.Master.Pictures.{SendRound, SentFrames, send_request, send_frames, send_rounds, send_file}

-- The reply can be written.
pub record Replies (env : Answers) : Type 0 where
  pub ready : env.reply_ready ≡ true
  pub written : env.reply_written ≡ some 12

-- Everything of the array is written.
pub record WritesFrames (r : SendRound) : Type 0 where
  pub frame_ready : (k : ℕ) → r.frame_ready k ≡ true
  pub frame_written : (k : ℕ) → r.frame_written k ≡ some 534

pub send_frames-numbered :
    (fs : List DataFrame) (k c : ℕ) (r : SendRound)
    → c < 16777216
    → WritesFrames r
    → send_frames false (length fs) k fs r c
      ≡ returns (record {
        wire = concat (map wire (numbered c fs));
        frames = numbered c fs;
        n_total_frame = (c + length fs) % 16777216;
      })
unfolding send_frames numbered
send_frames-numbered [] k c r h w = let kept : (c + 0) % 16777216 ≡ c = omega arith in rw kept refl
send_frames-numbered (f ∷ fs) k c r h w =
    let turned : ((c + 1) % 16777216 + length fs) % 16777216 ≡ (c + suc (length fs)) % 16777216 =
      omega arith in
    rw
      (
        w.frame_ready k,
        w.frame_written k,
        send_data_frame-written c f,
        send_frames-numbered fs (k + 1) ((c + 1) % 16777216) r (omega arith) w,
        turned,
      )
      refl

pub Pending-fresh : (fs : List DataFrame) → Pending fs (replicate (length fs) zero_data_frame)
Pending-fresh [] = tt
Pending-fresh (f ∷ fs) = (inl refl, Pending-fresh fs)

-- One round is enough if the slave answers that it has something then.
pub send_file-once :
    (first later : List Attempt) (r : SendRound) (rounds : List SendRound)
    (out g granted last : Frame) (granted_later last_later : List Attempt) (fs : List DataFrame)
    (c : ℕ) (sent : SentFrames)
    → query_status first out ≡ returns (some (g, later))
    → g.status ≡ 0xaaaa
    → send_and_receive_frame r.request (send_request (query_request out))
      ≡ returns (some (granted, granted_later))
    → send_frames false out.n_frame 0 fs r c ≡ returns sent
    → query_status r.query (send_request (query_request out)) ≡ returns (some (last, last_later))
    → last.status ≡ 0x5555
    → send_file false first (r ∷ rounds) out fs c
      ≡ returns (
          some
            (record { input_frame = last; wire = sent.wire; n_total_frame = sent.n_total_frame }))
unfolding send_file send_rounds
send_file-once first later r rounds out g granted last granted_later last_later fs c sent q new ok e
      l done =
    let unreceived : (g.status == 0xaaaa) ≡ true = ground arith in
    let received : (last.status == 0xaaaa) ≡ false = ground arith in
    rw (q, unreceived, ok, e, l, received) refl

-- The master's request to send, as it arrives.
abbrev pub send_command : Frame → Frame
send_command out = arrived (send_request (query_request out))

pub send_request-IsFrame : (out : Frame) → IsFrame out → IsFrame (send_request (query_request out))
send_request-IsFrame out h = record {
  address = h.address;
  frame_type = omega arith;
  n_file = h.n_file;
  n_frame = h.n_frame;
  status = omega arith;
  check_sum = h.check_sum;
}

pub send_command-IsFrame : (out : Frame) → IsFrame out → IsFrame (send_command out)
send_command-IsFrame out h =
    arrived-IsFrame (send_request (query_request out)) (send_request-IsFrame out h)

-- A round in which each request is heard after rounds that time out.
abbrev pub heard_round :
    List Attempt → List ℕ → List Attempt → List Attempt → List ℕ → List Attempt → SendRound
heard_round lost granted later lost' answered later' = record {
  request = lost ++ (heard granted ∷ later);
  frame_ready = λ k. true;
  frame_written = λ k. some 534;
  query = lost' ++ (heard answered ∷ later');
}

pub query_reply-IsFrame :
    (f : Frame) (s : Slave) → IsFrame f → IsSlave s → IsFrame (query_reply f s)
query_reply-IsFrame f s hf h =
    reply-IsFrame s.output_frame f.frame_type f.n_file _ (get_status s f.n_file) h.output_frame
      hf.frame_type hf.n_file (query_frames-lt s f.n_file h) (get_status-lt s f.n_file)

pub send_reply-IsFrame : (f : Frame) (s : Slave) → IsFrame f → IsSlave s → IsFrame (send_reply f s)
send_reply-IsFrame f s hf h =
    reply-IsFrame s.output_frame f.frame_type f.n_file f.n_frame s.output_frame.status
      h.output_frame hf.frame_type hf.n_file hf.n_frame h.output_frame.status

pub stream-uploaded :
    (f : Frame) (fs : List DataFrame) (d : List ℕ) (s : Slave)
    → f.n_file < 8
    → length s.bit_streams ≡ 8
    → stream (uploaded f fs d s) f.n_file ≡ record { addr = some d; len = length d }
unfolding uploaded
stream-uploaded f fs d s small eight =
    get_or-set_self s.bit_streams f.n_file (record { addr = some d; len = length d }) no_stream
      (omega arith)

pub info-uploaded :
    (f : Frame) (fs : List DataFrame) (d : List ℕ) (s : Slave)
    → f.n_file < 8
    → f.n_frame < 65536
    → f.n_frame ≡ length fs
    → length s.data_frame_infos ≡ 8
    → (info (uploaded f fs d s) f.n_file).len ≡ length fs
unfolding uploaded
info-uploaded f fs d s small fits n eight =
    ap (λ i. DataFrameInfo.len i)
      (get_or-set_self s.data_frame_infos f.n_file (info_after f 0 (map delivered fs)) no_info
        (omega arith))
    ∙ omega arith
