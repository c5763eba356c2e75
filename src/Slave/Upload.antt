-- ===== src/Slave/Upload.antt =====
-- A picture that the master sends: from the frames on the wire to the bit stream.
use soc.Common.{
  ℕ, ◌<◌, ◌≡◌, refl, sym, ◌∙◌, List, [], ◌∷◌, map, concat, length, set, get_or, get_or-set_self,
  replicate, All, none, some, true, lt→ltb, lt→leb, ◌==◌, arith, inl, inr, Bool-cases,
}
use soc.Common.Effects.{Call, returns}
use soc.Protocol.Control.{Frame, write_frame}
use soc.Protocol.Control.RoundTrip.{send_frame-written}
use soc.Protocol.Data.{DataFrame, zero_data_frame}
use soc.Protocol.Receive.{ready, receive_data_frames}
use soc.Protocol.Receive.Frames.{delivered}
use soc.Protocol.Receive.Reading.{Nonempty}
use soc.Protocol.Receive.Transfer.{wire, Sendable, Pending, receive-wires}
use soc.Protocol.Slices.Carries.{Carries, Carries-delivered}
use soc.Slave.State.{Slave, stream, info, get_status, no_stream}
use soc.Slave.Process.{Yuv, process_data_frames_dry_run, copy_to}
use soc.Slave.Commands.{
  Answers, info_after, prepare_addr, process_if_complete, receive_picture, send, handle,
}

-- The system calls of a SEND command that goes well: the reply is written, memory is there, and the
-- reads bring `pieces` in turn.
pub record Delivers (env : Answers) (pieces : List (List ℕ)) : Type 0 where
  pub reply_ready : env.reply_ready ≡ true
  pub reply_written : env.reply_written ≡ some 12
  pub data_ready : env.data_ready ≡ ready
  pub reads : env.reads ≡ (λ k. get_or pieces k [])
  pub memory : env.memory.stream ≡ true

-- The state after the upload.
unfoldable pub uploaded : Frame → List DataFrame → List ℕ → Slave → Slave
uploaded f fs d s = record s {
  bit_streams = set s.bit_streams f.n_file (record { addr = some d; len = length d });
  data_frame_infos = set s.data_frame_infos f.n_file (info_after f 0 (map delivered fs));
}

module _ (encode : Yuv → Call (List ℕ)) where
  process-Carries :
      (env : Answers) (f : Frame) (fs : List DataFrame) (d : List ℕ) (s : Slave)
      → f.n_frame ≡ length fs
      → Carries fs d
      → env.memory.stream ≡ true
      → process_data_frames_dry_run encode true env.memory
          (map delivered fs)
          f.n_frame
          (stream s f.n_file).addr
        ≡ returns (length d, some d)
  unfolding process_data_frames_dry_run copy_to
  process-Carries env f fs d s n c m =
      let stored = Carries-delivered fs d c in rw (n, stored.1, stored.0, m) refl

  receive_picture-Carries :
      (env : Answers) (f : Frame) (fs olds : List DataFrame) (d : List ℕ) (c : List ℕ)
      (cs : List (List ℕ)) (s : Slave)
      → f.n_frame ≡ length fs
      → prepare_addr env f s ≡ returns olds
      → All Sendable fs
      → Pending fs olds
      → All Nonempty (c ∷ cs)
      → concat (c ∷ cs) ≡ concat (map wire fs)
      → Carries fs d
      → Delivers env (c ∷ cs)
      → receive_picture encode true env f s ≡ returns (uploaded f fs d s)
  unfolding receive_picture process_if_complete uploaded
  receive_picture-Carries env f fs olds d c cs s n addr ss ps ne e ca dl =
      let frames : receive_data_frames env.data_ready env.reads olds f.n_frame
          ≡ returns (0, map delivered fs) =
        rw (n, dl.data_ready, dl.reads) (receive-wires fs olds c cs ss ps ne e) in
      rw (addr, frames) (rw (process-Carries env f fs d s n ca dl.memory) refl)

-- The reply to SEND.
abbrev pub send_reply : Frame → Slave → Frame
send_reply f s = record s.output_frame {
  frame_type = f.frame_type;
  n_file = f.n_file;
  n_frame = f.n_frame;
}

pub prepare_addr-output_frame :
    (env : Answers) (f reply : Frame) (s : Slave)
    → prepare_addr env f (record s { output_frame = reply }) ≡ prepare_addr env f s
unfolding prepare_addr get_status
prepare_addr-output_frame env f reply s = refl

get_status-uploaded :
    (f : Frame) (fs : List DataFrame) (d : List ℕ) (s : Slave)
    → f.n_file < 8
    → length s.bit_streams ≡ 8
    → 0 < length d
    → get_status (uploaded f fs d s) f.n_file ≡ 0x5555
unfolding get_status uploaded
get_status-uploaded f fs d s small eight more =
    rw
      (
        lt→leb 8 f.n_file small,
        get_or-set_self s.bit_streams f.n_file (record { addr = some d; len = length d }) no_stream
            (omega arith),
        lt→ltb 0 (length d) more,
      )
      refl

module _ (encode : Yuv → Call (List ℕ)) where
  -- A slave in a dry run that gets a SEND command for the frames `fs`, which carry data `d` that is not
  -- empty, with a picture number below 8: if the system calls go well, the bytes of the frames arrive in any
  -- non-empty pieces, and each of the picture's slots is empty or holds its frame from an earlier
  -- attempt, then the slave repeats the command's numbers in its reply, stores the frames and `d` as the
  -- bit stream, changes nothing else but its output frame, and has the status `processed` for the
  -- picture.
  pub upload :
      (env : Answers) (f : Frame) (fs olds : List DataFrame) (d c : List ℕ) (cs : List (List ℕ))
      (s : Slave)
      → f.frame_type ≡ 3
      → f.n_file < 8
      → f.n_frame ≡ length fs
      → length s.bit_streams ≡ 8
      → prepare_addr env f s ≡ returns olds
      → All Sendable fs
      → Pending fs olds
      → All Nonempty (c ∷ cs)
      → concat (c ∷ cs) ≡ concat (map wire fs)
      → Carries fs d
      → 0 < length d
      → Delivers env (c ∷ cs)
      → (handle encode true env f s
          ≡ returns (
            (write_frame (send_reply f s) (some 12)).0,
            uploaded f fs d (record s { output_frame = send_reply f s }),
          ))
        × (get_status (uploaded f fs d (record s { output_frame = send_reply f s })) f.n_file
            ≡ 0x5555)
  unfolding handle send
  upload env f fs olds d c cs s t small n eight addr ss ps ne e ca more dl =
      let received =
        receive_picture-Carries encode env f fs olds d c cs
          (record s { output_frame = send_reply f s }) n
          (prepare_addr-output_frame env f (send_reply f s) s ∙ addr) ss ps ne e ca dl in
      (
        rw
            (
              received,
              t,
              lt→leb 8 f.n_file small,
              dl.reply_ready,
              dl.reply_written,
              sym t,
              send_frame-written (send_reply f s),
            )
            refl,
        get_status-uploaded f fs d (record s { output_frame = send_reply f s }) small eight more,
      )

-- For a picture that has no array yet the slots are those of calloc, all empty.
pub prepare_addr-fresh :
    (env : Answers) (f : Frame) (s : Slave)
    → f.n_file < 8
    → (info s f.n_file).addr ≡ none
    → env.calloc ≡ true
    → prepare_addr env f s ≡ returns (replicate f.n_frame zero_data_frame)
unfolding prepare_addr
prepare_addr-fresh env f s small fresh c = elim (Bool-cases (get_status s f.n_file == 0x5555)) [
  | inl processed ↦ rw (lt→leb 8 f.n_file small, processed, c, prepare_addr) refl
  | inr other ↦ rw (lt→leb 8 f.n_file small, other, fresh, c, prepare_addr) refl
]
