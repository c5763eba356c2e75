-- ===== src/Slave/Invariant.antt =====
-- What holds of every state of the slave.
use soc.Common.{
  ℕ, zero, suc, ◌<◌, ◌≡◌, ◌∙◌, List, [], ◌∷◌, set, length, length-set, get_or, Bool-cases, inl, inr,
  All, Option, Bool, ltb, leb, ◌==◌, if◌then◌else◌, arith,
}
use soc.Common.Effects.{Call, is_positive, Ends, on_return, Ends-bind, Ends-then, Ends-if}
use soc.Protocol.Control.{Frame, IsFrame, send_frame}
use soc.Protocol.Data.{DataFrame}
use soc.Protocol.Receive.{receive_data_frames}
use soc.Slave.State.{DataFrameInfo, Slave, stream, info, get_status, no_info}
use soc.Slave.Process.{Yuv, process_data_frames_dry_run}
use soc.Slave.Commands.{
  Answers, info_after, query, prepare_addr, process_if_complete, receive_picture, send,
}

-- The numbers of a `data_frame_info_t` fit an `n_frame_t`.
abbrev pub IsInfo : DataFrameInfo → Type 0
IsInfo i = (i.len < 65536) × (i.total_len < 65536)

pub record IsSlave (s : Slave) : Type 0 where
  pub bit_streams : length s.bit_streams ≡ 8
  pub data_frame_infos : length s.data_frame_infos ≡ 8
  pub infos : All IsInfo s.data_frame_infos
  pub output_frame : IsFrame s.output_frame
  pub address : s.output_frame.address ≡ 1
  pub n_total_frame : s.n_total_frame < 16777216

All-set :
    (l : List DataFrameInfo) (n : ℕ) (i : DataFrameInfo)
    → All IsInfo l
    → IsInfo i
    → All IsInfo (set l n i)
All-set [] n i h k = tt
All-set (x ∷ l) zero i h k = (k, h.1)
All-set (x ∷ l) (suc n) i h k = (h.0, All-set l n i h.1 k)

pub get_or-IsInfo : (l : List DataFrameInfo) (n : ℕ) → All IsInfo l → IsInfo (get_or l n no_info)
get_or-IsInfo [] n h = (omega arith, omega arith)
get_or-IsInfo (x ∷ l) zero h = h.0
get_or-IsInfo (x ∷ l) (suc n) h = get_or-IsInfo l n h.1

pub with_output :
    (s : Slave) (reply : Frame)
    → IsSlave s
    → IsFrame reply
    → reply.address ≡ 1
    → IsSlave (record s { output_frame = reply })
with_output s reply h r a = record {
  bit_streams = h.bit_streams;
  data_frame_infos = h.data_frame_infos;
  infos = h.infos;
  output_frame = r;
  address = a;
  n_total_frame = h.n_total_frame;
}

pub get_status-lt : (s : Slave) (n : ℕ) → get_status s n < 65536
unfolding get_status
get_status-lt s n = ground arith

-- A reply is the old output frame with new fields.
pub reply-IsFrame :
    (f : Frame) (t n_file n_frame status : ℕ)
    → IsFrame f
    → t < 256
    → n_file < 4294967296
    → n_frame < 65536
    → status < 65536
    → IsFrame (record f { frame_type = t; n_file = n_file; n_frame = n_frame; status = status })
reply-IsFrame f t n_file n_frame status h a b c d = record {
  address = h.address;
  frame_type = a;
  n_file = b;
  n_frame = c;
  status = d;
  check_sum = h.check_sum;
}

pub query_frames-lt :
    (s : Slave) (n : ℕ) → IsSlave s → (if ltb n 8 then (info s n).len else 0) < 65536
query_frames-lt s n h = elim (Bool-cases (ltb n 8)) [
  | inl e ↦ rw e ((get_or-IsInfo s.data_frame_infos n h.infos).0)
  | inr e ↦ rw e (omega arith)
]

pub query-IsSlave :
    (env : Answers) (f : Frame) (s : Slave)
    → IsFrame f
    → IsSlave s
    → Ends (λ (r : List ℕ × Slave). IsSlave r.1) (query env f s)
unfolding query
query-IsSlave env f s hf h = Ends-bind _ _ λ n. on_return _ (
    with_output s _ h
      (reply-IsFrame s.output_frame f.frame_type f.n_file _ (get_status s f.n_file) h.output_frame
        hf.frame_type hf.n_file (query_frames-lt s f.n_file h) (get_status-lt s f.n_file))
      h.address)

module _ (encode : Yuv → Call (List ℕ)) (dry_run : Bool) where
  process_if_complete-IsSlave :
      (env : Answers) (f : Frame) (sum : ℕ) (frames : List DataFrame) (s : Slave)
      → IsSlave s
      → Ends IsSlave (process_if_complete encode dry_run env f sum frames s)
  unfolding process_if_complete
  process_if_complete-IsSlave env f sum frames s h =
      Ends-if (sum == 0)
        (Ends-bind
          (process_data_frames_dry_run encode dry_run env.memory frames f.n_frame
            (stream s f.n_file).addr)
          _
          λ (r : ℕ × Option (List ℕ)). on_return _ (record {
            bit_streams =
                length-set s.bit_streams f.n_file (record { addr = r.1; len = r.0 })
                ∙ h.bit_streams;
            data_frame_infos = h.data_frame_infos;
            infos = h.infos;
            output_frame = h.output_frame;
            address = h.address;
            n_total_frame = h.n_total_frame;
          }))
        (on_return s h)

  receive_picture-IsSlave :
      (env : Answers) (f : Frame) (s : Slave)
      → IsFrame f
      → IsSlave s
      → Ends IsSlave (receive_picture encode dry_run env f s)
  unfolding receive_picture
  receive_picture-IsSlave env f s hf h = Ends-bind (prepare_addr env f s) _ λ addr.
      Ends-bind (receive_data_frames env.data_ready env.reads addr f.n_frame) _
        λ (r : ℕ × List DataFrame).
          let i = info_after f r.0 r.1 in
          process_if_complete-IsSlave env f r.0 r.1
            (record s { data_frame_infos = set s.data_frame_infos f.n_file i })
            (record {
              bit_streams = h.bit_streams;
              data_frame_infos = length-set s.data_frame_infos f.n_file i ∙ h.data_frame_infos;
              infos = All-set s.data_frame_infos f.n_file i h.infos (omega arith, hf.n_frame);
              output_frame = h.output_frame;
              address = h.address;
              n_total_frame = h.n_total_frame;
            })

  pub send-IsSlave :
      (env : Answers) (f : Frame) (s : Slave)
      → IsFrame f
      → IsSlave s
      → Ends (λ (r : List ℕ × Slave). IsSlave r.1) (send encode dry_run env f s)
  unfolding send
  send-IsSlave env f s hf h = Ends-if (leb 8 f.n_file) (on_return ([], s) h) (
      Ends-bind (send_frame env.reply_ready reply env.reply_written).1 _ λ ret.
        Ends-if (is_positive ret)
          (Ends-then (receive_picture encode dry_run env f (record s { output_frame = reply })) _
            (receive_picture-IsSlave env f (record s { output_frame = reply }) hf replied)
            λ s' c. on_return _ c)
          (on_return _ replied))
    where
      reply : Frame
      reply = record s.output_frame {
        frame_type = f.frame_type;
        n_file = f.n_file;
        n_frame = f.n_frame;
      }

      replied : IsSlave (record s { output_frame = reply })
      replied =
          with_output s reply h
            (reply-IsFrame s.output_frame f.frame_type f.n_file f.n_frame s.output_frame.status
              h.output_frame hf.frame_type hf.n_file hf.n_frame h.output_frame.status)
            h.address
