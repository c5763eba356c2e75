-- ===== src/Slave/Isolation.antt =====
-- What a command of the master changes in the slave's tables.
use soc.Common.{
  ℕ, ◌%◌, ◌≡◌, ◌≢◌, refl, ap, List, [], set, get_or, Option, none, some, Bool, leb, ◌==◌,
  get_or-set_ne,
}
use soc.Common.Effects.{
  Call, returns, is_positive, is_true, Ends, on_return, Ends-bind, Ends-then, Ends-if, Ends-value,
}
use soc.Protocol.Control.{Frame, send_frame}
use soc.Protocol.Data.{DataFrame}
use soc.Protocol.Receive.{receive_data_frames}
use soc.Protocol.Slices.{frames_needed}
use soc.Slave.State.{
  BitStream, DataFrameInfo, Slave, stream, info, pictures_number_max, no_info, no_stream,
}
use soc.Slave.Process.{Yuv, process_data_frames_dry_run}
use soc.Slave.Commands.{
  Answers, info_after, send_data_frames, query, prepare_addr, process_if_complete, receive_picture,
  send, bit_stream, send_picture, recv, handle,
}

-- The tables after a command for picture `n`: as they were, or with new frames for it, or with new
-- frames and a new bit stream.
pub data Change (n : ℕ) (s s' : Slave) : Type 0 where
  same : s'.bit_streams ≡ s.bit_streams → s'.data_frame_infos ≡ s.data_frame_infos → Change n s s'
  received :
      (i : DataFrameInfo)
      → s'.bit_streams ≡ s.bit_streams
      → s'.data_frame_infos ≡ set s.data_frame_infos n i
      → Change n s s'
  processed :
      (i : DataFrameInfo) (b : BitStream)
      → s'.bit_streams ≡ set s.bit_streams n b
      → s'.data_frame_infos ≡ set s.data_frame_infos n i
      → Change n s s'

query-Change :
    (env : Answers) (f : Frame) (s : Slave) → Ends (λ r. Change f.n_file s r.1) (query env f s)
unfolding query
query-Change env f s = Ends-bind _ _ λ n. on_return _ (same refl refl)

module _ (encode : Yuv → Call (List ℕ)) (dry_run : Bool) where
  process_if_complete-Change :
      (env : Answers) (f : Frame) (sum : ℕ) (frames : List DataFrame) (i : DataFrameInfo)
      (s a : Slave)
      → a.bit_streams ≡ s.bit_streams
      → a.data_frame_infos ≡ set s.data_frame_infos f.n_file i
      → Ends (Change f.n_file s) (process_if_complete encode dry_run env f sum frames a)
  unfolding process_if_complete
  process_if_complete-Change env f sum frames i s a b d =
      Ends-if (sum == 0)
        (Ends-bind
          (process_data_frames_dry_run encode dry_run env.memory frames f.n_frame
            (stream a f.n_file).addr)
          _
          λ (r : ℕ × Option (List ℕ)).
            on_return _ (processed i (record { addr = r.1; len = r.0 }) (rw b refl) d))
        (on_return a (received i b d))

  receive_picture-Change :
      (env : Answers) (f : Frame) (s a : Slave)
      → a.bit_streams ≡ s.bit_streams
      → a.data_frame_infos ≡ s.data_frame_infos
      → Ends (Change f.n_file s) (receive_picture encode dry_run env f a)
  unfolding receive_picture
  receive_picture-Change env f s a b d = Ends-bind (prepare_addr env f a) _ λ addr.
      Ends-bind (receive_data_frames env.data_ready env.reads addr f.n_frame) _
        λ (r : ℕ × List DataFrame).
          let i = info_after f r.0 r.1 in
          process_if_complete-Change env f r.0 r.1 i s
            (record a { data_frame_infos = set a.data_frame_infos f.n_file i }) b
            (ap (λ infos. set infos f.n_file i) d)

  send-Change :
      (env : Answers) (f : Frame) (s : Slave)
      → Ends (λ r. Change f.n_file s r.1) (send encode dry_run env f s)
  unfolding send
  send-Change env f s =
      Ends-if (leb pictures_number_max f.n_file) (on_return ([], s) (same refl refl)) (
        Ends-bind (send_frame env.reply_ready reply env.reply_written).1 _ λ ret.
          Ends-if (is_positive ret)
            (Ends-then (receive_picture encode dry_run env f (record s { output_frame = reply })) _
              (receive_picture-Change env f s (record s { output_frame = reply }) refl refl)
              λ s' c. on_return _ c)
            (on_return _ (same refl refl)))
    where
      reply : Frame
      reply = record s.output_frame {
        frame_type = f.frame_type;
        n_file = f.n_file;
        n_frame = f.n_frame;
      }

send_picture-Change :
    (env : Answers) (n : ℕ) (reply : Frame) (frames : List DataFrame) (s : Slave)
    → Ends (λ r. Change n s r.1) (send_picture env reply frames s)
unfolding send_picture
send_picture-Change env n reply frames s =
    Ends-bind (send_frame env.reply_ready reply env.reply_written).1 _ λ ret.
      Ends-if (is_true ret)
        (Ends-bind (send_data_frames reply.n_frame 0 frames env s.n_total_frame) _
          λ (r : List ℕ × ℕ). on_return _ (same refl refl))
        (on_return _ (same refl refl))

recv-Change :
    (env : Answers) (f : Frame) (s : Slave) → Ends (λ r. Change f.n_file s r.1) (recv env f s)
unfolding recv
recv-Change env f s =
    Ends-if (leb pictures_number_max f.n_file) (on_return ([], s) (same refl refl)) (
      Ends-bind (bit_stream s f.n_file) _
        λ b. Ends-if (b.len == 0) (on_return ([], s) (same refl refl)) (Ends-bind _ _ (made b)))
  where
    reply : BitStream → Frame
    reply b = record s.output_frame {
      frame_type = f.frame_type;
      n_file = f.n_file;
      n_frame = frames_needed b.len % 65536;
    }

    made :
        (b : BitStream) (o : Option (List DataFrame))
        → Ends
            (λ (r : List ℕ × Slave). Change f.n_file s r.1)
            (elim o [
              | none ↦ returns ([], record s { output_frame = reply b })
              | some frames ↦ send_picture env (reply b) frames s
            ])
    made b none = on_return _ (same refl refl)
    made b (some frames) = send_picture-Change env f.n_file (reply b) frames s

module _ (encode : Yuv → Call (List ℕ)) (dry_run : Bool) where
  pub handle-Change :
      (env : Answers) (f : Frame) (s : Slave)
      → Ends (λ r. Change f.n_file s r.1) (handle encode dry_run env f s)
  unfolding handle
  handle-Change env f s = Ends-if (f.frame_type == 1) (query-Change env f s) (
      Ends-if (f.frame_type == 3) (send-Change encode dry_run env f s)
        (Ends-if (f.frame_type == 7) (recv-Change env f s) (on_return ([], s) (same refl refl))))

  -- A command for one picture that the slave serves to its end, of any type and whatever the system
  -- calls answer, leaves the bit stream and the frames of every other picture as they were.
  pub handle_isolated :
      (env : Answers) (f : Frame) (s s' : Slave) (sent : List ℕ) (k : ℕ)
      → handle encode dry_run env f s ≡ returns (sent, s')
      → f.n_file ≢ k
      → (stream s' k ≡ stream s k) × (info s' k ≡ info s k)
  handle_isolated env f s s' sent k e ne =
      elim (Ends-value (λ r. Change f.n_file s r.1) (sent, s') (handle-Change env f s) e) [
        | same b d ↦ (ap (λ l. get_or l k no_stream) b, ap (λ l. get_or l k no_info) d)
        | received i b d ↦
            (ap (λ l. get_or l k no_stream) b, rw d (get_or-set_ne s.data_frame_infos i no_info ne))
        | processed i bits b d ↦ (
          rw b (get_or-set_ne s.bit_streams bits no_stream ne),
          rw d (get_or-set_ne s.data_frame_infos i no_info ne),
        )
      ]
