-- ===== src/Slave/Download.antt =====
-- A bit stream that the master asks for: from the slave's memory to the frames on the wire, and to
-- the master's memory.
use soc.Common.{
  ℕ, ◌+◌, ◌*◌, ◌%◌, ◌≤◌, ◌<◌, ◌≡◌, refl, sym, ap, ◌∙◌, List, [], ◌∷◌, ◌++◌, map, concat, length,
  All, some, Bool, true, false, lt→leb, ◌==◌, arith,
}
use soc.Common.Effects.{Call, returns, pos}
use soc.Protocol.Control.{Frame, send_frame, write_frame, after_write}
use soc.Protocol.Control.RoundTrip.{send_frame-written}
use soc.Protocol.Data.{DataFrame, send_data_frame, write_data_frame}
use soc.Protocol.Receive.Transfer.{wire, Sendable}
use soc.Protocol.Slices.{at_addr, frames_needed, alloc_data_frames}
use soc.Protocol.Slices.Carries.{Carries, Carries-numbered, numbered, length-numbered}
use soc.Protocol.Slices.Alloc.{IsMemory, alloc_data_frames_lem}
use soc.Slave.State.{Slave, stream}
use soc.Slave.Process.{Yuv}
use soc.Slave.Commands.{
  Answers, source_of, bit_stream, send_data_frames, send_picture, recv, handle,
}

-- The system calls of a RECV command that goes well: malloc returns `memory`, and everything is
-- written.
pub record Writes (env : Answers) (memory : List DataFrame) : Type 0 where
  pub reply_ready : env.reply_ready ≡ true
  pub reply_written : env.reply_written ≡ some 12
  pub frames : env.frames ≡ some memory
  pub frame_ready : (k : ℕ) → env.frame_ready k ≡ true
  pub frame_written : (k : ℕ) → env.frame_written k ≡ some 534

pub numbered-Sendable :
    (c : ℕ) (fs : List DataFrame) → c < 16777216 → All Sendable fs → All Sendable (numbered c fs)
unfolding numbered
numbered-Sendable c [] h s = tt
numbered-Sendable c (f ∷ fs) h s = (
  record {
    fits = record {
      header = s.0.fits.header;
      header_bytes = s.0.fits.header_bytes;
      n_total_frame = h;
      flag = s.0.fits.flag;
      n_file = s.0.fits.n_file;
      n_frame = s.0.fits.n_frame;
      total_data_len = s.0.fits.total_data_len;
      data_len = s.0.fits.data_len;
      payload = s.0.fits.payload;
      payload_bytes = s.0.fits.payload_bytes;
      check_sum = s.0.fits.check_sum;
    };
    header = s.0.header;
  },
  numbered-Sendable ((c + 1) % 16777216) fs (omega arith) s.1,
)

-- What one frame puts on the wire.
pub send_data_frame-written :
    (c : ℕ) (f : DataFrame)
    → send_data_frame true c f (some 534) ≡ record {
      counter = (c + 1) % 16777216;
      frame = record f { n_total_frame = c };
      wire = wire (record f { n_total_frame = c });
      result = returns (pos 534);
    }
unfolding send_data_frame write_data_frame after_write
send_data_frame-written c f = refl

send_data_frames-numbered :
    (env : Answers) (fs : List DataFrame) (k c : ℕ)
    → ((i : ℕ) → env.frame_ready i ≡ true)
    → ((i : ℕ) → env.frame_written i ≡ some 534)
    → (c' : ℕ) × (send_data_frames (length fs) k fs env c
        ≡ returns (concat (map wire (numbered c fs)), c'))
unfolding send_data_frames numbered
send_data_frames-numbered env [] k c r w = (c, refl)
send_data_frames-numbered env (f ∷ fs) k c r w =
    let (c', e) = send_data_frames-numbered env fs (k + 1) ((c + 1) % 16777216) r w in
    (c', rw (r k, w k, send_data_frame-written c f, e) refl)

-- The reply to RECV for `n` frames.
abbrev pub recv_reply : Frame → ℕ → Slave → Frame
recv_reply f n s = record s.output_frame {
  frame_type = f.frame_type;
  n_file = f.n_file;
  n_frame = n;
}

send_picture-written :
    (env : Answers) (memory fs : List DataFrame) (reply : Frame) (s : Slave)
    → reply.n_frame ≡ length fs
    → Writes env memory
    → (c : ℕ) × (send_picture env reply fs s
        ≡ returns (
          (write_frame reply (some 12)).0 ++ concat (map wire (numbered s.n_total_frame fs)),
          record s { output_frame = reply; n_total_frame = c },
        ))
unfolding send_picture
send_picture-written env memory fs reply s n w =
    let (c, e) = send_data_frames-numbered env fs 0 s.n_total_frame w.frame_ready w.frame_written in
    let replied : send_frame env.reply_ready reply env.reply_written
        ≡ ((write_frame reply (some 12)).0, returns (pos 12)) =
      rw (w.reply_ready, w.reply_written) (send_frame-written reply) in
    let frames : send_data_frames reply.n_frame 0 fs env s.n_total_frame
        ≡ returns (concat (map wire (numbered s.n_total_frame fs)), c) =
      ap (λ k. send_data_frames k 0 fs env s.n_total_frame) n ∙ e in
    (c, rw (replied, frames) refl)

pub frames_needed-lt : (len : ℕ) → len ≤ 65535 * 512 → frames_needed len % 65536 ≡ frames_needed len
unfolding frames_needed
frames_needed-lt len h = ground arith

recv-alloc :
    (env : Answers) (f : Frame) (memory fs : List DataFrame) (bytes : List ℕ) (s : Slave)
    → f.n_file < 8
    → stream s f.n_file ≡ record { addr = some bytes; len = length bytes }
    → 0 < length bytes
    → length bytes ≤ 65535 * 512
    → env.frames ≡ some memory
    → alloc_data_frames
        (some memory)
        (frames_needed (length bytes))
        f.n_file
        (at_addr bytes (length bytes))
        0xaa
        (length bytes)
      ≡ returns (some fs)
    → recv env f s ≡ send_picture env (recv_reply f (frames_needed (length bytes)) s) fs s
unfolding recv
recv-alloc env f memory fs bytes s small st more h m e =
    let some_len : ((stream s f.n_file).len == 0) ≡ false = rw st (ground arith) in
    let count : frames_needed (stream s f.n_file).len % 65536 ≡ frames_needed (length bytes) =
      rw st (frames_needed-lt (length bytes) h) in
    let total : (stream s f.n_file).len % 4294967296 ≡ length bytes = rw st (omega arith) in
    let source : source_of env (stream s f.n_file) ≡ at_addr bytes (length bytes) = rw st refl in
    let made : alloc_data_frames env.frames (frames_needed (stream s f.n_file).len % 65536) f.n_file
          (source_of env (stream s f.n_file)) 0xaa ((stream s f.n_file).len % 4294967296)
        ≡ returns (some fs) =
      rw (count, total, source, m) e in
    rw (lt→leb 8 f.n_file small, bit_stream, some_len, made)
      (ap (λ k. send_picture env (recv_reply f k s) fs s) count)

handle-recv :
    (encode : Yuv → Call (List ℕ)) (dry_run : Bool) (env : Answers) (f : Frame) (s : Slave)
    → f.frame_type ≡ 7
    → handle encode dry_run env f s ≡ recv env f s
unfolding handle
handle-recv encode dry_run env f s t =
    let not_query : (f.frame_type == 1) ≡ false = ground arith in
    let not_send : (f.frame_type == 3) ≡ false = ground arith in
    let is_recv : (f.frame_type == 7) ≡ true = ground arith in
    rw (not_query, not_send, is_recv) refl

module _ (encode : Yuv → Call (List ℕ)) (dry_run : Bool) where
  -- A slave that gets a RECV command for a picture below 8, whose bit stream is 1 to 65535 * 512
  -- `bytes`: if malloc returns memory, which may hold anything, and everything is written, then it
  -- writes its reply, which announces as many frames as the data need, and the bytes of frames that fit
  -- their types and carry `bytes`; it changes nothing else but its output frame and its counter.
  pub download :
      (env : Answers) (f : Frame) (memory : List DataFrame) (bytes : List ℕ) (s : Slave)
      → f.frame_type ≡ 7
      → f.n_file < 8
      → stream s f.n_file ≡ record { addr = some bytes; len = length bytes }
      → 0 < length bytes
      → length bytes ≤ 65535 * 512
      → All (λ x. x < 256) bytes
      → s.n_total_frame < 16777216
      → length memory ≡ frames_needed (length bytes)
      → IsMemory memory
      → Writes env memory
      → (fs : List DataFrame) × (c : ℕ) × (handle encode dry_run env f s
          ≡ returns (
            (write_frame (recv_reply f (frames_needed (length bytes)) s) (some 12)).0
                ++ concat (map wire fs),
            record s {
              output_frame = recv_reply f (frames_needed (length bytes)) s;
              n_total_frame = c;
            },
          ))
        × All Sendable fs
        × Carries fs bytes
        × (length fs ≡ frames_needed (length bytes))
  download env f memory bytes s t small st more h b ct m mem w =
      let (fs, made, size, ss, ca) =
        alloc_data_frames_lem memory f.n_file 0xaa (length bytes) bytes more h b m mem (omega arith)
          (omega arith) (omega arith) in
      let (c, e) =
        send_picture-written env memory fs (recv_reply f (frames_needed (length bytes)) s) s
          (sym size) w in
      (
        numbered s.n_total_frame fs,
        c,
        handle-recv encode dry_run env f s t
            ∙ recv-alloc env f memory fs bytes s small st more h w.frames made
            ∙ e,
        numbered-Sendable s.n_total_frame fs ct ss,
        Carries-numbered s.n_total_frame fs bytes ca,
        length-numbered s.n_total_frame fs ∙ size,
      )
